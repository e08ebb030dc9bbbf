-- ===== src/Work/Tests.antt =====
-- Runs of the work queue, and its theorems at concrete inputs.
use bifrost_module.Base.{
  ℕ, ◌≡◌, refl, true, false, some, none, [], ◌∷◌, get_elem?, arith, ◌≢◌, bit_and, ◌<◌, ◌/◌, ◌^◌,
  bit-zero, ok, zero, suc,
}
use bifrost_module.Base.Bits.{bit}
use bifrost_module.Stats.{Arch, zeroed}
use bifrost_module.Dma.{Ctl, Xfer}
use bifrost_module.Dma.Ready.{IsReady}
use bifrost_module.UserDma.{Transfer, Direction, Saved, Answers}
use bifrost_module.UserDma.Begin.{do_dma_start_xfer}
use bifrost_module.Pci.{dma_msi_handler}
use bifrost_module.Work.Completed.{done, do_dma_start_xfer-delivered}
use bifrost_module.Events.{Event, Handle, Payload}
use bifrost_module.Pci.{map_msi_to_event, Rest, default_msi_handler, default_msi_event}
use bifrost_module.Work.{Queue, Answer, flush_workqueue}
use bifrost_module.Work.Schedule.{turns, raises, thread, at_once, flush_workqueue-at_once}
use bifrost_module.Work.Delivered.{raise, EndsWith, default_msi_handler-delivered}

-- A handle that waits for the interrupt of vector 12.
abbrev waiting : Handle
waiting = record {
  addr = 7;
  event_enable_mask = 1;
  irq_forwarding_mask = 0x1000;
  event_list = [];
  event_list_count = 0;
}

abbrev sync : Event
sync = record { type = 1; payload = Payload.irq 0x1000 0 0 0; received = 0; forwarded = 0 }

abbrev one_waits : Queue
one_waits = record { works = sync ∷ []; handles = waiting ∷ []; delivered = 0 }

abbrev answers : ℕ → Answer
answers k = record { memory = λ a. true; now = k }

abbrev rest : Rest
rest = record { value = 0; frame_size = 0; frame_time = 0 }

flush_workqueue-at_once_example :
    ((flush_workqueue answers (turns answers one_waits (thread ∷ raises true sync ∷ []))).works
      ≡ [])
    × ((flush_workqueue answers (turns answers one_waits (thread ∷ raises true sync ∷ []))).handles
        ≡ at_once answers 0 (waiting ∷ []) (sync ∷ sync ∷ []))
flush_workqueue-at_once_example =
    flush_workqueue-at_once answers one_waits (thread ∷ raises true sync ∷ [])

forwarded : bit_and 0x1000 (map_msi_to_event 12) ≢ 0
unfolding map_msi_to_event
forwarded = omega arith

default_msi_handler-delivered_example :
    ((flush_workqueue answers (raise true (default_msi_handler true rest 12) one_waits)).works ≡ [])
    × ((h' : Handle) × (get_elem?
            (flush_workqueue answers
              (raise true (default_msi_handler true rest 12) one_waits)).handles
            0
          ≡ some h')
        × EndsWith h' (default_msi_event rest 12))
default_msi_handler-delivered_example =
    default_msi_handler-delivered answers rest 12 one_waits 0 waiting refl
      (record { counted = refl; bounded = omega arith }) (omega arith) forwarded (omega arith)
      (λ k. refl)

-- An engine with one channel, which is idle.
abbrev engine : Ctl
engine = record {
  list = [];
  num_ch = 1;
  idle_bitmap = 1;
  ch = λ _. record { irq = 40; in_progress = none };
}

one_bit : (i : ℕ) → bit 1 i ≡ 1 → i < 1
unfolding bit
one_bit zero e = omega arith
one_bit (suc i) e = absurd (omega (arith, bit-zero i))

first_bit : bit 1 0 ≡ 1
unfolding bit
first_bit = refl

engine-IsReady : IsReady engine
engine-IsReady = record {
  valid = record {
    few = omega arith;
    fits = omega arith;
    within = λ i lt set. one_bit i set;
    free = λ i lt set. refl;
    served = λ i lt set. refl;
  };
  channels = omega arith;
  own = λ i j hi hj e. omega (arith, hi, hj);
  above = λ i hi. refl;
  holding = λ i hi clear. absurd (clear (ground (arith, hi, first_bit)));
}

abbrev kernel_answers : Answers
kernel_answers = record {
  memory = true;
  coherent = none;
  copied_in = true;
  bus = 0;
  completed = true;
  copied_out = true;
}

abbrev no_buffer : Saved
no_buffer = record { virt = none; phy = 0; size = 0 }

abbrev small_transfer : Transfer
small_transfer = record { system = 0x1000; device = 0x2000; size = 64 }

abbrev arm : Arch
arm = record { ulong = 2 ^ 32; do_div = λ n d. n / d }

-- A handle that waits for the end of its transfers, behind one work item.
abbrev subscriber : Handle
subscriber = record waiting { event_enable_mask = 8 }

do_dma_start_xfer-delivered_example :
    let r =
      do_dma_start_xfer kernel_answers false 9 4 100 7 engine no_buffer small_transfer
        Direction.down_stream in
    (ticket : ℕ) × (call : Xfer) × (r.result ≡ ok ticket)
    × (r.xfers ≡ call ∷ [])
    × (call.len ≡ 64)
    × let raised = (dma_msi_handler arm r.ctl (r.ctl.ch call.chan).irq 200 201 zeroed).1 in
      let end =
        flush_workqueue answers
          (raise true raised (record one_waits { handles = subscriber ∷ [] })) in
      (end.works ≡ [])
      × ((h' : Handle) × (get_elem? end.handles 0 ≡ some h')
          × ((time : ℕ) × EndsWith h' (done ticket time 7)))
do_dma_start_xfer-delivered_example =
    do_dma_start_xfer-delivered answers kernel_answers 9 4 100 engine no_buffer small_transfer
      Direction.down_stream 0 arm 200 201 zeroed (record one_waits { handles = subscriber ∷ [] }) 0
      subscriber engine-IsReady (omega arith) first_bit refl (λ e. cc) refl
      (record { counted = refl; bounded = omega arith }) (omega arith) (omega arith) (λ n. refl)
