-- ===== src/Events/Tests.antt =====
-- Event queues run on small inputs, and their theorems there.
use bifrost_module.Base.{◌≡◌, refl, ◌+◌, ◌++◌, some, List, [], ◌∷◌, get_elem?, arith, true}
use bifrost_module.Events.{irq, dma, Event, Handle, create_event}
use bifrost_module.Events.Queue.{IsValid, put, get, run, run-fifo}
use bifrost_module.Base.{All}
use bifrost_module.Events.Delivery
use bifrost_module.Events.Delivery.{
  Call, opens, releases, events, dequeues, enables, forwards, run-All, Wants, create_event_delivers,
  create_event_keeps,
}

-- Interrupt source 4.
abbrev frame_event : Event
frame_event = record { type = 1; payload = irq 4 0 0 0; received = 0; forwarded = 0 }

abbrev done_event : Event
done_event = record { type = 8; payload = dma 1 50 200; received = 0; forwarded = 0 }

-- Takes interrupts 1, 2 and 4, and the ends of its own transfers.
abbrev reader : Handle
reader = record {
  addr = 100;
  event_enable_mask = 9;
  irq_forwarding_mask = 7;
  event_list = [];
  event_list_count = 0;
}

reader-IsValid : IsValid reader
reader-IsValid = omega arith

run-fifo_example :
    IsValid (run reader (put frame_event ∷ put done_event ∷ get ∷ [])).handle
    × ((run reader (put frame_event ∷ put done_event ∷ get ∷ [])).given
          ++ (run reader (put frame_event ∷ put done_event ∷ get ∷ [])).handle.event_list
        ≡ [] ++ (run reader (put frame_event ∷ put done_event ∷ get ∷ [])).taken)
run-fifo_example = run-fifo reader (put frame_event ∷ put done_event ∷ get ∷ []) reader-IsValid

Wants-frame : Wants reader frame_event
Wants-frame = record {
  enabled = λ z. omega arith;
  forwarded = λ t z. omega arith;
  own = λ t. absurd (omega arith);
}

create_event_delivers_example :
    get_elem? (create_event (λ a. true) 5 (reader ∷ []) frame_event).0 0
    ≡ some (record reader {
      event_list = record frame_event { received = 5 } ∷ [];
      event_list_count = 0 + 1;
    })
create_event_delivers_example =
    create_event_delivers (λ a. true) 5 frame_event (reader ∷ []) 0 refl reader-IsValid Wants-frame
      refl (omega arith)

abbrev session : List Call
session =
    opens true 100
    ∷ enables 100 9
    ∷ forwards 100 7
    ∷ events (λ a. true) 5 frame_event
    ∷ dequeues 100
    ∷ releases 100
    ∷ []

run-All_example : All IsValid (Delivery.run [] session)
run-All_example = run-All session
