-- ===== src/Events.antt =====
-- User handles and their event queues: the file operations open, release and poll, and the
-- delivery of events, of bifrost/bifrost_cdev.c. The spin locks are the atomicity of a function.
pub mod Queue
pub mod Delivery
mod Tests
use bifrost_module.Base.{
  ℕ, ◌+◌, ◌-◌, ◌%◌, ◌^◌, Bool, true, false, not, Option, none, some, List, [], ◌∷◌, ◌++◌, leb, ◌==◌,
  if◌then◌else◌, bit_and, Result, ok, err, enomem, enospc,
}

abbrev pub event_buffer_size : ℕ
event_buffer_size = 20

abbrev pub type_irq : ℕ
type_irq = 1

abbrev pub type_dma_done : ℕ
type_dma_done = 8

-- The union `data` of `struct bifrost_event`: the views irq_source, irqstatus and frame, which share
-- their first two words (`value` is also the frame's number), and the view dma. All four begin with
-- one word, the source of the interrupt or the id of the transfer.
pub data Payload : Type 0 where
  irq : (source value frame_size frame_time : ℕ) → Payload
  dma : (id time cookie : ℕ) → Payload

abbrev pub irq_source : Payload → ℕ
irq_source (irq source value frame_size frame_time) = source
irq_source (dma id time cookie) = id

-- Read for events of type DMA_DONE only, which carry the view dma; 0 stands for no handle.
abbrev pub dma_cookie : Payload → ℕ
dma_cookie (irq source value frame_size frame_time) = 0
dma_cookie (dma id time cookie) = cookie

pub record Event : Type 0 where
  pub type : ℕ
  pub payload : Payload
  pub received : ℕ
  pub forwarded : ℕ

-- `struct bifrost_user_handle`; `addr` is its address, which is the cookie of its DMA transfers.
pub record Handle : Type 0 where
  pub addr : ℕ
  pub event_enable_mask : ℕ
  pub irq_forwarding_mask : ℕ
  pub event_list : List Event
  pub event_list_count : ℕ

-- `memory` says whether `kzalloc` gives memory, which then is at `addr`.
pub open_handle : (memory : Bool) (addr : ℕ) → List Handle → List Handle × Result ℕ
open_handle false addr handles = (handles, err enomem)
open_handle true addr handles = (
  record {
    addr = addr;
    event_enable_mask = 0;
    irq_forwarding_mask = 0;
    event_list = [];
    event_list_count = 0;
  }
      ∷ handles,
  ok 0,
)

-- `list_del` of the handle at `addr`; its events are freed with it.
pub release_handle : ℕ → List Handle → List Handle
release_handle addr [] = []
release_handle addr (h ∷ hs) = if h.addr == addr then hs else h ∷ release_handle addr hs

-- POLLIN | POLLRDNORM
abbrev pub poll_readable : ℕ
poll_readable = 0x41

pub poll : Handle → ℕ
poll h = elim h.event_list [ [] ↦ 0 | e ∷ es ↦ poll_readable ]

unfoldable pub dequeue_event : Handle → Handle × Option Event
dequeue_event h = elim h.event_list [
  | [] ↦ (h, none)
  | e ∷ es ↦ (
    record h { event_list = es; event_list_count = (h.event_list_count + 2 ^ 32 - 1) % 2 ^ 32 },
    some e,
  )
]

pub enqueue_event : Handle → Event → Handle × Result ℕ
enqueue_event h e = if leb event_buffer_size h.event_list_count then (h, err enospc) else (
  record h {
    event_list = h.event_list ++ e ∷ [];
    event_list_count = (h.event_list_count + 1) % 2 ^ 32;
  },
  ok 0,
)

pub enqueue_on_this_handle : Handle → Event → Bool
enqueue_on_this_handle h e =
    if bit_and e.type h.event_enable_mask == 0
    then false
    else (if e.type == type_irq
        then not (bit_and h.irq_forwarding_mask (irq_source e.payload) == 0)
        else (if e.type == type_dma_done then h.addr == dma_cookie e.payload else true))

pub duplicate_event : Bool → Event → Option Event
duplicate_event false e = none
duplicate_event true e = some e

-- The handle after the attempt, and the handles that were woken: also one whose queue was full.
pub queue_copy : Handle → Option Event → Handle × List ℕ
unfolding enqueue_event
queue_copy h none = (h, [])
queue_copy h (some e) = ((enqueue_event h e).0, h.addr ∷ [])

pub offer : Bool → Event → Handle → Handle × List ℕ
unfolding queue_copy duplicate_event
offer memory e h =
    if enqueue_on_this_handle h e then queue_copy h (duplicate_event memory e) else (h, [])

-- The loop over the handles. `memory a` says whether the copy for the handle at `a` can be allocated.
pub offer_all : (ℕ → Bool) → Event → List Handle → List Handle × List ℕ
offer_all memory e [] = ([], [])
offer_all memory e (h ∷ hs) =
    let (h', woken) = offer (memory h.addr) e h in
    let (hs', more) = offer_all memory e hs in (h' ∷ hs', woken ++ more)

pub create_event : (ℕ → Bool) → (now : ℕ) → List Handle → Event → List Handle × List ℕ
unfolding offer_all
create_event memory now handles e = offer_all memory (record e { received = now }) handles
