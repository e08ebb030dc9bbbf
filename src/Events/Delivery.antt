-- ===== src/Events/Delivery.antt =====
-- Which handles receive an event: `bifrost_create_event` against the subscription rules, and the
-- invariant of all handles over any sequence of file operations and events.
use bifrost_module.Base.{
  ℕ, zero, suc, ◌+◌, ◌<◌, ◌≡◌, refl, ap, ◌∙◌, ◌≢◌, Bool, true, false, some, List, [], ◌∷◌, ◌++◌,
  ◌⊎◌, inl, inr, length, get_elem?, All, bit_and, arith, ◌==◌, if◌then◌else◌, Bool-cases,
}
use bifrost_module.Events.{
  Event, Handle, type_irq, type_dma_done, irq_source, dma_cookie, event_buffer_size, open_handle,
  release_handle, dequeue_event, enqueue_event, enqueue_on_this_handle, offer, offer_all,
  create_event,
}
use bifrost_module.Events.Queue.{IsValid, enqueue_event-IsValid, dequeue_event-IsValid}

-- A handle subscribes to an event if its mask has the event's type, and, for an interrupt, if it
-- forwards the source, and, for the end of a transfer, if the transfer is its own.
pub record Wants (h : Handle) (e : Event) : Type 0 where
  pub enabled : bit_and e.type h.event_enable_mask ≢ 0
  pub forwarded : e.type ≡ type_irq → bit_and h.irq_forwarding_mask (irq_source e.payload) ≢ 0
  pub own : e.type ≡ type_dma_done → h.addr ≡ dma_cookie e.payload

enqueue_on_this_handle_of_Wants :
    (h : Handle) (e : Event) → Wants h e → enqueue_on_this_handle h e ≡ true
unfolding enqueue_on_this_handle
enqueue_on_this_handle_of_Wants h e w = ground arith

Wants-of_enqueue_on_this_handle :
    (h : Handle) (e : Event) → enqueue_on_this_handle h e ≡ true → Wants h e
unfolding enqueue_on_this_handle
Wants-of_enqueue_on_this_handle h e w = record {
  enabled = λ z. ground arith;
  forwarded = λ t z. ground arith;
  own = λ t. ground arith;
}

pub Wants-cases : (h : Handle) (e : Event) → Wants h e ⊎ (¬ Wants h e)
Wants-cases h e = elim (Bool-cases (enqueue_on_this_handle h e)) [
  | inl w ↦ inl (Wants-of_enqueue_on_this_handle h e w)
  | inr w ↦ inr (λ wants. absurd (ground (arith, w, enqueue_on_this_handle_of_Wants h e wants)))
]

get_elem?-offer_all :
    (memory : ℕ → Bool) (e : Event) (hs : List Handle) (i : ℕ) {h : Handle}
    → get_elem? hs i ≡ some h
    → get_elem? (offer_all memory e hs).0 i ≡ some (offer (memory h.addr) e h).0
unfolding offer_all
get_elem?-offer_all memory e [] i q = cc
get_elem?-offer_all memory e (x ∷ hs) zero q = ground arith
get_elem?-offer_all memory e (x ∷ hs) (suc i) q = get_elem?-offer_all memory e hs i q

offer_room :
    (h : Handle) (e : Event)
    → IsValid h
    → enqueue_on_this_handle h e ≡ true
    → length h.event_list < event_buffer_size
    → (offer true e h).0
      ≡ record h { event_list = h.event_list ++ e ∷ []; event_list_count = h.event_list_count + 1 }
unfolding offer enqueue_event
offer_room h e v w room = rw w (ground arith)

offer_not_wanted :
    (memory : Bool) (h : Handle) (e : Event)
    → enqueue_on_this_handle h e ≡ false
    → (offer memory e h).0 ≡ h
unfolding offer
offer_not_wanted memory h e w = rw w refl

offer_no_memory : (h : Handle) (e : Event) → (offer false e h).0 ≡ h
unfolding offer
offer_no_memory h e = elim (Bool-cases (enqueue_on_this_handle h e)) [
  | inl w ↦ rw w refl
  | inr w ↦ rw w refl
]

offer_full :
    (memory : Bool) (h : Handle) (e : Event)
    → IsValid h
    → length h.event_list ≡ event_buffer_size
    → (offer memory e h).0 ≡ h
unfolding offer enqueue_event
offer_full false h e v full = offer_no_memory h e
offer_full true h e v full = elim (Bool-cases (enqueue_on_this_handle h e)) [
  | inl w ↦ rw w (ground arith)
  | inr w ↦ rw w refl
]

offer_keeps :
    (memory : Bool) (h : Handle) (e : Event)
    → IsValid h
    → (¬ Wants h e) ⊎ ((memory ≡ false) ⊎ (length h.event_list ≡ event_buffer_size))
    → (offer memory e h).0 ≡ h
offer_keeps memory h e v (inl unwanted) = elim (Bool-cases (enqueue_on_this_handle h e)) [
  | inl w ↦ absurd (unwanted (Wants-of_enqueue_on_this_handle h e w))
  | inr w ↦ offer_not_wanted memory h e w
]
offer_keeps memory h e v (inr (inl none_left)) = rw none_left (offer_no_memory h e)
offer_keeps memory h e v (inr (inr full)) = offer_full memory h e v full

-- A valid handle that subscribes to the event, and for which a copy can be allocated and its queue has
-- room, gets the event, stamped with its arrival, at the end of its queue, whatever the other
-- handles do; its masks stay.
pub create_event_delivers :
    (memory : ℕ → Bool) (now : ℕ) (e : Event) (hs : List Handle) (i : ℕ) {h : Handle}
    → get_elem? hs i ≡ some h
    → IsValid h
    → Wants h e
    → memory h.addr ≡ true
    → length h.event_list < event_buffer_size
    → get_elem? (create_event memory now hs e).0 i
      ≡ some (record h {
        event_list = h.event_list ++ record e { received = now } ∷ [];
        event_list_count = h.event_list_count + 1;
      })
unfolding create_event
create_event_delivers memory now e hs i {h} q v w m room =
    let stamped : Event = record e { received = now } in
    let wanted : enqueue_on_this_handle h stamped ≡ true =
      enqueue_on_this_handle_of_Wants h stamped
        (record { enabled = w.enabled; forwarded = w.forwarded; own = w.own }) in
    get_elem?-offer_all memory stamped hs i q ∙ ap some (rw m (offer_room h stamped v wanted room))

-- A valid handle that does not subscribe to the event, or has no memory for a copy, or has 20 events
-- waiting, is left exactly as it was.
pub create_event_keeps :
    (memory : ℕ → Bool) (now : ℕ) (e : Event) (hs : List Handle) (i : ℕ) {h : Handle}
    → get_elem? hs i ≡ some h
    → IsValid h
    → (¬ Wants h e) ⊎ ((memory h.addr ≡ false) ⊎ (length h.event_list ≡ event_buffer_size))
    → get_elem? (create_event memory now hs e).0 i ≡ some h
unfolding create_event
create_event_keeps memory now e hs i {h} q v why =
    let stamped : Event = record e { received = now } in
    get_elem?-offer_all memory stamped hs i q
    ∙ ap some (offer_keeps (memory h.addr) h stamped v (same_reason why))
  where
    same_reason :
        (¬ Wants h e) ⊎ ((memory h.addr ≡ false) ⊎ (length h.event_list ≡ event_buffer_size))
        → (¬ Wants h (record e { received = now }))
          ⊎ ((memory h.addr ≡ false) ⊎ (length h.event_list ≡ event_buffer_size))
    same_reason (inl n) =
        inl (λ w. n (record { enabled = w.enabled; forwarded = w.forwarded; own = w.own }))
    same_reason (inr r) = inr r

-- The file operations and the events that act on the handles.
pub data Call : Type 0 where
  opens : (memory : Bool) (addr : ℕ) → Call
  releases : (addr : ℕ) → Call
  events : (memory : ℕ → Bool) (now : ℕ) (e : Event) → Call
  dequeues : (addr : ℕ) → Call
  enables : (addr mask : ℕ) → Call
  forwards : (addr mask : ℕ) → Call

-- An operation through the handle at one address.
abbrev pub on_handle : (Handle → Handle) → ℕ → List Handle → List Handle
on_handle f addr [] = []
on_handle f addr (h ∷ hs) = if h.addr == addr then f h ∷ hs else h ∷ on_handle f addr hs

abbrev pub step : List Handle → Call → List Handle
step hs (opens memory addr) = (open_handle memory addr hs).0
step hs (releases addr) = release_handle addr hs
step hs (events memory now e) = (create_event memory now hs e).0
step hs (dequeues addr) = on_handle (λ h. (dequeue_event h).0) addr hs
step hs (enables addr mask) = on_handle (λ h. record h { event_enable_mask = mask }) addr hs
step hs (forwards addr mask) = on_handle (λ h. record h { irq_forwarding_mask = mask }) addr hs

abbrev pub run : List Handle → List Call → List Handle
run hs [] = hs
run hs (c ∷ cs) = run (step hs c) cs

on_handle-All :
    (f : Handle → Handle) (addr : ℕ) (hs : List Handle)
    → ((h : Handle) → IsValid h → IsValid (f h))
    → All IsValid hs
    → All IsValid (on_handle f addr hs)
on_handle-All f addr [] keep v = tt
on_handle-All f addr (h ∷ hs) keep v = elim (Bool-cases (h.addr == addr)) [
  | inl here ↦ rw here (keep h v.0, v.1)
  | inr other ↦ rw other (v.0, on_handle-All f addr hs keep v.1)
]

release_handle-All :
    (addr : ℕ) (hs : List Handle) → All IsValid hs → All IsValid (release_handle addr hs)
unfolding release_handle
release_handle-All addr [] v = tt
release_handle-All addr (h ∷ hs) v = elim (Bool-cases (h.addr == addr)) [
  | inl here ↦ rw here v.1
  | inr other ↦ rw other (v.0, release_handle-All addr hs v.1)
]

offer-IsValid : (memory : Bool) (e : Event) (h : Handle) → IsValid h → IsValid (offer memory e h).0
unfolding offer
offer-IsValid false e h v = elim (Bool-cases (enqueue_on_this_handle h e)) [
  | inl wanted ↦ rw wanted v
  | inr not_wanted ↦ rw not_wanted v
]
offer-IsValid true e h v = elim (Bool-cases (enqueue_on_this_handle h e)) [
  | inl wanted ↦ rw wanted (enqueue_event-IsValid e v)
  | inr not_wanted ↦ rw not_wanted v
]

offer_all-All :
    (memory : ℕ → Bool) (e : Event) (hs : List Handle)
    → All IsValid hs
    → All IsValid (offer_all memory e hs).0
unfolding offer_all
offer_all-All memory e [] v = tt
offer_all-All memory e (h ∷ hs) v =
    (offer-IsValid (memory h.addr) e h v.0, offer_all-All memory e hs v.1)

step-All : (hs : List Handle) (c : Call) → All IsValid hs → All IsValid (step hs c)
unfolding open_handle create_event
step-All hs (opens false addr) v = v
step-All hs (opens true addr) v = (omega arith, v)
step-All hs (releases addr) v = release_handle-All addr hs v
step-All hs (events memory now e) v = offer_all-All memory (record e { received = now }) hs v
step-All hs (dequeues addr) v = on_handle-All _ addr hs (λ h w. dequeue_event-IsValid w) v
step-All hs (enables addr mask) v = on_handle-All _ addr hs (λ h w. omega arith) v
step-All hs (forwards addr mask) v = on_handle-All _ addr hs (λ h w. omega arith) v

-- From the state with no handle open, after any sequence of opens, closes, events, dequeues and
-- mask changes, every handle counts its events correctly and holds at most 20 of them.
pub run-All : (cs : List Call) → All IsValid (run [] cs)
run-All cs = from [] cs tt
  where
    from : (hs : List Handle) (cs : List Call) → All IsValid hs → All IsValid (run hs cs)
    from hs [] v = v
    from hs (c ∷ cs) v = from (step hs c) cs (step-All hs c v)
