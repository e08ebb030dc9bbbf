-- ===== src/Work/Delivered.antt =====
-- An interrupt of the FPGA reaches the users that wait for it: the handler of bifrost/bifrost_pci.c, the
-- work queue of bifrost/bifrost_main.c and the delivery of bifrost/bifrost_cdev.c together.
use bifrost_module.Base.{
  ℕ, suc, ◌+◌, ◌<◌, ◌≤◌, ◌≡◌, ◌≢◌, refl, ◌∙◌, Bool, true, Option, none, some, List, [], ◌∷◌, ◌++◌,
  length, length-append, get_elem?, bit_and, arith, inl, inr,
}
use bifrost_module.Events.{Event, Handle, type_irq, event_buffer_size, create_event}
use bifrost_module.Events.Queue.{IsValid}
use bifrost_module.Events.Delivery.{Wants, create_event_delivers, create_event_keeps, Wants-cases}
use bifrost_module.Pci.{Rest, default_msi_handler, default_msi_event, map_msi_to_event}
use bifrost_module.Work.Schedule.{flush-works}
use bifrost_module.Work.{
  Queue, Answer, create_event_in_atomic, work_create_event, flush, flush_workqueue,
}

-- The handler raises its event, if it has one.
pub raise : (memory : Bool) → Option Event → Queue → Queue
raise memory none s = s
raise memory (some e) s = create_event_in_atomic memory e s

-- The queue ends with an event, stamped with some time of arrival.
pub record EndsWith (h : Handle) (e : Event) : Type 0 where
  pub earlier : List Event
  pub now : ℕ
  pub ends : h.event_list ≡ earlier ++ record e { received = now } ∷ []

-- The same subscription, at the same address, with room for `n` events.
record IsReady (old new : Handle) (n : ℕ) : Type 0 where
  valid : IsValid new
  addr : new.addr ≡ old.addr
  enabled : new.event_enable_mask ≡ old.event_enable_mask
  forwarded : new.irq_forwarding_mask ≡ old.irq_forwarding_mask
  room : length new.event_list + n ≤ event_buffer_size

-- Any event leaves a handle ready for one event less.
create_event-Ready :
    (a : Answer) (e : Event) (hs : List Handle) (i n : ℕ) (old h : Handle)
    → get_elem? hs i ≡ some h
    → IsReady old h (suc n)
    → a.memory old.addr ≡ true
    → (h' : Handle) × (get_elem? (create_event a.memory a.now hs e).0 i ≡ some h')
      × IsReady old h' n
create_event-Ready a e hs i n old h at ready memory = elim (Wants-cases h e) [
  | inl wants ↦ (
    record h {
      event_list = h.event_list ++ record e { received = a.now } ∷ [];
      event_list_count = h.event_list_count + 1;
    },
    create_event_delivers a.memory a.now e hs i at ready.valid wants (rw (ready.addr) memory)
        (omega (arith, ready.room)),
    record {
      valid = record {
        counted = ground (
          arith,
          length-append h.event_list (record e { received = a.now } ∷ []),
          ready.valid.counted,
        );
        bounded =
            ground
              (arith, length-append h.event_list (record e { received = a.now } ∷ []), ready.room);
      };
      addr = ready.addr;
      enabled = ready.enabled;
      forwarded = ready.forwarded;
      room =
          ground
            (arith, length-append h.event_list (record e { received = a.now } ∷ []), ready.room);
    },
  )
  | inr not_wanted ↦ (
    h,
    create_event_keeps a.memory a.now e hs i at ready.valid (inl not_wanted),
    record {
      valid = ready.valid;
      addr = ready.addr;
      enabled = ready.enabled;
      forwarded = ready.forwarded;
      room = omega (arith, ready.room);
    },
  )
]

-- The same subscription wants the same events.
Ready-Wants : (old h : Handle) (e : Event) (n : ℕ) → IsReady old h n → Wants old e → Wants h e
Ready-Wants old h e n ready w = record {
  enabled = rw (ready.enabled) w.enabled;
  forwarded = λ t. rw (ready.forwarded) (w.forwarded t);
  own = λ t. ready.addr ∙ w.own t;
}

module _ (answers : ℕ → Answer) where
  -- What waits is delivered, and then the event.
  flush-EndsWith :
      (es : List Event) (e : Event) (s : Queue) (i : ℕ) (old h : Handle)
      → get_elem? s.handles i ≡ some h
      → IsReady old h (suc (length es))
      → Wants old e
      → ((k : ℕ) → (answers k).memory old.addr ≡ true)
      → (h' : Handle) × (get_elem? (flush answers (es ++ e ∷ []) s).handles i ≡ some h')
        × EndsWith h' e
  unfolding flush work_create_event
  flush-EndsWith [] e s i old h at ready w memory = (
    _,
    create_event_delivers (answers s.delivered).memory (answers s.delivered).now e s.handles i at
        ready.valid (Ready-Wants old h e 1 ready w) (rw (ready.addr) (memory s.delivered))
        (omega (arith, ready.room)),
    record { earlier = h.event_list; now = (answers s.delivered).now; ends = refl },
  )
  flush-EndsWith (x ∷ es) e s i old h at ready w memory =
      let (h', at', ready') =
        create_event-Ready (answers s.delivered) x s.handles i (suc (length es)) old h at ready
          (memory s.delivered) in
      flush-EndsWith es e (work_create_event answers x (es ++ e ∷ []) s) i old h' at' ready' w
        memory

  -- An event that an interrupt raises reaches a handle that wants it.
  pub raise-EndsWith :
      (e : Event) (s : Queue) (i : ℕ) (h : Handle)
      → get_elem? s.handles i ≡ some h
      → IsValid h
      → Wants h e
      → length h.event_list + length s.works < event_buffer_size
      → ((k : ℕ) → (answers k).memory h.addr ≡ true)
      → ((flush_workqueue answers (raise true (some e) s)).works ≡ [])
        × ((h' : Handle) × (get_elem? (flush_workqueue answers (raise true (some e) s)).handles i
              ≡ some h')
            × EndsWith h' e)
  unfolding raise create_event_in_atomic flush_workqueue
  raise-EndsWith e s i h at v wants room memory =
      let s' : Queue = record s { works = s.works ++ e ∷ [] } in
      (
        flush-works answers s'.works s' refl,
        flush-EndsWith s.works e s' i h h at
            (record {
              valid = v;
              addr = refl;
              enabled = refl;
              forwarded = refl;
              room = omega (arith, room);
            })
            wants memory,
      )

  -- An MSI of the device, for which there is a work item: after the work queue is flushed it is empty,
  -- and a valid handle that forwards the source of the vector has the event as the last of its
  -- queue, if the queue had room for it and for the events that waited, and there is memory for the
  -- copies for this handle.
  pub default_msi_handler-delivered :
      (rest : Rest) (vec : ℕ) (s : Queue) (i : ℕ) (h : Handle)
      → get_elem? s.handles i ≡ some h
      → IsValid h
      → bit_and type_irq h.event_enable_mask ≢ 0
      → bit_and h.irq_forwarding_mask (map_msi_to_event vec) ≢ 0
      → length h.event_list + length s.works < event_buffer_size
      → ((k : ℕ) → (answers k).memory h.addr ≡ true)
      → ((flush_workqueue answers (raise true (default_msi_handler true rest vec) s)).works ≡ [])
        × ((h' : Handle) × (get_elem?
                (flush_workqueue answers (raise true (default_msi_handler true rest vec) s)).handles
                i
              ≡ some h')
            × EndsWith h' (default_msi_event rest vec))
  unfolding default_msi_handler default_msi_event
  default_msi_handler-delivered rest vec s i h at v enabled forwarded room memory =
      raise-EndsWith (default_msi_event rest vec) s i h at v
        (record {
          enabled = enabled;
          forwarded = λ t. forwarded;
          own = λ t. absurd (omega (arith, t));
        })
        room memory
