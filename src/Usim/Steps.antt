-- ===== src/Usim/Steps.antt =====
-- Every step of the senders and of the receiver keeps the reference counts right.
use bifrost_module.Base.{
  ==_iff, ℕ, ◌+◌, ◌-◌, ◌%◌, ◌^◌, ◌≡◌, refl, sym, ◌∙◌, ap, true, false, Option, none, some, List, [],
  ◌∷◌, ◌++◌, ◌==◌, if◌then◌else◌, Bool-cases, inl, inr, ◌⊎◌, arith, Result, eio,
}
use bifrost_module.Usim.{
  State, Event, Usim, with_event, put_event, get_event, complete_event, remove, has_state,
  alloc_event, alloc_i2c_event, post_event, wait_event_completion, first_ready, taken,
  get_1st_ready_event, complete_orphans, i2c_usim_release,
}
use bifrost_module.Usim.Refs.{
  Counted, IsValid, occurs, on_event, heap-with_event, heap-put_event, list-with_event,
  list-put_event, IsValid-of_heap, complete_event-IsValid,
}

-- What the search finds: nothing, if no event of the list is ready, or the first that is.
pub data First (heap : ℕ → Option Event) (l : List ℕ) : Option ℕ → Type 0 where
  nobody : ((a : ℕ) → occurs a l ≡ 0 ⊎ (has_state State.ready (heap a) ≡ false)) → First heap l none
  first :
      (before after : List ℕ) (a : ℕ)
      → l ≡ before ++ a ∷ after
      → has_state State.ready (heap a) ≡ true
      → ((b : ℕ) → occurs b before ≡ 0 ⊎ (has_state State.ready (heap b) ≡ false))
      → First heap l (some a)

pub first_ready-First : (heap : ℕ → Option Event) (l : List ℕ) → First heap l (first_ready heap l)
unfolding first_ready
first_ready-First heap [] = nobody (λ a. inl refl)
first_ready-First heap (x ∷ xs) = elim (Bool-cases (has_state State.ready (heap x))) [
  | inl hit ↦ rw hit (first [] xs x refl hit (λ b. inl refl))
  | inr miss ↦ rw miss (later miss (first_ready heap xs) (first_ready-First heap xs))
]
  where
    skip :
        (b : ℕ) (ys : List ℕ)
        → has_state State.ready (heap x) ≡ false
        → occurs b ys ≡ 0 ⊎ (has_state State.ready (heap b) ≡ false)
        → occurs b (x ∷ ys) ≡ 0 ⊎ (has_state State.ready (heap b) ≡ false)
    skip b ys miss (inr r) = inr r
    skip b ys miss (inl r) = elim (Bool-cases (x == b)) [
      | inl same ↦ inr (ap (λ y. has_state State.ready (heap y)) (sym ((==_iff x b).0 same)) ∙ miss)
      | inr other ↦ inl (ground (arith, r))
    ]

    later :
        has_state State.ready (heap x) ≡ false
        → (r : Option ℕ) → First heap xs r
        → First heap (x ∷ xs) r
    later miss none (nobody h) = nobody (λ a. skip a xs miss (h a))
    later miss (some k) (first before after a e hit h) =
        first (x ∷ before) after k (ap (λ l. x ∷ l) e) hit (λ b. skip b before miss (h b))

-- The fields that a sender gives to an event, the bytes that it copies to it, and how it is posted.
abbrev named : (type bus addr len : ℕ) → Event → Event
named type bus addr len e = record e { type = type; bus = bus; addr = addr; len = len }

abbrev loaded : ((ℕ → ℕ) → ℕ → ℕ) → Event → Event
loaded copy e = record e { data_area = copy e.data_area }

abbrev posted : Event → Event
posted e = record e { state = State.ready }

abbrev pub sent : Usim → (a type bus addr len : ℕ) → ((ℕ → ℕ) → ℕ → ℕ) → Usim
sent s a type bus addr len copy =
    post_event (with_event (loaded copy) (alloc_i2c_event (some a) type bus addr len s).0 a) a

occurs-append : (b a : ℕ) (l : List ℕ) → occurs b (l ++ a ∷ []) ≡ occurs b l + occurs b (a ∷ [])
occurs-append b a [] = omega arith
occurs-append b a (x ∷ xs) = ground (arith, occurs-append b a xs)

occurs-remove :
    (b a : ℕ) (l : List ℕ) → occurs b (remove a l) ≡ occurs b l - (if a == b then 1 else 0)
unfolding remove
occurs-remove b a [] = ground arith
occurs-remove b a (x ∷ xs) = ground (arith, occurs-remove b a xs)

pub list-sent :
    (s : Usim) (a type bus addr len : ℕ) (copy : (ℕ → ℕ) → ℕ → ℕ)
    → (sent s a type bus addr len copy).list ≡ s.list ++ a ∷ []
unfolding post_event alloc_event alloc_i2c_event
list-sent s a type bus addr len copy =
    let s0 = (alloc_event (some a) s).0 in
    let s1 = with_event (named type bus addr len) s0 a in
    ground (
      arith,
      list-with_event posted (with_event (loaded copy) s1 a) a,
      list-with_event (loaded copy) s1 a,
      list-with_event (named type bus addr len) s0 a,
    )

-- The event that a sender posts.
abbrev pub new_event : (ticket type bus addr len : ℕ) (bytes : ℕ → ℕ) → Event
new_event ticket type bus addr len bytes = record {
  refcnt = 1;
  ticket = ticket;
  status = 0;
  state = State.ready;
  type = type;
  bus = bus;
  addr = addr;
  len = len;
  data_area = bytes;
}

pub heap-sent :
    (s : Usim) (a type bus addr len : ℕ) (copy : (ℕ → ℕ) → ℕ → ℕ) (b : ℕ)
    → (sent s a type bus addr len copy).heap b ≡ (
        if a == b
        then some (new_event ((s.tickets + 1) % 2 ^ 32) type bus addr len (copy (λ _. 0)))
        else s.heap b)
unfolding post_event alloc_event alloc_i2c_event
heap-sent s a type bus addr len copy b =
    let s0 = (alloc_event (some a) s).0 in
    let s1 = with_event (named type bus addr len) s0 a in
    ground (
      arith,
      heap-with_event posted (with_event (loaded copy) s1 a) a b,
      heap-with_event (loaded copy) s1 a b,
      heap-with_event (named type bus addr len) s0 a b,
    )

pub sent-IsValid :
    (s : Usim) (a type bus addr len : ℕ) (copy : (ℕ → ℕ) → ℕ → ℕ)
    → IsValid s
    → s.heap a ≡ none
    → IsValid (sent s a type bus addr len copy)
sent-IsValid s a type bus addr len copy v free = record {
  once = λ b. ground (
    arith,
    list-sent s a type bus addr len copy,
    occurs-append b a s.list,
    v.once b,
    v.counted b,
    free,
  );
  counted = λ b i. ground (
    arith,
    list-sent s a type bus addr len copy,
    heap-sent s a type bus addr len copy b,
    occurs-append b a s.list,
    v.once b,
    v.counted b,
  );
}

pub leave-IsValid :
    (s : Usim) (a : ℕ) (r : Result ℕ)
    → IsValid s
    → occurs a s.list ≡ 1
    → IsValid (put_event (wait_event_completion s a r).0 a)
unfolding wait_event_completion
leave-IsValid s a r v mine = record {
  once = λ b.
      ground (
        arith,
        list-put_event (wait_event_completion s a r).0 a,
        occurs-remove b a s.list,
        v.once b,
      );
  counted = λ b i. ground (
    arith,
    list-put_event (wait_event_completion s a r).0 a,
    heap-put_event (wait_event_completion s a r).0 a b,
    occurs-remove b a s.list,
    v.counted b,
    v.once b,
    mine,
  );
}

abbrev pub begun : Event → Event
begun e = record e { state = State.in_progress }

abbrev pub one_more : Event → Event
one_more e = record e { refcnt = (e.refcnt + 1) % 2 ^ 32 }

-- What the search that takes an event does to each event.
abbrev pub start : Event → Event
start e = record e { refcnt = (e.refcnt + 1) % 2 ^ 32; state = State.in_progress }

pub heap-get :
    (s : Usim) (a b : ℕ)
    → (get_event (with_event (λ e. record e { state = State.in_progress }) s a) a).heap b
      ≡ (if a == b then on_event start (s.heap b) else s.heap b)
unfolding get_event
heap-get s a b =
    ground (arith, heap-with_event one_more (with_event begun s a) a b, heap-with_event begun s a b)

pub First-ready :
    {heap : ℕ → Option Event} {l : List ℕ} {a : ℕ}
    → First heap l (some a)
    → has_state State.ready (heap a) ≡ true
First-ready (first before after a e hit h) = hit

Counted-get :
    (s : Usim) (a : ℕ)
    → has_state State.ready (s.heap a) ≡ true
    → (b : ℕ) → Counted (s.heap b)
    → Counted ((get_event (with_event begun s a) a).heap b)
unfolding has_state
Counted-get s a waits b c = elim (Bool-cases (a == b)) [
  | inl same ↦ ground (arith, heap-get s a b, (==_iff a b).0 same, waits, c)
  | inr other ↦ rw (heap-get s a b, other) c
]

pub get-IsValid : (s : Usim) → IsValid s → IsValid (get_1st_ready_event s).0
unfolding get_1st_ready_event get_event
get-IsValid s v =
    elim (first_ready s.heap s.list) as (λ r. First s.heap s.list r → IsValid (taken s r).0) [
      | none ↦ λ f. v
      | some a ↦ λ f.
          IsValid-of_heap v
            (list-with_event one_more (with_event begun s a) a ∙ list-with_event begun s a)
            (Counted-get s a (First-ready f))
    ]
      (first_ready-First s.heap s.list)

complete_orphans-IsValid : (l : List ℕ) (s : Usim) → IsValid s → IsValid (complete_orphans l s)
unfolding complete_orphans
complete_orphans-IsValid [] s v = v
complete_orphans-IsValid (a ∷ rest) s v =
    elim (Bool-cases (has_state State.in_progress (s.heap a))) [
      | inl busy ↦ rw busy (
          complete_orphans-IsValid rest (complete_event s a eio)
            (complete_event-IsValid s a eio busy v))
      | inr not_busy ↦ rw not_busy (complete_orphans-IsValid rest s v)
    ]

pub release-IsValid : (s : Usim) → IsValid s → IsValid (i2c_usim_release s)
unfolding i2c_usim_release
release-IsValid s v = IsValid-of_heap (complete_orphans-IsValid s.list s v) refl (λ b c. c)
