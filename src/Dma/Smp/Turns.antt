-- ===== src/Dma/Smp/Turns.antt =====
-- That the requests of bifrost/bifrost_dma.c get their channels in turn, on several processors.
use mathlib.Core.List.{append-nil, append_assoc}
use bifrost_module.Base.{
  ℕ, zero, suc, ◌+◌, ◌<◌, ◌≡◌, refl, sym, ap, ◌∙◌, Option, none, some, List, [], ◌∷◌, ◌++◌, arith,
  bit, Option-cases, inl, inr,
}
use bifrost_module.Dma.{
  Req, Ctl, Xfer, set_in_progress, kick_off_xfer, free_chan, find_1st_idle_chan, start_locked,
  next_locked, lookup_chan,
}
use bifrost_module.Dma.Channels.{Found, busy, got, find_1st_idle_chan-Found}
use bifrost_module.Dma.Invariant.{IsValid}
use bifrost_module.Dma.Smp.{
  State, Step, submits, ends, serves, kicks_off, pick, given_chan, ended_on, interrupted,
  served_chan, kicked_off, step, run, from, submitted,
}

-- What a request asks of the hardware: source, destination, length and direction.
abbrev pub Order : Type 0
Order = ℕ × ℕ × ℕ × ℕ

module _ (w : Order → ℕ) where
  abbrev pub called : List Xfer → ℕ
  called [] = 0
  called (x ∷ xs) = w (x.src, x.dst, x.len, x.dir) + called xs

  abbrev pub asked : List Req → ℕ
  asked [] = 0
  asked (r ∷ rs) = w (r.src, r.dst, r.len, r.dir) + asked rs

  abbrev pub to_kick : List (ℕ × Req) → ℕ
  to_kick [] = 0
  to_kick ((ch, r) ∷ ks) = w (r.src, r.dst, r.len, r.dir) + to_kick ks

  called-append : (xs ys : List Xfer) → called (xs ++ ys) ≡ called xs + called ys
  called-append [] ys = omega arith
  called-append (x ∷ xs) ys = omega (arith, called-append xs ys)

  asked-append_one : (rs : List Req) (r : Req) → asked (rs ++ r ∷ []) ≡ asked rs + asked (r ∷ [])
  asked-append_one [] r = omega arith
  asked-append_one (x ∷ rs) r = omega (arith, asked-append_one rs r)

  to_kick-append_one :
      (ks : List (ℕ × Req)) (k : ℕ × Req) → to_kick (ks ++ k ∷ []) ≡ to_kick ks + to_kick (k ∷ [])
  to_kick-append_one [] k = omega arith
  to_kick-append_one (x ∷ ks) k = omega (arith, to_kick-append_one ks k)

  to_kick-pick :
      (i : ℕ) (ks : List (ℕ × Req)) (k : ℕ × Req) (rest : List (ℕ × Req))
      → pick i ks ≡ some (k, rest)
      → to_kick ks ≡ to_kick (k ∷ []) + to_kick rest
  to_kick-pick i [] k rest e = absurd (ground (arith, e))
  to_kick-pick zero (x ∷ ks) k rest e = ground (arith, e)
  to_kick-pick (suc i) (x ∷ ks) k rest e = elim (Option-cases (pick i ks)) [
    | inl bad ↦ absurd (ground (arith, bad, e))
    | inr ((y, ys), good) ↦ ground (arith, e, good, to_kick-pick i ks y ys good)
  ]

  -- The calls made and those to come are those for the requests that have got a channel.
  abbrev pub Balanced : State → Type 0
  Balanced s = called s.xfers + to_kick s.kicks ≡ asked s.assigned

  given_chan-Balanced :
      (s : State) (o : Ctl × Option (ℕ × Req)) → Balanced s → Balanced (given_chan s o)
  unfolding given_chan
  given_chan-Balanced s (ctl, none) b = b
  given_chan-Balanced s (ctl, some (ch, req)) b =
      omega (arith, b, asked-append_one s.assigned req, to_kick-append_one s.kicks (ch, req))

  ended_on-Balanced :
      (s : State) (ch : ℕ) (o : Option Req) → Balanced s → Balanced (ended_on s ch o)
  unfolding ended_on
  ended_on-Balanced s ch none b = b
  ended_on-Balanced s ch (some req) b = b

  interrupted-Balanced : (s : State) (o : Option ℕ) → Balanced s → Balanced (interrupted s o)
  unfolding interrupted
  interrupted-Balanced s none b = b
  interrupted-Balanced s (some ch) b = ended_on-Balanced s ch (s.ctl.ch ch).in_progress b

  served_chan-Balanced :
      (s : State) (o : Option (ℕ × List ℕ)) → Balanced s → Balanced (served_chan s o)
  unfolding served_chan
  served_chan-Balanced s none b = b
  served_chan-Balanced s (some (ch, rest)) b =
      given_chan-Balanced (record s { released = rest }) (next_locked s.ctl.list s.ctl ch) b

  kicked_off-Balanced :
      (s : State) (now i : ℕ) → Balanced s → Balanced (kicked_off s now (pick i s.kicks))
  unfolding kicked_off kick_off_xfer
  kicked_off-Balanced s now i b = elim (Option-cases (pick i s.kicks)) [
    | inl bad ↦ rw bad b
    | inr (((ch, r), rest), good) ↦ rw good (
        omega (
          arith,
          b,
          to_kick-pick i s.kicks (ch, r) rest good,
          called-append s.xfers
              (record { chan = ch; src = r.src; dst = r.dst; len = r.len; dir = r.dir } ∷ []),
        ))
  ]

  step-Balanced : (s : State) (x : Step) → Balanced s → Balanced (step s x)
  unfolding step
  step-Balanced s (submits req) b =
      given_chan-Balanced s (start_locked (find_1st_idle_chan s.ctl) req) b
  step-Balanced s (ends irq) b = interrupted-Balanced s (lookup_chan s.ctl irq) b
  step-Balanced s (serves i) b = served_chan-Balanced s (pick i s.released) b
  step-Balanced s (kicks_off i now) b = kicked_off-Balanced s now i b

  run-Balanced : (s : State) (xs : List Step) → Balanced s → Balanced (run s xs)
  run-Balanced s [] b = b
  run-Balanced s (x ∷ xs) b = run-Balanced (step s x) xs (step-Balanced s x b)

-- Requests wait only while no channel is idle.
record IsFair (ctl : Ctl) : Type 0 where
  served : (i : ℕ) → i < 32 → bit ctl.idle_bitmap i ≡ 1 → ctl.list ≡ []

-- Requests that have got a channel, followed by those that wait.
abbrev all : State → List Req
all s = s.assigned ++ s.ctl.list

-- A step keeps the state fair, and adds the requests to the end.
record Adds (s s' : State) (more : List Req) : Type 0 where
  fair : IsFair s'.ctl
  turns : all s' ≡ all s ++ more

nothing-Adds : (s : State) → IsFair s.ctl → Adds s s []
nothing-Adds s f = record { fair = f; turns = sym (append-nil (all s)) }

start-Adds :
    (s : State) (req : Req) {f : Ctl × Option ℕ}
    → IsFair s.ctl
    → Found s.ctl f
    → Adds s (given_chan s (start_locked f req)) (req ∷ [])
unfolding given_chan set_in_progress
start-Adds s req fair (busy full) = record {
  fair = record { served = λ i lt hit. absurd (omega (arith, full i lt, hit)) };
  turns = sym (append_assoc s.assigned s.ctl.list (req ∷ []));
}
start-Adds s req fair (got ch lt hit lower) =
    let empty : s.ctl.list ≡ [] = fair.served ch lt hit in
    record {
      fair = record { served = λ i small set. empty };
      turns = rw empty (
          append-nil (s.assigned ++ req ∷ [])
          ∙ ap (λ l. l ++ req ∷ []) (sym (append-nil s.assigned)));
    }

next-Adds :
    (s : State) (l : List Req) (ch : ℕ) (rest : List ℕ)
    → IsFair s.ctl
    → s.ctl.list ≡ l
    → Adds s (given_chan (record s { released = rest }) (next_locked l s.ctl ch)) []
unfolding given_chan set_in_progress free_chan
next-Adds s [] ch rest fair e = record {
  fair = record { served = λ i small set. e };
  turns = sym (append-nil (all s));
}
next-Adds s (req ∷ waiting) ch rest fair e = record {
  fair = record { served = λ i small set. absurd (ground (arith, e, fair.served i small set)) };
  turns =
      append_assoc s.assigned (req ∷ []) waiting
      ∙ ap (λ l. s.assigned ++ l) (sym e)
      ∙ sym (append-nil (all s));
}

serves-Adds : (s : State) (o : Option (ℕ × List ℕ)) → IsFair s.ctl → Adds s (served_chan s o) []
unfolding served_chan
serves-Adds s none fair = nothing-Adds s fair
serves-Adds s (some (ch, rest)) fair = next-Adds s s.ctl.list ch rest fair refl

ended_on-Adds : (s : State) (ch : ℕ) (o : Option Req) → IsFair s.ctl → Adds s (ended_on s ch o) []
unfolding ended_on set_in_progress
ended_on-Adds s ch none fair = nothing-Adds s fair
ended_on-Adds s ch (some req) fair = record {
  fair = record { served = fair.served };
  turns = sym (append-nil (all s));
}

ends-Adds : (s : State) (o : Option ℕ) → IsFair s.ctl → Adds s (interrupted s o) []
unfolding interrupted
ends-Adds s none fair = nothing-Adds s fair
ends-Adds s (some ch) fair = ended_on-Adds s ch (s.ctl.ch ch).in_progress fair

kicks_off-Adds :
    (s : State) (now : ℕ) (o : Option ((ℕ × Req) × List (ℕ × Req)))
    → IsFair s.ctl
    → Adds s (kicked_off s now o) []
unfolding kicked_off kick_off_xfer set_in_progress
kicks_off-Adds s now none fair = nothing-Adds s fair
kicks_off-Adds s now (some ((ch, req), rest)) fair = record {
  fair = record { served = fair.served };
  turns = sym (append-nil (all s));
}

step-Adds : (s : State) (x : Step) → IsFair s.ctl → Adds s (step s x) (submitted (x ∷ []))
unfolding step
step-Adds s (submits req) fair = start-Adds s req fair (find_1st_idle_chan-Found s.ctl)
step-Adds s (ends irq) fair = ends-Adds s (lookup_chan s.ctl irq) fair
step-Adds s (serves i) fair = serves-Adds s (pick i s.released) fair
step-Adds s (kicks_off i now) fair = kicks_off-Adds s now (pick i s.kicks) fair

submitted-one :
    (x : Step) (xs : List Step) → submitted (x ∷ xs) ≡ submitted (x ∷ []) ++ submitted xs
submitted-one (submits req) xs = refl
submitted-one (ends irq) xs = refl
submitted-one (serves i) xs = refl
submitted-one (kicks_off i now) xs = refl

run-turns : (s : State) (xs : List Step) → IsFair s.ctl → all (run s xs) ≡ all s ++ submitted xs
run-turns s [] fair = sym (append-nil (all s))
run-turns s (x ∷ xs) fair =
    let one = step-Adds s x fair in
    run-turns (step s x) xs one.fair
    ∙ ap (λ l. l ++ submitted xs) one.turns
    ∙ append_assoc (all s) (submitted (x ∷ [])) (submitted xs)
    ∙ ap (λ l. all s ++ l) (sym (submitted-one x xs))

-- First come, first served, on any number of processors: from a valid controller, after any pieces of
-- start_dma_xfer and dma_done, of which others may run between any two, the requests that have got a
-- channel, in order, followed by those that still wait, are those that waited at first followed by
-- those submitted, in order of their locked sections. The calls of `start_xfer` that were made and
-- those still to be made are for just the requests that have got a channel, in some order: whatever
-- is counted of a request's source, destination, length and direction, the sums are the same.
pub run-order :
    (ctl : Ctl) (xs : List Step)
    → IsValid ctl
    → let s = run (from ctl) xs in
      (s.assigned ++ s.ctl.list ≡ ctl.list ++ submitted xs)
      × ((w : Order → ℕ) → called w s.xfers + to_kick w s.kicks ≡ asked w s.assigned)
run-order ctl xs v = (
  run-turns (from ctl) xs (record { served = v.served }),
  λ w. run-Balanced w (from ctl) xs (omega arith),
)
