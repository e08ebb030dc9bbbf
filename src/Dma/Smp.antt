-- ===== src/Dma/Smp.antt =====
-- The operations of bifrost/bifrost_dma.c on several processors: start_dma_xfer and dma_done in the
-- pieces between which others may run, and the steps that they take. A section under
-- `ctl->lock` is one step; a call of kick_off_xfer, after the lock is given back, is another. The
-- hardware raises the interrupt of a transfer after the call of `start_xfer` for it.
pub mod Turns
use bifrost_module.Base.{ℕ, zero, suc, Option, none, some, List, [], ◌∷◌, ◌++◌}
use bifrost_module.Dma.{
  Req, Ctl, Xfer, set_in_progress, find_1st_idle_chan, start_locked, next_locked, kicked,
  lookup_chan,
}

-- The controller; the channels whose interrupts have come and that dma_done has not locked yet; the
-- kick-offs to come; the calls of `start_xfer`; and the requests that have got a channel, in order.
pub record State : Type 0 where
  pub ctl : Ctl
  pub released : List ℕ
  pub kicks : List (ℕ × Req)
  pub xfers : List Xfer
  pub assigned : List Req

-- `serves i` and `kicks_off i` go on with the i-th of those that are under way.
pub data Step : Type 0 where
  submits : (req : Req) → Step
  ends : (irq : ℕ) → Step
  serves : (i : ℕ) → Step
  kicks_off : (i now : ℕ) → Step

abbrev pub pick : {A : Type 0} → ℕ → List A → Option (A × List A)
pick i [] = none
pick zero (x ∷ xs) = some (x, xs)
pick (suc i) (x ∷ xs) = elim (pick i xs) [ none ↦ none | some (y, ys) ↦ some (y, x ∷ ys) ]

-- A locked section leaves the controller, and a channel for a request, or none.
given_chan : State → Ctl × Option (ℕ × Req) → State
given_chan s (ctl, none) = record s { ctl = ctl }
given_chan s (ctl, some (ch, req)) = record s {
  ctl = ctl;
  kicks = s.kicks ++ (ch, req) ∷ [];
  assigned = s.assigned ++ req ∷ [];
}

-- The part of dma_done before the lock.
ended_on : State → ℕ → Option Req → State
ended_on s ch none = s
ended_on s ch (some req) = record s {
  ctl = set_in_progress s.ctl ch none;
  released = s.released ++ ch ∷ [];
}

interrupted : State → Option ℕ → State
unfolding ended_on
interrupted s none = s
interrupted s (some ch) = ended_on s ch (s.ctl.ch ch).in_progress

served_chan : State → Option (ℕ × List ℕ) → State
unfolding given_chan
served_chan s none = s
served_chan s (some (ch, rest)) =
    given_chan (record s { released = rest }) (next_locked s.ctl.list s.ctl ch)

kicked_off : State → ℕ → Option ((ℕ × Req) × List (ℕ × Req)) → State
kicked_off s now none = s
kicked_off s now (some (k, rest)) =
    let (ctl, xfers) = kicked (s.ctl, some k) now in
    record s { ctl = ctl; kicks = rest; xfers = s.xfers ++ xfers }

pub step : State → Step → State
unfolding given_chan interrupted served_chan kicked_off
step s (submits req) = given_chan s (start_locked (find_1st_idle_chan s.ctl) req)
step s (ends irq) = interrupted s (lookup_chan s.ctl irq)
step s (serves i) = served_chan s (pick i s.released)
step s (kicks_off i now) = kicked_off s now (pick i s.kicks)

abbrev pub run : State → List Step → State
run s [] = s
run s (x ∷ xs) = run (step s x) xs

abbrev pub from : Ctl → State
from ctl = record { ctl = ctl; released = []; kicks = []; xfers = []; assigned = [] }

abbrev pub submitted : List Step → List Req
submitted [] = []
submitted (submits req ∷ xs) = req ∷ submitted xs
submitted (ends irq ∷ xs) = submitted xs
submitted (serves i ∷ xs) = submitted xs
submitted (kicks_off i now ∷ xs) = submitted xs
