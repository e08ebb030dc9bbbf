-- ===== src/Dma/Drain.antt =====
-- That the DMA engine comes to rest: interrupts of transfers that end, one after the other.
use bifrost_module.Base.{
  ◌⊎◌, ℕ, zero, suc, ◌+◌, ◌≤◌, ◌<◌, ◌==◌, ◌≡◌, refl, ◌≢◌, Option, none, some, List, [], ◌∷◌, arith,
  bit, length, ltb, Bool-cases, Option-cases, inl, inr, ap,
}
use bifrost_module.Stats.{Stats, Arch}
use bifrost_module.Dma.{Req, Ch, Ctl, done_chan, dma_done, lookup_chan}
use bifrost_module.Dma.Channels.{Looked, unknown, known, lookup_chan-Looked}
use bifrost_module.Dma.Weight.{slot, queued, flying, in_flight, weight, weight-done_req}
use bifrost_module.Dma.Ready.{IsReady, dma_done-IsReady}

-- An interrupt: its number, when it comes and when the next transfer is started.
pub record Interrupt : Type 0 where
  pub irq : ℕ
  pub stop : ℕ
  pub start : ℕ

-- The interrupt belongs to a channel on which a request is in progress.
abbrev pub Ends : Ctl → ℕ → Type 0
Ends ctl irq =
    (ch : ℕ) × (req : Req) × (lookup_chan ctl irq ≡ some ch) × ((ctl.ch ch).in_progress ≡ some req)

abbrev pub after : Arch → Ctl → Stats → List Interrupt → Ctl
after a ctl stats [] = ctl
after a ctl stats (x ∷ xs) =
    let o = dma_done a ctl x.irq x.stop x.start stats in after a o.ctl o.stats xs

abbrev pub AllEnd : Arch → Ctl → Stats → List Interrupt → Type 0
AllEnd a ctl stats [] = Unit {0}
AllEnd a ctl stats (x ∷ xs) =
    let o = dma_done a ctl x.irq x.stop x.start stats in Ends ctl x.irq × AllEnd a o.ctl o.stats xs

-- How many requests the engine holds.
abbrev pub pending : Ctl → ℕ
pending ctl = weight (λ r. 1) ctl

found-below :
    (ctl : Ctl) (irq ch : ℕ) {f : Option ℕ} → Looked ctl irq f → f ≡ some ch → ch < ctl.num_ch
found-below ctl irq ch (unknown h) e = absurd (ground (arith, e))
found-below ctl irq ch (known i lt is before) e = ground (arith, e)

-- The end of a transfer takes one request away.
pending-dma_done :
    (a : Arch) (ctl : Ctl) (x : Interrupt) (stats : Stats)
    → IsReady ctl
    → Ends ctl x.irq
    → suc (pending (dma_done a ctl x.irq x.stop x.start stats).ctl) ≡ pending ctl
unfolding dma_done done_chan
pending-dma_done a ctl x stats r (ch, req, found, held) =
    let lt : ch < ctl.num_ch = found-below ctl x.irq ch (lookup_chan-Looked ctl x.irq) found in
    rw (found, held)
      (omega (
        arith,
        weight-done_req (λ r. 1) (λ r n. refl) (some req) a ctl ch x.stop x.start stats
            (omega (arith, lt, r.valid.few)) held,
      ))

after-IsReady :
    (a : Arch) (ctl : Ctl) (stats : Stats) (xs : List Interrupt)
    → IsReady ctl
    → IsReady (after a ctl stats xs)
after-IsReady a ctl stats [] r = r
after-IsReady a ctl stats (x ∷ xs) r =
    let o = dma_done a ctl x.irq x.stop x.start stats in
    after-IsReady a o.ctl o.stats xs (dma_done-IsReady a x.irq x.stop x.start stats r)

pending-after :
    (a : Arch) (ctl : Ctl) (stats : Stats) (xs : List Interrupt)
    → IsReady ctl
    → AllEnd a ctl stats xs
    → length xs + pending (after a ctl stats xs) ≡ pending ctl
pending-after a ctl stats [] r all = omega arith
pending-after a ctl stats (x ∷ xs) r (ends, all) =
    let o = dma_done a ctl x.irq x.stop x.start stats in
    omega (
      arith,
      pending-dma_done a ctl x stats r ends,
      pending-after a o.ctl o.stats xs (dma_done-IsReady a x.irq x.stop x.start stats r) all,
    )

-- A channel that holds something, if the channels hold anything.
flying-some :
    (n : ℕ) (ch : ℕ → Ch)
    → 0 < flying (λ r. 1) n ch
    → (i : ℕ) × (req : Req) × (i < n) × ((ch i).in_progress ≡ some req)
flying-some zero ch h = absurd (omega (arith, h))
flying-some (suc n) ch h = elim (Option-cases (ch n).in_progress) [
  | inr (req, e) ↦ (n, req, omega arith, e)
  | inl e ↦
      let (i, req, lt, held) = flying-some n ch (ground (arith, h, e)) in
      (i, req, omega (arith, lt), held)
]

slot-le-flying :
    (n : ℕ) (ch : ℕ → Ch) (i : ℕ) → i < n → slot (λ r. 1) (ch i).in_progress ≤ flying (λ r. 1) n ch
slot-le-flying zero ch i lt = absurd (omega (arith, lt))
slot-le-flying (suc n) ch i lt = elim (Bool-cases (i == n)) [
  | inl here ↦ ground (arith, here)
  | inr below ↦ omega (arith, slot-le-flying n ch i (ground (arith, lt, below)))
]

empty_slot : (o : Option Req) → slot (λ r. 1) o ≤ 0 → o ≡ none
empty_slot none h = refl
empty_slot (some req) h = absurd (omega (arith, h))

empty_list : (l : List Req) → queued (λ r. 1) l ≡ 0 → l ≡ []
empty_list [] h = refl
empty_list (r ∷ l) h = absurd (omega (arith, h))

-- The engine at rest: nobody waits, and every channel is empty and marked idle.
abbrev pub AtRest : Ctl → Type 0
AtRest ctl =
    (ctl.list ≡ [])
    × ((i : ℕ) → i < ctl.num_ch → ((ctl.ch i).in_progress ≡ none) × (bit ctl.idle_bitmap i ≡ 1))

at_rest : (ctl : Ctl) → IsReady ctl → pending ctl ≡ 0 → AtRest ctl
unfolding weight in_flight
at_rest ctl r e = (
  empty_list ctl.list (omega (arith, e)),
  λ i lt.
      let none_held : (ctl.ch i).in_progress ≡ none =
        empty_slot _
          (omega (arith, e, slot-le-flying 32 ctl.ch i (omega (arith, lt, r.valid.few)))) in
      (
        none_held,
        elim (Bool-cases (bit ctl.idle_bitmap i == 1)) [
          | inl set ↦ ground (arith, set)
          | inr clear ↦ absurd (r.holding i lt (λ set. ground (arith, set, clear)) none_held)
        ],
      ),
)

-- The interrupt of a channel finds that channel.
pub Ends-own :
    (ctl : Ctl) (i : ℕ) (req : Req)
    → IsReady ctl
    → i < ctl.num_ch
    → (ctl.ch i).in_progress ≡ some req
    → {f : Option ℕ} → Looked ctl (ctl.ch i).irq f
    → f ≡ some i
Ends-own ctl i req r lt held (unknown h) = absurd (h i lt refl)
Ends-own ctl i req r lt held (known ch below e before) = ap some (r.own ch i below lt e)

first_holds :
    (ctl : Ctl)
    → IsReady ctl
    → (r : Req) (l : List Req) → ctl.list ≡ r ∷ l
    → (ctl.ch 0).in_progress ≢ none
first_holds ctl r q l e =
    r.holding 0 r.channels (λ set. absurd (ground (arith, r.valid.served 0 (omega arith) set, e)))

-- While the engine holds a request, one is in progress.
in_progress_some :
    (ctl : Ctl)
    → IsReady ctl
    → 0 < pending ctl
    → (l : List Req) → ctl.list ≡ l
    → (i : ℕ) × (req : Req) × (i < ctl.num_ch) × ((ctl.ch i).in_progress ≡ some req)
unfolding weight in_flight
in_progress_some ctl r h [] e =
    let (i, req, lt, held) = flying-some 32 ctl.ch (ground (arith, h, e)) in
    elim (Bool-cases (ltb i ctl.num_ch)) [
      | inl below ↦ (i, req, ground (arith, below), held)
      | inr above ↦ absurd (ground (arith, above, held, r.above i))
    ]
in_progress_some ctl r h (x ∷ l) e = elim (Option-cases (ctl.ch 0).in_progress) [
  | inl none_held ↦ absurd (first_holds ctl r x l e none_held)
  | inr (req, held) ↦ (0, req, r.channels, held)
]

some-Ends : (ctl : Ctl) → IsReady ctl → 0 < pending ctl → (irq : ℕ) × Ends ctl irq
some-Ends ctl r h =
    let (i, req, lt, held) = in_progress_some ctl r h ctl.list refl in
    let found : lookup_chan ctl (ctl.ch i).irq ≡ some i =
      Ends-own ctl i req r lt held (lookup_chan-Looked ctl (ctl.ch i).irq) in
    ((ctl.ch i).irq, (i, req, found, held))

-- From a ready controller, after any interrupts each of which belongs to a transfer in progress,
-- there are two cases. There were as many interrupts as the controller held requests: then nobody
-- waits, and every channel is empty and marked idle. Or there were fewer, and those that are missing
-- are held: then a transfer is in progress whose interrupt can come.
pub after-AtRest :
    (a : Arch) (ctl : Ctl) (stats : Stats) (xs : List Interrupt)
    → IsReady ctl
    → AllEnd a ctl stats xs
    → let end = after a ctl stats xs in
      ((length xs ≡ pending ctl) × AtRest end)
      ⊎ ((length xs < pending ctl)
          × (length xs + pending end ≡ pending ctl)
          × ((irq : ℕ) × Ends end irq))
after-AtRest a ctl stats xs r all =
    let end = after a ctl stats xs in
    let ready : IsReady end = after-IsReady a ctl stats xs r in
    let count : length xs + pending end ≡ pending ctl = pending-after a ctl stats xs r all in
    elim (Bool-cases (pending end == 0)) [
      | inl rest ↦ inl (ground (arith, count, rest), at_rest end ready (ground (arith, rest)))
      | inr some_left ↦
          inr (
            ground (arith, count, some_left),
            count,
            some-Ends end ready (ground (arith, some_left)),
          )
    ]
