-- ===== src/UserDma/Late.antt =====
-- A transfer that times out, and the next one that needs a larger buffer: do_dma_start_xfer of
-- bifrost/bifrost_cdev.c twice, with any history of the engine in between.
use bifrost_module.Base.{
  ℕ, ◌+◌, ◌≤◌, ◌<◌, ◌≡◌, refl, ap, ◌∙◌, ◌≢◌, Bool, true, false, some, List, [], ◌∷◌, ◌++◌, ◌==◌,
  Bool-cases, Option-cases, inl, inr, arith, Result, ok, err, etimedout,
}
use bifrost_module.Stats.{Stats, Arch}
use bifrost_module.Dma.{Req, Ctl, alloc_dma_req, start_dma_xfer}
use bifrost_module.Dma.Invariant.{IsValid, start_dma_xfer-IsValid}
use bifrost_module.Dma.Conserved.{held, one, start_dma_xfer-held}
use bifrost_module.Dma.History
use bifrost_module.Dma.History.{Trace, run, ended, started, run-held}
use bifrost_module.UserDma.{
  Transfer, Direction, Saved, Answers, Call, dma_free_coherent, dma_alloc_coherent, pci_map_single,
  Prepared, free_old, grow_buffer, map_buffer, prepare_mapped, prepare_grown, prepare_dma_buffer,
}
use bifrost_module.UserDma.Round.{user_req, user_req-IsFor, Serves, start_user}
use bifrost_module.UserDma.Begin.{
  Started, do_dma_start_xfer, start_after, start_req, prepared, start_prepared, fill_req,
}

abbrev pub Begins : Call → List Call → Type 0
Begins c cs = (rest : List Call) × (cs ≡ c ∷ rest)

Begins-append : (c : Call) (cs more : List Call) → Begins c cs → Begins c (cs ++ more)
Begins-append c cs more (rest, e) = (rest ++ more, rw e refl)

module _ (k : Answers) (s : Saved) (virt : ℕ) (there : s.virt ≡ some virt) where
  prepare_grown-Begins :
      (g : Saved × List Call × Bool) (c : Call) (x : Transfer) (req : Req) (dir : Direction)
      (frame : ℕ)
      → Begins c g.1
      → Begins c (prepare_grown k g x req dir frame).calls
  unfolding prepare_grown prepare_mapped
  prepare_grown-Begins (s', calls, false) c x req dir frame b = b
  prepare_grown-Begins (s', calls, true) c x req dir frame b =
      Begins-append c calls (map_buffer k s' dir x.size).1 b

  grow_buffer-Begins :
      (size : ℕ)
      → s.size < size
      → Begins (dma_free_coherent s.size virt s.phy) (grow_buffer k s size).1
  unfolding grow_buffer free_old
  grow_buffer-Begins size more = elim (Option-cases k.coherent) [
    | inl bad ↦ ([], ground (arith, bad, there, more))
    | inr ((v, phy), good) ↦ (dma_alloc_coherent size v phy ∷ [], ground (arith, good, there, more))
  ]

  prepare_dma_buffer-Begins :
      (x : Transfer) (req : Req) (dir : Direction) (frame : ℕ)
      → s.size < x.size
      → Begins (dma_free_coherent s.size virt s.phy) (prepare_dma_buffer k s x req dir frame).calls
  unfolding prepare_dma_buffer
  prepare_dma_buffer-Begins x req dir frame more = elim (Bool-cases (x.size == 0)) [
    | inl nothing ↦ absurd (ground (arith, nothing, more))
    | inr some_size ↦ rw some_size (
        prepare_grown-Begins (grow_buffer k s x.size) _ x req dir frame
          (grow_buffer-Begins x.size more))
  ]

start_after-Begins :
    (r : Result ℕ) (k : Answers) (user : Bool) (count : ℕ) (ctl : Ctl) (now : ℕ) (p : Prepared)
    (c : Call)
    → Begins c p.calls
    → Begins c (start_after r k user count ctl now p).calls
unfolding start_after start_prepared
start_after-Begins (err e) k user count ctl now p c b = b
start_after-Begins (ok v) k user count ctl now p c b =
    elim (Option-cases (fill_req p.req p.xfer p.usr_req.up_down)) [
      | inl bad ↦ rw (bad, start_prepared) b
      | inr (req, good) ↦ rw (good, start_prepared) (Begins-append c p.calls _ b)
    ]

do_dma_start_xfer-Begins :
    (k : Answers) (frame count now cookie : ℕ) (ctl : Ctl) (s : Saved) (virt : ℕ) (x : Transfer)
    (dir : Direction) (req : Req)
    → s.virt ≡ some virt
    → s.size < x.size
    → (alloc_dma_req k.memory count cookie).1 ≡ some req
    → Begins
        (dma_free_coherent s.size virt s.phy)
        (do_dma_start_xfer k true frame count now cookie ctl s x dir).calls
unfolding do_dma_start_xfer start_req prepared
do_dma_start_xfer-Begins k frame count now cookie ctl s virt x dir req there more good =
    let p = prepare_dma_buffer k s x req dir frame in
    rw (good, do_dma_start_xfer)
      (start_after-Begins p.result k true (alloc_dma_req k.memory count cookie).0 ctl now p
        (dma_free_coherent s.size virt s.phy)
        (prepare_dma_buffer-Begins k s virt there x req dir frame more))

-- The first start, and what the engine does after it.
module _ (k : Answers) (frame count now cookie : ℕ) (ctl : Ctl) (s : Saved) (x : Transfer)
    (dir : Direction) (a : Arch) (stats : Stats) (cs : List bifrost_module.Dma.History.Call) where
  abbrev pub first : Started
  first = do_dma_start_xfer k true frame count now cookie ctl s x dir

  abbrev pub meanwhile : Trace
  meanwhile = run a first.ctl stats cs

  -- A transfer of some bytes from or to a buffer of user space that times out while all else
  -- succeeds, on an engine in a valid state, where the saved buffer is large enough; then any history
  -- of the engine in which no interrupt reports a request with its ticket; and then a transfer of
  -- user space that needs a larger buffer, with memory for its request. The first one maps the saved
  -- buffer, does not unmap it and returns -ETIMEDOUT, with its request, which is for the low 32 bits of
  -- the address of the mapping, given to the engine; the engine still holds a request with its ticket when the
  -- second one starts; and the first thing that this does is to free the buffer.
  pub do_dma_start_xfer-freed_in_use :
      (virt : ℕ) (req : Req) (k' : Answers) (frame' count' now' cookie' : ℕ) (x' : Transfer)
      (dir' : Direction) (req' : Req)
      → IsValid ctl
      → s.virt ≡ some virt
      → 0 < x.size
      → x.size ≤ s.size
      → Serves k
      → dir ≢ Direction.other
      → k.completed ≡ false
      → (alloc_dma_req k.memory count cookie).1 ≡ some req
      → ended req.ticket meanwhile.results ≡ 0
      → s.size < x'.size
      → (alloc_dma_req k'.memory count' cookie').1 ≡ some req'
      → let second =
          do_dma_start_xfer k' true frame' count' now' cookie' meanwhile.ctl first.saved x' dir' in
        (first.calls ≡ pci_map_single (some virt) x.size k.bus ∷ [])
        × (first.result ≡ err etimedout)
        × (first.ctl ≡ (start_dma_xfer ctl (user_req req x dir k.bus frame) now).0)
        × (0 < held req.ticket meanwhile.ctl)
        × ((rest : List Call) × (second.calls ≡ dma_free_coherent s.size virt s.phy ∷ rest))
  do_dma_start_xfer-freed_in_use virt req k' frame' count' now' cookie' x' dir' req' v there pos
        fits serves ne late good none_ended more good' =
      let (engine, same, calls, result) =
        start_user k frame count now cookie ctl s x req dir pos fits serves ne good in
      let filled : Req = user_req req x dir k.bus frame in
      let ctl_after : first.ctl ≡ (start_dma_xfer ctl filled now).0 = ap (λ p. p.0) engine in
      let (w, kept) =
        run-held req.ticket a first.ctl stats cs
          (rw (ctl_after) (start_dma_xfer-IsValid filled now v)) in
      let at_first : held req.ticket first.ctl ≡ held req.ticket ctl + one req.ticket filled =
        rw (ctl_after) (start_dma_xfer-held ctl req.ticket filled now v) in
      let own : one req.ticket filled ≡ 1 =
        ground (arith, (user_req-IsFor req x dir k.bus frame ne).ticket) in
      (
        calls ∙ rw (late, there) refl,
        result ∙ rw late refl,
        ctl_after,
        omega (arith, kept, at_first, own, none_ended),
        rw (same) (
            do_dma_start_xfer-Begins k' frame' count' now' cookie' meanwhile.ctl s virt x' dir' req'
              there more good'),
      )
