-- ===== src/UserDma/Start.antt =====
-- What a start hands to the DMA engine, and what it returns.
use bifrost_module.Base.{
  ℕ, ◌≡◌, ◌≢◌, refl, Bool, [], Option-cases, inl, inr, arith, Result, ok, err, etimedout,
}
use bifrost_module.Dma.{Ctl, alloc_dma_req}
use bifrost_module.UserDma.{Transfer, Direction, Saved, Answers, Prepared}
use bifrost_module.UserDma.Begin.{
  Started, do_dma_start_xfer, start_after, start_req, prepared, start_prepared, fill_req,
  end_result,
}

-- Nothing is given to the engine.
abbrev pub IsIdle : Ctl → Started → Type 0
IsIdle ctl r = (r.ctl ≡ ctl) × (r.xfers ≡ [])

end_result-err : (r : Result ℕ) (ticket e : ℕ) → end_result r ticket ≡ err e → e ≡ etimedout
unfolding end_result
end_result-err r ticket e h = ground arith

start_prepared-IsIdle :
    (k : Answers) (user : Bool) (count : ℕ) (ctl : Ctl) (now : ℕ) (p : Prepared) (e : ℕ)
    → (start_prepared k user count ctl now p).result ≡ err e
    → e ≢ etimedout
    → IsIdle ctl (start_prepared k user count ctl now p)
unfolding start_prepared
start_prepared-IsIdle k user count ctl now p e h late =
    elim (Option-cases (fill_req p.req p.xfer p.usr_req.up_down)) [
      | inl bad ↦ rw (bad, start_prepared) (refl, refl)
      | inr (req, good) ↦
          absurd (late (end_result-err _ req.ticket e (rw (good, start_prepared) at h)))
    ]

start_after-IsIdle :
    (r : Result ℕ) (k : Answers) (user : Bool) (count : ℕ) (ctl : Ctl) (now : ℕ) (p : Prepared)
    (e : ℕ)
    → (start_after r k user count ctl now p).result ≡ err e
    → e ≢ etimedout
    → IsIdle ctl (start_after r k user count ctl now p)
unfolding start_after
start_after-IsIdle (err c) k user count ctl now p e h late = (refl, refl)
start_after-IsIdle (ok v) k user count ctl now p e h late =
    start_prepared-IsIdle k user count ctl now p e h late

-- A start that fails with another error than -ETIMEDOUT gives nothing to the engine: the controller
-- is as it was and `start_xfer` is not called.
pub do_dma_start_xfer-IsIdle :
    (k : Answers) (user : Bool) (frame count now cookie : ℕ) (ctl : Ctl) (s : Saved)
    (xfer : Transfer) (up_down : Direction) (e : ℕ)
    → (do_dma_start_xfer k user frame count now cookie ctl s xfer up_down).result ≡ err e
    → e ≢ etimedout
    → IsIdle ctl (do_dma_start_xfer k user frame count now cookie ctl s xfer up_down)
unfolding do_dma_start_xfer start_req
do_dma_start_xfer-IsIdle k user frame count now cookie ctl s xfer up_down e h late =
    let count' = (alloc_dma_req k.memory count cookie).0 in
    elim (Option-cases (alloc_dma_req k.memory count cookie).1) [
      | inl bad ↦ rw (bad, do_dma_start_xfer) (refl, refl)
      | inr (req, good) ↦
          let p = prepared k user s xfer req up_down frame in
          rw (good, do_dma_start_xfer)
            (start_after-IsIdle p.result k user count' ctl now p e
              (rw (good, do_dma_start_xfer) at h) late)
    ]
