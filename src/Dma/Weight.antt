-- ===== src/Dma/Weight.antt =====
-- What the requests that the DMA engine holds weigh, for any weight that the start time does not
-- change, and how starts and interrupts change it.
use bifrost_module.Base.{
  ℕ, zero, suc, ◌+◌, ◌≤◌, ◌<◌, ◌≡◌, refl, Option, none, some, List, [], ◌∷◌, ◌++◌, arith, clear_bit,
  update,
}
use bifrost_module.Stats.{Stats, Arch}
use bifrost_module.Dma.{
  Req, Ch, Ctl, set_in_progress, kick_off_xfer, free_chan, start_on, start_dma_xfer, next_on,
  done_req,
}
use bifrost_module.Dma.Channels.{Found, busy, got, find_1st_idle_chan-Found}
use bifrost_module.Dma.Invariant.{IsValid}

module _ (w : Req → ℕ) where
  abbrev pub slot : Option Req → ℕ
  slot none = 0
  slot (some r) = w r

  abbrev pub queued : List Req → ℕ
  queued [] = 0
  queued (r ∷ rs) = w r + queued rs

  abbrev pub flying : ℕ → (ℕ → Ch) → ℕ
  flying zero ch = 0
  flying (suc n) ch = flying n ch + slot (ch n).in_progress

  -- `flying` shut, so that 32 channels are not unrolled.
  unfoldable pub in_flight : ℕ → (ℕ → Ch) → ℕ
  in_flight n ch = flying n ch

  -- Of the requests that wait and of those in progress.
  unfoldable pub weight : Ctl → ℕ
  weight ctl = queued ctl.list + in_flight 32 ctl.ch

  queued-append : (l : List Req) (r : Req) → queued (l ++ r ∷ []) ≡ queued l + w r
  queued-append [] r = omega arith
  queued-append (x ∷ l) r = omega (arith, queued-append l r)

  flying-update_above :
      (n : ℕ) (ch : ℕ → Ch) (i : ℕ) (c : Ch) → n ≤ i → flying n (update ch i c) ≡ flying n ch
  flying-update_above zero ch i c h = refl
  flying-update_above (suc n) ch i c h = ground (arith, flying-update_above n ch i c)

  flying-update :
      (n : ℕ) (ch : ℕ → Ch) (i : ℕ) (c : Ch)
      → i < n
      → flying n (update ch i c) + slot (ch i).in_progress ≡ flying n ch + slot c.in_progress
  flying-update zero ch i c h = absurd (omega arith)
  flying-update (suc n) ch i c h =
      ground (arith, flying-update n ch i c, flying-update_above n ch i c)

  in_flight-update :
      (n : ℕ) (ch : ℕ → Ch) (i : ℕ) (c : Ch)
      → i < n
      → in_flight n (update ch i c) + slot (ch i).in_progress ≡ in_flight n ch + slot c.in_progress
  unfolding in_flight
  in_flight-update n ch i c h = flying-update n ch i c h

  weight-set_in_progress :
      (ctl : Ctl) (ch : ℕ) (o : Option Req)
      → ch < 32
      → weight (set_in_progress ctl ch o) + slot (ctl.ch ch).in_progress ≡ weight ctl + slot o
  unfolding weight set_in_progress
  weight-set_in_progress ctl ch o lt =
      omega (arith, in_flight-update 32 ctl.ch ch (record (ctl.ch ch) { in_progress = o }) lt)

list-set_in_progress :
    (ctl : Ctl) (ch : ℕ) (o : Option Req) → (set_in_progress ctl ch o).list ≡ ctl.list
unfolding set_in_progress
list-set_in_progress ctl ch o = refl

in_progress-set :
    (ctl : Ctl) (ch : ℕ) (o : Option Req) → ((set_in_progress ctl ch o).ch ch).in_progress ≡ o
unfolding set_in_progress
in_progress-set ctl ch o = ground arith

module _ (w : Req → ℕ) (steady : (req : Req) (now : ℕ) → w (record req { ts = now }) ≡ w req) where
  -- Putting a request on a channel and starting it, when the channel held nothing before.
  weight-kick_off :
      (ctl : Ctl) (ch : ℕ) (req : Req) (now : ℕ)
      → ch < 32
      → (ctl.ch ch).in_progress ≡ none
      → weight w (kick_off_xfer (set_in_progress ctl ch (some req)) ch req now).0
        ≡ weight w ctl + w req
  unfolding kick_off_xfer
  weight-kick_off ctl ch req now lt e = ground (
    arith,
    steady req now,
    weight-set_in_progress w ctl ch (some req) lt,
    in_progress-set ctl ch (some req),
    weight-set_in_progress w (set_in_progress ctl ch (some req)) ch (some (record req { ts = now }))
        lt,
  )

  start_on-weight :
      {ctl : Ctl} {f : Ctl × Option ℕ} (req : Req) (now : ℕ)
      → IsValid ctl
      → Found ctl f
      → weight w (start_on f req now).0 ≡ weight w ctl + w req
  unfolding start_on weight
  start_on-weight {ctl} req now v (busy full) = omega (arith, queued-append w ctl.list req)
  start_on-weight {ctl} req now v (got ch lt hit lower) =
      weight-kick_off (record ctl { idle_bitmap = clear_bit ctl.idle_bitmap ch }) ch req now lt
        (v.free ch lt hit)

  pub weight-start_dma_xfer :
      (ctl : Ctl) (req : Req) (now : ℕ)
      → IsValid ctl
      → weight w (start_dma_xfer ctl req now).0 ≡ weight w ctl + w req
  unfolding start_dma_xfer
  weight-start_dma_xfer ctl req now v = start_on-weight req now v (find_1st_idle_chan-Found ctl)

  next_on-weight :
      (l : List Req) (ctl : Ctl) (ch now : ℕ)
      → ch < 32
      → ctl.list ≡ l
      → (ctl.ch ch).in_progress ≡ none
      → weight w (next_on l ctl ch now).0 ≡ weight w ctl
  unfolding next_on free_chan weight
  next_on-weight [] ctl ch now lt e idle = refl
  next_on-weight (req ∷ rest) ctl ch now lt e idle =
      ground (arith, weight-kick_off (record ctl { list = rest }) ch req now lt idle)

  -- The end of what a channel holds takes its weight away, if it holds anything.
  pub weight-done_req :
      (o : Option Req) (a : Arch) (ctl : Ctl) (ch stop start : ℕ) (stats : Stats)
      → ch < 32
      → (ctl.ch ch).in_progress ≡ o
      → weight w (done_req o a ctl ch stop start stats).ctl + slot w o ≡ weight w ctl
  unfolding done_req
  weight-done_req none a ctl ch stop start stats lt e = omega arith
  weight-done_req (some req) a ctl ch stop start stats lt e = ground (
    arith,
    weight-set_in_progress w ctl ch none lt,
    next_on-weight ctl.list (set_in_progress ctl ch none) ch start lt,
    in_progress-set ctl ch none,
    list-set_in_progress ctl ch none,
  )
