-- ===== src/UserDma/Buffer.antt =====
-- The DMA buffer that is kept between transfers: which memory is held.
use bifrost_module.Base.{
  ℕ, ◌≡◌, refl, ◌∙◌, Bool, true, false, Option, none, some, List, [], ◌∷◌, ◌++◌, ◌==◌,
  if◌then◌else◌, Bool-cases, Option-cases, inl, inr, arith, Result, ok, err,
}
use bifrost_module.Dma.{Req, Ctl, alloc_dma_req}
use bifrost_module.UserDma.{
  Transfer, Direction, Saved, UsrReq, Answers, Call, dma_free_coherent, dma_alloc_coherent,
  pci_map_single, pci_unmap_single, Prepared, free_old, grow_buffer, map_buffer, prepare_mapped,
  prepare_grown, prepare_dma_buffer, finish_dma_buffer,
}
use bifrost_module.UserDma.Begin.{
  do_dma_start_xfer, start_after, start_req, prepared, start_prepared, fill_req, unprepared,
}

-- The coherent buffer that the driver holds: its size, virtual and physical address.
abbrev pub Buffer : Type 0
Buffer = ℕ × ℕ × ℕ

abbrev pub held : Saved → Option Buffer
held s = elim s.virt [ none ↦ none | some v ↦ some (s.size, v, s.phy) ]

-- What is held after a list of calls, `none` if a call frees what is not held, or takes a buffer
-- while one is held.
abbrev freed : Bool → Option (Option Buffer)
freed true = some none
freed false = none

abbrev same : (size virt phy : ℕ) → Buffer → Bool
same size virt phy (size', virt', phy') =
    if size == size' then (if virt == virt' then phy == phy' else false) else false

abbrev after : Call → Option Buffer → Option (Option Buffer)
after (dma_free_coherent size virt phy) none = none
after (dma_free_coherent size virt phy) (some b) = freed (same size virt phy b)
after (dma_alloc_coherent size virt phy) none = some (some (size, virt, phy))
after (dma_alloc_coherent size virt phy) (some b) = none
after (pci_map_single virt size bus) b = some b
after (pci_unmap_single bus size) b = some b

abbrev pub replay : List Call → Option Buffer → Option (Option Buffer)
replay [] b = some b
replay (c ∷ cs) b = elim (after c b) [ none ↦ none | some b' ↦ replay cs b' ]

replay-append :
    (cs ds : List Call) (b b' : Option Buffer)
    → replay cs b ≡ some b'
    → replay (cs ++ ds) b ≡ replay ds b'
replay-append [] ds b b' e = ground (arith, e)
replay-append (c ∷ cs) ds b b' e = elim (Option-cases (after c b)) [
  | inl bad ↦ ground (arith, bad, e)
  | inr (b'', good) ↦ ground (arith, good, e, replay-append cs ds b'' b')
]

grow_buffer-replay :
    (k : Answers) (s : Saved) (size : ℕ)
    → let (s', calls, there) = grow_buffer k s size in replay calls (held s) ≡ some (held s')
unfolding grow_buffer free_old
grow_buffer-replay k s size = ground arith

map_buffer-replay :
    (k : Answers) (s : Saved) (up_down : Direction) (size : ℕ) (b : Option Buffer)
    → replay (map_buffer k s up_down size).1 b ≡ some b
unfolding map_buffer
map_buffer-replay k s up_down size b = ground arith

finish_dma_buffer-replay :
    (k : Answers) (u : UsrReq) (b : Option Buffer) → replay (finish_dma_buffer k u).0 b ≡ some b
unfolding finish_dma_buffer
finish_dma_buffer-replay k u b = ground arith

prepare_grown-replay :
    (k : Answers) (g : Saved × List Call × Bool) (s : Saved) (xfer : Transfer) (req : Req)
    (up_down : Direction) (frame : ℕ)
    → replay g.1 (held s) ≡ some (held g.0)
    → let p = prepare_grown k g xfer req up_down frame in
      replay p.calls (held s) ≡ some (held p.saved)
unfolding prepare_grown prepare_mapped
prepare_grown-replay k (s', calls, false) s xfer req up_down frame e = e
prepare_grown-replay k (s', calls, true) s xfer req up_down frame e =
    replay-append calls (map_buffer k s' up_down xfer.size).1 (held s) (held s') e
    ∙ map_buffer-replay k s' up_down xfer.size (held s')

-- What a preparation and a start do to the buffer.
abbrev Keeps : Saved → List Call → Saved → Type 0
Keeps s calls s' = replay calls (held s) ≡ some (held s')

prepare_dma_buffer-replay :
    (k : Answers) (s : Saved) (xfer : Transfer) (req : Req) (up_down : Direction) (frame : ℕ)
    → let p = prepare_dma_buffer k s xfer req up_down frame in Keeps s p.calls p.saved
unfolding prepare_dma_buffer
prepare_dma_buffer-replay k s xfer req up_down frame = elim (Bool-cases (xfer.size == 0)) [
  | inl nothing ↦ rw nothing refl
  | inr some_size ↦ rw some_size (
      prepare_grown-replay k (grow_buffer k s xfer.size) s xfer req up_down frame
        (grow_buffer-replay k s xfer.size))
]

start_prepared-replay :
    (k : Answers) (user : Bool) (count : ℕ) (ctl : Ctl) (now : ℕ) (s : Saved) (p : Prepared)
    → Keeps s p.calls p.saved
    → let r = start_prepared k user count ctl now p in Keeps s r.calls r.saved
unfolding start_prepared
start_prepared-replay k user count ctl now s p e =
    elim (Option-cases (fill_req p.req p.xfer p.usr_req.up_down)) [
      | inl bad ↦ rw (bad, start_prepared) e
      | inr (req, good) ↦
          rw (good, start_prepared)
            (replay-append p.calls (if user then finish_dma_buffer k p.usr_req else ([], ok 0)).0
                (held s) (held p.saved) e
              ∙ elim (Bool-cases user) [
                | inl yes_user ↦ rw yes_user (finish_dma_buffer-replay k p.usr_req (held p.saved))
                | inr no_user ↦ rw no_user refl
              ])
    ]

start_after-replay :
    (r : Result ℕ) (k : Answers) (user : Bool) (count : ℕ) (ctl : Ctl) (now : ℕ) (s : Saved)
    (p : Prepared)
    → Keeps s p.calls p.saved
    → let r = start_after r k user count ctl now p in Keeps s r.calls r.saved
unfolding start_after
start_after-replay (err c) k user count ctl now s p e = e
start_after-replay (ok v) k user count ctl now s p e =
    start_prepared-replay k user count ctl now s p e

prepared-replay :
    (k : Answers) (user : Bool) (s : Saved) (xfer : Transfer) (req : Req) (up_down : Direction)
    (frame : ℕ)
    → let p = prepared k user s xfer req up_down frame in Keeps s p.calls p.saved
unfolding prepared unprepared
prepared-replay k true s xfer req up_down frame =
    prepare_dma_buffer-replay k s xfer req up_down frame
prepared-replay k false s xfer req up_down frame = refl

-- Whatever the kernel answers, a transfer frees the DMA buffer only if it holds it, with the size and
-- the addresses that it was allocated with, allocates one only when it holds none, and holds in the
-- end just the buffer that `saved_dma_buf` describes.
pub do_dma_start_xfer-replay :
    (k : Answers) (user : Bool) (frame count now cookie : ℕ) (ctl : Ctl) (s : Saved)
    (xfer : Transfer) (up_down : Direction)
    → let r = do_dma_start_xfer k user frame count now cookie ctl s xfer up_down in
      replay r.calls (held s) ≡ some (held r.saved)
unfolding do_dma_start_xfer start_req
do_dma_start_xfer-replay k user frame count now cookie ctl s xfer up_down =
    let count' = (alloc_dma_req k.memory count cookie).0 in
    elim (Option-cases (alloc_dma_req k.memory count cookie).1) [
      | inl bad ↦ rw (bad, do_dma_start_xfer) refl
      | inr (req, good) ↦
          let p = prepared k user s xfer req up_down frame in
          rw (good, do_dma_start_xfer)
            (start_after-replay p.result k user count' ctl now s p
              (prepared-replay k user s xfer req up_down frame))
    ]
