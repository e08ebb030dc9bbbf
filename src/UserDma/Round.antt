-- ===== src/UserDma/Round.antt =====
-- A transfer of a buffer of user space from its start, do_dma_start_xfer of bifrost/bifrost_cdev.c, to
-- the interrupt that completes it, dma_done of bifrost/bifrost_dma.c.
use bifrost_module.Base.{
  ℕ, ◌%◌, ◌^◌, ◌≤◌, ◌<◌, ◌≡◌, ◌≢◌, refl, ap, ◌∙◌, true, some, [], ◌∷◌, if◌then◌else◌, Bool-cases,
  inl, inr, arith, ok, err, etimedout, bit,
}
use bifrost_module.Stats.{Stats, Arch, dir_strm_up, dir_strm_down}
use bifrost_module.Dma.{Req, Ctl, Xfer, Done, alloc_dma_req, start_dma_xfer, dma_done}
use bifrost_module.Dma.Dispatch.{report}
use bifrost_module.Dma.Ready.{IsReady}
use bifrost_module.Dma.Round.{xfer_on, start_dma_xfer-RunsOn, result-dma_done}
use bifrost_module.UserDma.{
  Transfer, Direction, Saved, Answers, pci_map_single, pci_unmap_single, grow_buffer, map_buffer,
  prepare_mapped, prepare_grown, prepare_dma_buffer, finish_dma_buffer,
}
use bifrost_module.UserDma.Begin.{
  do_dma_start_xfer, start_after, start_req, prepared, start_prepared, fill_req, end_result,
}

-- The request of a transfer between the FPGA and a buffer of user space.
abbrev pub user_req : Req → Transfer → Direction → (bus frame : ℕ) → Req
user_req req x Direction.up_stream bus frame = record req {
  src = x.device;
  dst = bus % 2 ^ 32;
  len = x.size;
  dir = dir_strm_up;
  pwork = some frame;
}
user_req req x Direction.down_stream bus frame = record req {
  src = bus % 2 ^ 32;
  dst = x.device;
  len = x.size;
  dir = dir_strm_down;
  pwork = some frame;
}
user_req req x Direction.other bus frame = req

-- What all requests of user buffers have.
pub record IsFor (req : Req) (x : Transfer) (frame : ℕ) (filled : Req) : Type 0 where
  pub ticket : filled.ticket ≡ req.ticket
  pub cookie : filled.cookie ≡ req.cookie
  pub len : filled.len ≡ x.size
  pub pwork : filled.pwork ≡ some frame

pub user_req-IsFor :
    (req : Req) (x : Transfer) (dir : Direction) (bus frame : ℕ)
    → dir ≢ Direction.other
    → IsFor req x frame (user_req req x dir bus frame)
user_req-IsFor req x Direction.up_stream bus frame ne = record {
  ticket = refl;
  cookie = refl;
  len = refl;
  pwork = refl;
}
user_req-IsFor req x Direction.down_stream bus frame ne = record {
  ticket = refl;
  cookie = refl;
  len = refl;
  pwork = refl;
}
user_req-IsFor req x Direction.other bus frame ne = absurd (ne refl)

-- The kernel answers as it should, but for the wait.
pub record Serves (k : Answers) : Type 0 where
  pub memory : k.memory ≡ true
  pub copied_in : k.copied_in ≡ true
  pub bus : 0 < k.bus
  pub copied_out : k.copied_out ≡ true

prepare_user :
    (k : Answers) (s : Saved) (x : Transfer) (req : Req) (dir : Direction) (frame : ℕ)
    → 0 < x.size
    → x.size ≤ s.size
    → Serves k
    → dir ≢ Direction.other
    → let p = prepare_dma_buffer k s x req dir frame in
      (p.result ≡ ok 0)
      × (p.saved ≡ s)
      × (p.calls ≡ pci_map_single s.virt x.size k.bus ∷ [])
      × (fill_req p.req p.xfer p.usr_req.up_down ≡ some (user_req req x dir k.bus frame))
      × (finish_dma_buffer k p.usr_req ≡ (
          if k.completed then (pci_unmap_single k.bus x.size ∷ [], ok 0) else ([], err etimedout)))
unfolding prepare_dma_buffer grow_buffer prepare_grown map_buffer prepare_mapped fill_req
    finish_dma_buffer
prepare_user k s x req Direction.up_stream frame pos fits serves ne =
    ground (arith, pos, fits, serves.copied_in, serves.bus, serves.copied_out)
prepare_user k s x req Direction.down_stream frame pos fits serves ne =
    ground (arith, pos, fits, serves.copied_in, serves.bus, serves.copied_out)
prepare_user k s x req Direction.other frame pos fits serves ne = absurd (ne refl)

pub start_user :
    (k : Answers) (frame count now cookie : ℕ) (ctl : Ctl) (s : Saved) (x : Transfer) (req : Req)
    (dir : Direction)
    → 0 < x.size
    → x.size ≤ s.size
    → Serves k
    → dir ≢ Direction.other
    → (alloc_dma_req k.memory count cookie).1 ≡ some req
    → let r = do_dma_start_xfer k true frame count now cookie ctl s x dir in
      ((r.ctl, r.xfers) ≡ start_dma_xfer ctl (user_req req x dir k.bus frame) now)
      × (r.saved ≡ s)
      × (r.calls
          ≡ pci_map_single s.virt x.size k.bus
            ∷ (if k.completed then pci_unmap_single k.bus x.size ∷ [] else []))
      × (r.result ≡ (if k.completed then ok req.ticket else err etimedout))
unfolding do_dma_start_xfer start_req start_after start_prepared prepared end_result
start_user k frame count now cookie ctl s x req dir pos fits serves ne good =
    let (fine, same, calls, filled, finished) =
      prepare_user k s x req dir frame pos fits serves ne in
    let ticket = (user_req-IsFor req x dir k.bus frame ne).ticket in
    elim (Bool-cases k.completed) [
      | inl in_time ↦
          rw
            (
              good, do_dma_start_xfer, fine, start_after, filled, start_prepared, finished, in_time,
              calls, ticket, same,
            )
            (refl, refl, refl, refl)
      | inr late ↦
          rw
            (
              good, do_dma_start_xfer, fine, start_after, filled, start_prepared, finished, late,
              calls, same,
            )
            (refl, refl, refl, refl)
    ]

-- A transfer of some bytes from or to a buffer of user space, for which the saved buffer is large
-- enough, on an engine that is ready and has an idle channel, when the kernel's calls all succeed:
-- the start calls `start_xfer` once, for the size that was asked for, and maps the saved buffer;
-- the interrupt of that channel reports the ticket of the request and completes just what this call
-- waits for; and the call unmaps the buffer and returns the ticket if the completion came in time,
-- and leaves it mapped and returns -ETIMEDOUT if not.
pub do_dma_start_xfer-completes :
    (k : Answers) (frame count now cookie : ℕ) (ctl : Ctl) (s : Saved) (x : Transfer)
    (dir : Direction) (req : Req) (idle : ℕ) (a : Arch) (stop start : ℕ) (stats : Stats)
    → IsReady ctl
    → idle < 32
    → bit ctl.idle_bitmap idle ≡ 1
    → 0 < x.size
    → x.size ≤ s.size
    → Serves k
    → dir ≢ Direction.other
    → (alloc_dma_req k.memory count cookie).1 ≡ some req
    → let r = do_dma_start_xfer k true frame count now cookie ctl s x dir in
      (call : Xfer) × (r.xfers ≡ call ∷ [])
      × (call.len ≡ x.size)
      × ((done : Done) × ((dma_done a r.ctl (r.ctl.ch call.chan).irq stop start stats).result
            ≡ ok done)
          × (done.ticket ≡ req.ticket)
          × (done.completed ≡ some frame))
      × (r.calls
          ≡ pci_map_single s.virt x.size k.bus
            ∷ (if k.completed then pci_unmap_single k.bus x.size ∷ [] else []))
      × (r.result ≡ (if k.completed then ok req.ticket else err etimedout))
do_dma_start_xfer-completes k frame count now cookie ctl s x dir req idle a stop start stats ready
      few hit pos fits serves ne good =
    let (engine, same, calls, result) =
      start_user k frame count now cookie ctl s x req dir pos fits serves ne good in
    let filled : Req = user_req req x dir k.bus frame in
    let is_for = user_req-IsFor req x dir k.bus frame ne in
    let (ch, runs, found) = start_dma_xfer-RunsOn ctl filled now idle ready few hit in
    let ended =
      result-dma_done a (start_dma_xfer ctl filled now).0
        ((start_dma_xfer ctl filled now).0.ch ch).irq stop start ch (record filled { ts = now })
        stats found runs.held in
    (
      xfer_on ch filled,
      ap (λ p. p.1) engine ∙ runs.called,
      is_for.len,
      (
        report (record filled { ts = now }) stop,
        rw (ap (λ p. p.0) engine) ended,
        is_for.ticket,
        is_for.pwork,
      ),
      calls,
      result,
    )
