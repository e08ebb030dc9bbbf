-- ===== src/Work/Completed.antt =====
-- A DMA transfer from the user's call to the user's event: do_dma_start_xfer of
-- bifrost/bifrost_cdev.c, the engine of bifrost/bifrost_dma.c, dma_msi_handler of
-- bifrost/bifrost_pci.c, the work queue of bifrost/bifrost_main.c and the delivery of
-- bifrost/bifrost_cdev.c together.
use bifrost_module.Base.{
  ℕ, ◌+◌, ◌<◌, ◌≡◌, ◌≢◌, refl, ap, ◌∙◌, true, false, some, [], ◌∷◌, length, get_elem?, bit, bit_and,
  ok, arith,
}
use bifrost_module.Stats.{Stats, Arch}
use bifrost_module.Dma.{
  Req, Ctl, Xfer, alloc_dma_req, start_dma_xfer, lookup_chan, get_xfer_time_ns,
}
use bifrost_module.Dma.Ready.{IsReady}
use bifrost_module.Dma.Round.{xfer_on, start_dma_xfer-RunsOn, result-dma_done}
use bifrost_module.UserDma.{Transfer, Direction, Saved, Answers}
use bifrost_module.UserDma.Begin.{
  do_dma_start_xfer, fill_req, start_req, start_after, start_prepared, prepared, unprepared,
  end_result,
}
use bifrost_module.Events.{Event, Handle, Payload, type_dma_done, event_buffer_size}
use bifrost_module.Events.Queue.{IsValid}
use bifrost_module.Pci.{dma_msi_handler, done_event}
use bifrost_module.Work.{Queue, Answer, flush_workqueue}
use bifrost_module.Work.Delivered.{raise, EndsWith, raise-EndsWith}
use bifrost_module.Events.Delivery.{Wants}

-- The event of a transfer that has ended.
abbrev pub done : (ticket time cookie : ℕ) → Event
done ticket time cookie = record {
  type = type_dma_done;
  payload = Payload.dma ticket time cookie;
  received = 0;
  forwarded = 0;
}

-- The request of a transfer has its ticket and cookie, and asks for its size.
record Fills (req filled : Req) (xfer : Transfer) : Type 0 where
  ticket : filled.ticket ≡ req.ticket
  cookie : filled.cookie ≡ req.cookie
  len : filled.len ≡ xfer.size

fill_req-Fills :
    (req : Req) (xfer : Transfer) (dir : Direction)
    → dir ≢ Direction.other
    → (filled : Req) × (fill_req req xfer dir ≡ some filled) × Fills req filled xfer
unfolding fill_req
fill_req-Fills req xfer Direction.up_stream ne =
    (_, refl, record { ticket = refl; cookie = refl; len = refl })
fill_req-Fills req xfer Direction.down_stream ne =
    (_, refl, record { ticket = refl; cookie = refl; len = refl })
fill_req-Fills req xfer Direction.other ne = absurd (ne refl)

-- A start from memory of the kernel hands the filled request to the engine and returns its ticket.
start-kernel :
    (k : Answers) (frame count now cookie : ℕ) (ctl : Ctl) (s : Saved) (xfer : Transfer)
    (dir : Direction) (filled req : Req)
    → (alloc_dma_req k.memory count cookie).1 ≡ some req
    → fill_req req xfer dir ≡ some filled
    → let r = do_dma_start_xfer k false frame count now cookie ctl s xfer dir in
      (r.result ≡ ok filled.ticket)
      × (r.ctl ≡ (start_dma_xfer ctl filled now).0)
      × (r.xfers ≡ (start_dma_xfer ctl filled now).1)
unfolding do_dma_start_xfer start_req start_after start_prepared prepared unprepared end_result
start-kernel k frame count now cookie ctl s xfer dir filled req given fills =
    rw (given, do_dma_start_xfer) (rw (fills, start_prepared) (refl, refl, refl))

-- The engine's part: the interrupt of the channel raises the event of the request.
dma_msi_handler-done :
    (a : Arch) (ctl : Ctl) (irq stop start ch : ℕ) (req : Req) (stats : Stats)
    → lookup_chan ctl irq ≡ some ch
    → (ctl.ch ch).in_progress ≡ some req
    → (dma_msi_handler a ctl irq stop start stats).1
      ≡ some (done req.ticket (get_xfer_time_ns req.ts stop) req.cookie)
unfolding dma_msi_handler done_event
dma_msi_handler-done a ctl irq stop start ch req stats found held =
    ap done_event (result-dma_done a ctl irq stop start ch req stats found held)

-- The ticket and the cookie of a new request.
alloc_dma_req-gives :
    (count cookie : ℕ)
    → (req : Req) × ((alloc_dma_req true count cookie).1 ≡ some req) × (req.cookie ≡ cookie)
unfolding alloc_dma_req
alloc_dma_req-gives count cookie = (_, refl, refl)

module _ (answers : ℕ → Answer) where
  -- A transfer from or to memory of the kernel, that the user of a handle starts on an engine that is
  -- ready and has an idle channel, with memory for the request: the start returns a ticket, after one
  -- call of `start_xfer`, for a channel and the size that was asked for. Then, when the interrupt of
  -- that channel comes, with a work item for its event, and the work queue is flushed: the queue is
  -- empty, and the user's handle has as the last of its queue the event with just this ticket and the
  -- handle's own cookie, if it is valid and enables these events, has room for it and for the
  -- events that waited, and there is memory for its copies.
  pub do_dma_start_xfer-delivered :
      (k : Answers) (frame count now : ℕ) (ctl : Ctl) (saved : Saved) (xfer : Transfer)
      (dir : Direction) (idle : ℕ) (a : Arch) (stop start : ℕ) (stats : Stats) (s : Queue) (i : ℕ)
      (h : Handle)
      → IsReady ctl
      → idle < 32
      → bit ctl.idle_bitmap idle ≡ 1
      → k.memory ≡ true
      → dir ≢ Direction.other
      → get_elem? s.handles i ≡ some h
      → IsValid h
      → bit_and type_dma_done h.event_enable_mask ≢ 0
      → length h.event_list + length s.works < event_buffer_size
      → ((n : ℕ) → (answers n).memory h.addr ≡ true)
      → let r = do_dma_start_xfer k false frame count now h.addr ctl saved xfer dir in
        (ticket : ℕ) × (call : Xfer) × (r.result ≡ ok ticket)
        × (r.xfers ≡ call ∷ [])
        × (call.len ≡ xfer.size)
        × let raised = (dma_msi_handler a r.ctl (r.ctl.ch call.chan).irq stop start stats).1 in
          let end = flush_workqueue answers (raise true raised s) in
          (end.works ≡ [])
          × ((h' : Handle) × (get_elem? end.handles i ≡ some h')
              × ((time : ℕ) × EndsWith h' (done ticket time h.addr)))
  do_dma_start_xfer-delivered k frame count now ctl saved xfer dir idle a stop start stats s i h
        ready few hit memory known at v enabled room copies =
      let (req, given, own) = alloc_dma_req-gives count h.addr in
      let (filled, fills, f) = fill_req-Fills req xfer dir known in
      let (result, ctl_after, calls) =
        start-kernel k frame count now h.addr ctl saved xfer dir filled req (rw (memory) given)
          fills in
      let (ch, runs, found) = start_dma_xfer-RunsOn ctl filled now idle ready few hit in
      let running : Req = record filled { ts = now } in
      let time : ℕ = get_xfer_time_ns now stop in
      let raised =
        dma_msi_handler-done a (start_dma_xfer ctl filled now).0
          ((start_dma_xfer ctl filled now).0.ch ch).irq stop start ch running stats found
          runs.held in
      let own_cookie : filled.cookie ≡ h.addr = f.cookie ∙ own in
      let e : Event = done filled.ticket time h.addr in
      let wants : Wants h e = record {
        enabled = enabled;
        forwarded = λ t. absurd (omega (arith, t));
        own = λ t. refl;
      } in
      let (empty, (h', at', ends)) = raise-EndsWith answers e s i h at v wants room copies in
      (
        filled.ticket,
        xfer_on ch filled,
        result,
        calls ∙ runs.called,
        f.len,
        rw (ctl_after) (
            rw (raised ∙ ap (λ c. some (done filled.ticket time c)) own_cookie)
              (empty, (h', at', (time, ends)))),
      )
