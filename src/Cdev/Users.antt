-- ===== src/Cdev/Users.antt =====
-- The commands of one user against the handles of the others: bifrost_unlocked_ioctl of
-- bifrost/bifrost_cdev.c.
use bifrost_module.Base.{
  ℕ, ◌+◌, ◌%◌, ◌≡◌, ◌≢◌, refl, Bool, true, false, Option, none, some, List, [], ◌∷◌, ◌==◌, Result,
  ok, err, arith, Bool-cases, Result-cases, inl, inr,
}
use bifrost_module.Stats.{Arch}
use bifrost_module.Events.{Event, Handle, dequeue_event}
use bifrost_module.Device.{Io, Device}
use bifrost_module.Regs.{check_bar_access, ev_access}
use bifrost_module.UserDma.{Transfer, Direction}
use bifrost_module.Sdram.{Bursts}
use bifrost_module.Cdev.{
  Access, Copies, Driver, Begin, Command, on_handle, handle_at, with_handle, value_reply,
  values_reply, event_reply, dequeued, bifrost_do_xfer, dma_xfer, do_set_mode, dispatch,
  bifrost_unlocked_ioctl, info, read_regb, read_range_regb, read_repeat_regb, write_regb,
  write_repeat_regb, modify_regb, start_dma, enable_event, irq_forwarding, dequeue, set_regb_mode,
  reset_dma, other,
}

handle_at-on_handle :
    (f : Handle → Handle) (a b : ℕ) (hs : List Handle)
    → ((h : Handle) → (f h).addr ≡ h.addr)
    → b ≢ a
    → handle_at b (on_handle f a hs) ≡ handle_at b hs
handle_at-on_handle f a b [] same differ = refl
handle_at-on_handle f a b (h ∷ hs) same differ = elim (Bool-cases (h.addr == a)) [
  | inl here ↦ rw (here, same h, not_here h.addr here) refl
  | inr away ↦ rw (away) (elim (Bool-cases (h.addr == b)) [
    | inl found ↦ rw (found) refl
    | inr missed ↦ rw (missed) (handle_at-on_handle f a b hs same differ)
  ])
]
  where
    not_here : (n : ℕ) → (n == a) ≡ true → (n == b) ≡ false
    not_here n e = ground (arith, e, differ)

dequeue_event-addr : (h : Handle) → (dequeue_event h).0.addr ≡ h.addr
unfolding dequeue_event
dequeue_event-addr h = ground arith

-- What a command leaves of the device of before: all but the handles, of which only the one at `a`
-- may differ.
pub record KeepsOthers (old new : Device) (a : ℕ) : Type 0 where
  pub rest : new ≡ record old { handles = new.handles }
  pub others : (b : ℕ) → b ≢ a → handle_at b new.handles ≡ handle_at b old.handles

unchanged : (old new : Device) (a : ℕ) → new ≡ old → KeepsOthers old new a
unchanged old new a e = rw (e) (record { rest = refl; others = λ b differ. refl })

one_handle :
    (f : Handle → Handle) (d : Device) (a : ℕ)
    → ((h : Handle) → (f h).addr ≡ h.addr)
    → KeepsOthers d (record d { handles = on_handle f a d.handles }) a
one_handle f d a same = record {
  rest = refl;
  others = λ b differ. handle_at-on_handle f a b d.handles same differ;
}

module _ {Hw : Type 0} where
  value_reply-device :
      (s : Driver Hw) (put : Bool) (r : Hw × Result ℕ)
      → (value_reply s put r).driver.device ≡ s.device
  value_reply-device s put (hw, err e) = refl
  value_reply-device s true (hw, ok v) = refl
  value_reply-device s false (hw, ok v) = refl

  values_reply-device :
      (s : Driver Hw) (r : Hw × Result (List ℕ)) → (values_reply s r).driver.device ≡ s.device
  values_reply-device s (hw, err e) = refl
  values_reply-device s (hw, ok vs) = refl

  event_reply-device :
      (s : Driver Hw) (forwarded : ℕ) (put : Bool) (e : Option Event)
      → (event_reply s forwarded put e).driver.device ≡ s.device
  event_reply-device s forwarded put none = refl
  event_reply-device s forwarded true (some e) = refl
  event_reply-device s forwarded false (some e) = refl

module _ {Hw : Type 0} (io : Io Hw) (bursts : Bursts Hw) (copies : Copies Hw) (fvd : Bool) where
  bifrost_do_xfer-device :
      (s : Driver Hw) (a : ℕ) (user : Bool) (dir : Direction) (xfer : Option Transfer) (b : Begin)
      → (bifrost_do_xfer io bursts copies fvd s a user dir xfer b).driver.device ≡ s.device
  unfolding bifrost_do_xfer dma_xfer
  bifrost_do_xfer-device s a user dir none b = refl
  bifrost_do_xfer-device s a user dir (some xfer) b = elim (Bool-cases s.device.membus) [
    | inl e ↦ rw (e) refl
    | inr e ↦ rw (e) refl
  ]

  do_set_mode-device :
      (s : Driver Hw) (a : Access) → (do_set_mode io bursts copies fvd s a).driver.device ≡ s.device
  unfolding do_set_mode
  do_set_mode-device s a =
      elim (Result-cases (check_bar_access fvd s.device a.bar ev_access a.offset)) [
        | inl (rc, e) ↦ rw (e, do_set_mode) refl
        | inr (rc, e) ↦ rw (e, do_set_mode) refl
      ]

  dispatch-Others :
      (s : Driver Hw) (a : ℕ) (c : Command)
      → KeepsOthers s.device (dispatch io bursts copies fvd s a c).driver.device a
  unfolding dispatch
  dispatch-Others s a (info true) = unchanged _ _ a refl
  dispatch-Others s a (info false) = unchanged _ _ a refl
  dispatch-Others s a (read_regb none put) = unchanged _ _ a refl
  dispatch-Others s a (read_regb (some x) put) = unchanged _ _ a (value_reply-device s put _)
  dispatch-Others s a (read_range_regb x memory put) = unchanged _ _ a (values_reply-device s _)
  dispatch-Others s a (read_repeat_regb x memory put) = unchanged _ _ a (values_reply-device s _)
  dispatch-Others s a (write_regb none) = unchanged _ _ a refl
  dispatch-Others s a (write_regb (some x)) = unchanged _ _ a refl
  dispatch-Others s a (write_repeat_regb x memory user missing) = unchanged _ _ a refl
  dispatch-Others s a (modify_regb none put) = unchanged _ _ a refl
  dispatch-Others s a (modify_regb (some m) put) = unchanged _ _ a (value_reply-device s put _)
  dispatch-Others s a (start_dma user dir xfer b) =
      unchanged _ _ a (bifrost_do_xfer-device s a user dir xfer b)
  dispatch-Others s a (enable_event mask) =
      one_handle (λ h. record h { event_enable_mask = mask }) s.device a (λ h. refl)
  dispatch-Others s a (irq_forwarding mask) =
      one_handle (λ h. record h { irq_forwarding_mask = mask }) s.device a (λ h. refl)
  dispatch-Others s a (dequeue forwarded put) =
      rw
        (event_reply-device (with_handle (λ h. (dequeue_event h).0) a s) forwarded put
          (dequeued (handle_at a s.device.handles)))
        (one_handle (λ h. (dequeue_event h).0) s.device a dequeue_event-addr)
  dispatch-Others s a (set_regb_mode none) = unchanged _ _ a refl
  dispatch-Others s a (set_regb_mode (some x)) = unchanged _ _ a (do_set_mode-device s x)
  dispatch-Others s a reset_dma = unchanged _ _ a refl
  dispatch-Others s a other = unchanged _ _ a refl

  -- Any command through the handle at one address, whatever user space, the kernel and the hardware
  -- answer, counts itself, and else changes nothing of the device but that handle: the handles at all
  -- other addresses keep their masks and their queues.
  pub bifrost_unlocked_ioctl-Others :
      (arch : Arch) (s : Driver Hw) (a : ℕ) (c : Command)
      → KeepsOthers
          (record s.device {
            stats = record s.device.stats { ioctls = (s.device.stats.ioctls + 1) % arch.ulong };
          })
          (bifrost_unlocked_ioctl io bursts copies fvd arch s a c).driver.device
          a
  unfolding bifrost_unlocked_ioctl
  bifrost_unlocked_ioctl-Others arch s a c = dispatch-Others _ a c
