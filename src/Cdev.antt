-- ===== src/Cdev.antt =====
-- The ioctl of the character device, bifrost/bifrost_cdev.c: bifrost_do_xfer and the dispatch of the
-- commands. What user space gives is part of a command.
pub mod Users
pub mod Codes
pub mod Numbers
mod Tests
use bifrost_module.Base.{
  ℕ, ◌+◌, ◌%◌, ◌^◌, Bool, true, false, Option, none, some, List, [], ◌∷◌, ◌==◌, if◌then◌else◌,
  Result, ok, err, einval, efault, enomem, enotty,
}
use bifrost_module.Stats.{Arch}
use bifrost_module.Dma.{Ctl, Xfer}
use bifrost_module.Events.{Event, Handle, dequeue_event}
use bifrost_module.Device.{Io, Device}
use bifrost_module.Regs.{do_read_regb, do_write_regb, do_modify_regb, check_bar_access, ev_access}
use bifrost_module.Regs.Ioctl.{Range, ioc_read_range, ioc_write_repeat}
use bifrost_module.UserDma.{Transfer, Direction, Saved, Answers}
use bifrost_module.UserDma.Begin.{do_dma_start_xfer}
use bifrost_module.Sdram.{Bursts, do_membus_xfer}

-- `struct bifrost_access` and `struct bifrost_modify`, as they come from user space.
pub record Access : Type 0 where
  pub bar : ℕ
  pub offset : ℕ
  pub value : ℕ

pub record Modify : Type 0 where
  pub bar : ℕ
  pub offset : ℕ
  pub clear : ℕ
  pub set : ℕ

-- The memory of the kernel and of user space, which `Hw` includes: `kcalloc` gives an address or
-- none, and the copies give the number of bytes that they did not copy.
pub record Copies (Hw : Type 0) : Type 0 where
  pub kcalloc : Hw → (size : ℕ) → Option ℕ × Hw
  pub copy_from_user : Hw → (dst src size : ℕ) → ℕ × Hw
  pub copy_to_user : Hw → (dst src size : ℕ) → ℕ × Hw
  pub kfree : Hw → (buf : ℕ) → Hw

-- The state that the commands act on: the device, the controller that its `dma_ctl` points to (a
-- transfer follows the pointer without a test, so a probed device is assumed), the ticket counter,
-- the saved buffer, and the calls of `start_xfer` that the last transfer made.
pub record Driver (Hw : Type 0) : Type 0 where
  pub hw : Hw
  pub device : Device
  pub ctl : Ctl
  pub count : ℕ
  pub saved : Saved
  pub xfers : List Xfer

-- What the kernel answers to a DMA transfer, the address of its frame on the stack, and the time.
pub record Begin : Type 0 where
  pub answers : Answers
  pub frame : ℕ
  pub now : ℕ

-- The commands. `none` is a failed copy from user space, `put` says whether the copy to it succeeds.
-- A repeated write has the words of user space and how many of their bytes could not be copied.
pub data Command : Type 0 where
  info : (put : Bool) → Command
  read_regb : Option Access → (put : Bool) → Command
  read_range_regb : Option Range → (memory put : Bool) → Command
  read_repeat_regb : Option Range → (memory put : Bool) → Command
  write_regb : Option Access → Command
  write_repeat_regb : Option Range → (memory : Bool) (user : List ℕ) (missing : ℕ) → Command
  modify_regb : Option Modify → (put : Bool) → Command
  start_dma : (user : Bool) → Direction → Option Transfer → Begin → Command
  enable_event : (mask : ℕ) → Command
  irq_forwarding : (mask : ℕ) → Command
  dequeue : (forwarded : ℕ) (put : Bool) → Command
  set_regb_mode : Option Access → Command
  reset_dma : Command
  other : Command

-- What a command gives to user space; what is copied only in part counts as nothing. `data` are the
-- bytes of a transfer up, at the address that user space gave for them.
pub data Given : Type 0 where
  nothing : Given
  version : Given
  values : List ℕ → Given
  event : Event → Given
  data_at : (usr_mem size : ℕ) → Given

pub record Reply (Hw : Type 0) : Type 0 where
  pub driver : Driver Hw
  pub given : Given
  pub result : Result ℕ

abbrev pub reply : {Hw : Type 0} → Driver Hw → Given → Result ℕ → Reply Hw
reply s given result = record { driver = s; given = given; result = result }

-- The handle at an address, as the file's private data.
abbrev pub on_handle : (Handle → Handle) → ℕ → List Handle → List Handle
on_handle f addr [] = []
on_handle f addr (h ∷ hs) = if h.addr == addr then f h ∷ hs else h ∷ on_handle f addr hs

abbrev pub handle_at : ℕ → List Handle → Option Handle
handle_at addr [] = none
handle_at addr (h ∷ hs) = if h.addr == addr then some h else handle_at addr hs

abbrev pub with_handle : {Hw : Type 0} → (Handle → Handle) → ℕ → Driver Hw → Driver Hw
with_handle f addr s = record s {
  device = record s.device { handles = on_handle f addr s.device.handles };
}

-- The value that a register command gives back, unless it fails or cannot be copied.
abbrev pub value_reply : {Hw : Type 0} → Driver Hw → (put : Bool) → Hw × Result ℕ → Reply Hw
value_reply s put (hw, err e) = reply (record s { hw = hw }) nothing (err e)
value_reply s true (hw, ok v) = reply (record s { hw = hw }) (values (v ∷ [])) (ok 0)
value_reply s false (hw, ok v) = reply (record s { hw = hw }) nothing (err efault)

abbrev pub values_reply : {Hw : Type 0} → Driver Hw → Hw × Result (List ℕ) → Reply Hw
values_reply s (hw, err e) = reply (record s { hw = hw }) nothing (err e)
values_reply s (hw, ok vs) = reply (record s { hw = hw }) (values vs) (ok 0)

-- The event that was taken off the queue is lost if it cannot be copied.
abbrev pub event_reply :
    {Hw : Type 0} → Driver Hw → (forwarded : ℕ) (put : Bool) → Option Event → Reply Hw
event_reply s forwarded put none = reply s nothing (err einval)
event_reply s forwarded true (some e) = reply s (event (record e { forwarded = forwarded })) (ok 0)
event_reply s forwarded false (some e) = reply s nothing (err efault)

-- What dequeue_event gives, if the handle is there.
abbrev pub dequeued : Option Handle → Option Event
dequeued none = none
dequeued (some h) = (dequeue_event h).1

module _ {Hw : Type 0} (io : Io Hw) (bursts : Bursts Hw) (copies : Copies Hw) (fvd : Bool) where
  -- After the transfer: the copy to user space, whose result is returned, and `kfree`.
  unfoldable pub membus_end : Direction → (usr_mem buf size : ℕ) → Hw × Result ℕ → Hw × Result ℕ
  membus_end dir usr_mem buf size (hw, err e) = (copies.kfree hw buf, err e)
  membus_end Direction.up_stream usr_mem buf size (hw, ok rc) =
      if rc == 0
      then (
        copies.kfree (copies.copy_to_user hw usr_mem buf size).1 buf,
        ok (copies.copy_to_user hw usr_mem buf size).0,
      )
      else (copies.kfree hw buf, ok rc)
  membus_end Direction.down_stream usr_mem buf size (hw, ok rc) = (copies.kfree hw buf, ok rc)
  membus_end Direction.other usr_mem buf size (hw, ok rc) = (copies.kfree hw buf, ok rc)

  -- The data of user space for a transfer down; the test `rc < 0` never holds.
  unfoldable pub membus_in : Direction → (usr_mem buf size : ℕ) → Hw → Hw
  membus_in Direction.down_stream usr_mem buf size hw =
      (copies.copy_from_user hw buf usr_mem size).1
  membus_in Direction.up_stream usr_mem buf size hw = hw
  membus_in Direction.other usr_mem buf size hw = hw

  -- bifrost_do_xfer on the memory bus, with the buffer of `kcalloc`.
  unfoldable pub membus_buffered : Device → Transfer → Direction → Option ℕ × Hw → Hw × Result ℕ
  unfolding membus_end membus_in
  membus_buffered d xfer dir (none, hw) = (hw, err enomem)
  membus_buffered d xfer dir (some buf, hw) = membus_end dir xfer.system buf xfer.size (
      do_membus_xfer io bursts d (membus_in dir xfer.system buf xfer.size hw)
        (record xfer { system = buf }) dir)

  -- The data of a transfer up are copied to user space if it succeeds, and not all of them if
  -- copy_to_user returns another number than 0.
  abbrev pub membus_given : Direction → Transfer → Result ℕ → Given
  membus_given Direction.up_stream xfer (ok rc) =
      if rc == 0 then data_at xfer.system xfer.size else nothing
  membus_given Direction.up_stream xfer (err e) = nothing
  membus_given Direction.down_stream xfer rc = nothing
  membus_given Direction.other xfer rc = nothing

  abbrev pub membus_reply : Driver Hw → Direction → Transfer → Hw × Result ℕ → Reply Hw
  membus_reply s dir xfer (hw, rc) = reply (record s { hw = hw }) (membus_given dir xfer rc) rc

  -- finish_dma_buffer copies the data to a buffer of user space, for a transfer that completes.
  abbrev pub dma_given : (user : Bool) → Direction → Transfer → Result ℕ → Given
  dma_given true Direction.up_stream xfer (ok ticket) = data_at xfer.system xfer.size
  dma_given true Direction.up_stream xfer (err e) = nothing
  dma_given true Direction.down_stream xfer rc = nothing
  dma_given true Direction.other xfer rc = nothing
  dma_given false dir xfer rc = nothing

  unfoldable pub dma_xfer :
      Driver Hw → (addr : ℕ) (user : Bool) → Direction → Transfer → Begin → Reply Hw
  dma_xfer s addr user dir xfer b =
      let o = do_dma_start_xfer b.answers user b.frame s.count b.now addr s.ctl s.saved xfer dir in
      reply (record s { ctl = o.ctl; count = o.count; saved = o.saved; xfers = o.xfers })
        (dma_given user dir xfer o.result) o.result

  abbrev pub hw_reply : Driver Hw → Hw × Result ℕ → Reply Hw
  hw_reply s (hw, rc) = reply (record s { hw = hw }) nothing rc

  -- `addr` is the address of the user's handle, the cookie of the transfer.
  unfoldable pub bifrost_do_xfer :
      Driver Hw → (addr : ℕ) (user : Bool) → Direction → Option Transfer → Begin → Reply Hw
  unfolding membus_buffered dma_xfer
  bifrost_do_xfer s addr user dir none b = reply s nothing (err efault)
  bifrost_do_xfer s addr user dir (some xfer) b =
      if s.device.membus
      then membus_reply s dir xfer
          (membus_buffered s.device xfer dir (copies.kcalloc s.hw xfer.size))
      else dma_xfer s addr user dir xfer b

  -- `mset` does nothing on the hardware, and returns 0.
  unfoldable pub do_set_mode : Driver Hw → Access → Reply Hw
  do_set_mode s a = elim (check_bar_access fvd s.device a.bar ev_access a.offset) [
    | err e ↦ reply s nothing (err e)
    | ok _ ↦ reply s nothing (ok 0)
  ]

  -- The commands, for the handle at `addr`.
  unfoldable pub dispatch : Driver Hw → (addr : ℕ) → Command → Reply Hw
  unfolding bifrost_do_xfer do_set_mode
  dispatch s addr (info true) = reply s version (ok 0)
  dispatch s addr (info false) = reply s nothing (err efault)
  dispatch s addr (read_regb none put) = reply s nothing (err enomem)
  dispatch s addr (read_regb (some a) put) =
      value_reply s put (do_read_regb io fvd s.hw s.device a.bar a.offset)
  dispatch s addr (read_range_regb a memory put) =
      values_reply s (ioc_read_range io fvd s.device 4 a memory put s.hw)
  dispatch s addr (read_repeat_regb a memory put) =
      values_reply s (ioc_read_range io fvd s.device 0 a memory put s.hw)
  dispatch s addr (write_regb none) = reply s nothing (err enomem)
  dispatch s addr (write_regb (some a)) =
      hw_reply s (do_write_regb io fvd s.hw s.device a.bar a.offset a.value)
  dispatch s addr (write_repeat_regb a memory user missing) =
      hw_reply s (ioc_write_repeat io fvd s.device a memory user missing s.hw)
  dispatch s addr (modify_regb none put) = reply s nothing (err efault)
  dispatch s addr (modify_regb (some m) put) =
      value_reply s put (do_modify_regb io fvd s.hw s.device m.bar m.offset m.clear m.set)
  dispatch s addr (start_dma user dir xfer b) = bifrost_do_xfer s addr user dir xfer b
  dispatch s addr (enable_event mask) =
      reply (with_handle (λ h. record h { event_enable_mask = mask }) addr s) nothing (ok 0)
  dispatch s addr (irq_forwarding mask) =
      reply (with_handle (λ h. record h { irq_forwarding_mask = mask }) addr s) nothing (ok 0)
  dispatch s addr (dequeue forwarded put) =
      event_reply (with_handle (λ h. (dequeue_event h).0) addr s) forwarded put
        (dequeued (handle_at addr s.device.handles))
  dispatch s addr (set_regb_mode none) = reply s nothing (err enomem)
  dispatch s addr (set_regb_mode (some a)) = do_set_mode s a
  dispatch s addr reset_dma = reply s nothing (ok 0)
  dispatch s addr other = reply s nothing (err enotty)

  -- `stats.ioctls` is counted before the command, in an `unsigned long`.
  unfoldable pub bifrost_unlocked_ioctl : Arch → Driver Hw → (addr : ℕ) → Command → Reply Hw
  unfolding dispatch
  bifrost_unlocked_ioctl arch s addr c =
      let stats = s.device.stats in
      dispatch
        (record s {
          device = record s.device {
            stats = record stats { ioctls = (stats.ioctls + 1) % arch.ulong };
          };
        })
        addr c
