-- ===== src/UserDma.antt =====
-- DMA transfers from and to buffers of user space, bifrost/bifrost_cdev.c: the DMA buffer that is
-- kept between transfers, a transfer's preparation and end, and its start. What the kernel's calls
-- answer is an argument, and the calls that hold resources are recorded.
pub mod Begin
pub mod Buffer
pub mod Start
pub mod Round
pub mod Late
mod Tests
use bifrost_module.Base.{
  ℕ, zero, suc, ◌+◌, Bool, true, false, Option, none, some, List, [], ◌∷◌, ◌++◌, ltb, ◌==◌,
  if◌then◌else◌, Result, ok, err, enomem, efault, einval, etimedout,
}
use bifrost_module.Stats.{dir_strm_down, dir_strm_up}
use bifrost_module.Dma.{Req, Ctl, Xfer, alloc_dma_req, start_dma_xfer}

-- `struct bifrost_dma_transfer`
pub record Transfer : Type 0 where
  pub system : ℕ
  pub device : ℕ
  pub size : ℕ

-- BIFROST_DMA_DIRECTION_UP, BIFROST_DMA_DIRECTION_DOWN, and any other value.
pub data Direction : Type 0 where
  up_stream down_stream other : Direction

-- `saved_dma_buf`; a NULL `virt` is `none`.
pub record Saved : Type 0 where
  pub size : ℕ
  pub phy : ℕ
  pub virt : Option ℕ

-- `struct dma_usr_req`; its completion is known by the address of the structure.
pub record UsrReq : Type 0 where
  pub usr_buff : ℕ
  pub dev_buff : Option ℕ
  pub size : ℕ
  pub bus_addr : ℕ
  pub up_down : Direction

-- What the kernel's calls answer: the memory of `kzalloc`, the addresses (virtual and physical) of
-- `dma_alloc_coherent`, whether `copy_from_user` and `copy_to_user` succeed, the bus address of
-- `pci_map_single` (0 if it fails), and whether the completion came before the timeout.
pub record Answers : Type 0 where
  pub memory : Bool
  pub coherent : Option (ℕ × ℕ)
  pub copied_in : Bool
  pub bus : ℕ
  pub completed : Bool
  pub copied_out : Bool

-- The calls that take and give back resources.
pub data Call : Type 0 where
  dma_free_coherent : (size : ℕ) (virt : ℕ) (phy : ℕ) → Call
  dma_alloc_coherent : (size : ℕ) (virt : ℕ) (phy : ℕ) → Call
  pci_map_single : (virt : Option ℕ) (size bus : ℕ) → Call
  pci_unmap_single : (bus size : ℕ) → Call

free_old : Saved → List Call
free_old s = elim s.virt [ none ↦ [] | some v ↦ dma_free_coherent s.size v s.phy ∷ [] ]

-- The buffer for a transfer of a size: it is replaced if it is too small. The Boolean says whether
-- there is a buffer.
grow_buffer : Answers → Saved → ℕ → Saved × List Call × Bool
unfolding free_old
grow_buffer k s size =
    if ltb s.size size
    then elim k.coherent [
      | none ↦ (record s { size = 0; virt = none }, free_old s, false)
      | some (virt, phy) ↦ (
        record { size = size; phy = phy; virt = some virt },
        free_old s ++ dma_alloc_coherent size virt phy ∷ [],
        true,
      )
    ]
    else (s, [], true)

-- The bus address, 0 if there is none, and the call that gave it.
map_buffer : Answers → Saved → Direction → ℕ → ℕ × List Call
map_buffer k s Direction.down_stream size =
    if k.copied_in then (k.bus, pci_map_single s.virt size k.bus ∷ []) else (0, [])
map_buffer k s Direction.up_stream size = (k.bus, pci_map_single s.virt size k.bus ∷ [])
map_buffer k s Direction.other size = (0, [])

pub record Prepared : Type 0 where
  pub saved : Saved
  pub calls : List Call
  pub xfer : Transfer
  pub req : Req
  pub usr_req : UsrReq
  pub result : Result ℕ

pub empty_usr_req : Direction → UsrReq
empty_usr_req up_down = record {
  usr_buff = 0;
  dev_buff = none;
  size = 0;
  bus_addr = 0;
  up_down = up_down;
}

-- The bus address is stored as an `unsigned long`.
prepare_mapped :
    ℕ × List Call → Saved → List Call → Transfer → Req → Direction → (frame : ℕ) → Prepared
prepare_mapped (bus, more) s calls xfer req up_down frame =
    let usr_req : UsrReq = record {
      usr_buff = xfer.system;
      dev_buff = s.virt;
      size = xfer.size;
      bus_addr = bus;
      up_down = up_down;
    } in
    record {
      saved = s;
      calls = calls ++ more;
      xfer = if bus == 0 then xfer else record xfer { system = bus };
      req = record req { pwork = some frame };
      usr_req = usr_req;
      result = if bus == 0 then err enomem else ok 0;
    }

prepare_grown :
    Answers → Saved × List Call × Bool → Transfer → Req → Direction → (frame : ℕ) → Prepared
unfolding map_buffer prepare_mapped
prepare_grown k (s, calls, false) xfer req up_down frame = record {
  saved = s;
  calls = calls;
  xfer = xfer;
  req = req;
  usr_req = record (empty_usr_req up_down) { size = xfer.size };
  result = err enomem;
}
prepare_grown k (s, calls, true) xfer req up_down frame =
    prepare_mapped (map_buffer k s up_down xfer.size) s calls xfer req up_down frame

-- `frame` is the address of the `struct dma_usr_req` on the caller's stack.
pub prepare_dma_buffer : Answers → Saved → Transfer → Req → Direction → (frame : ℕ) → Prepared
unfolding grow_buffer prepare_grown empty_usr_req
prepare_dma_buffer k s xfer req up_down frame =
    if xfer.size == 0
    then record {
      saved = s;
      calls = [];
      xfer = xfer;
      req = req;
      usr_req = empty_usr_req up_down;
      result = err efault;
    }
    else prepare_grown k (grow_buffer k s xfer.size) xfer req up_down frame

-- The end of a transfer; the error of a failed copy is -ETIMEDOUT also.
pub finish_dma_buffer : Answers → UsrReq → List Call × Result ℕ
finish_dma_buffer k u =
    if k.completed
    then elim u.up_down [
      | Direction.down_stream ↦ (pci_unmap_single u.bus_addr u.size ∷ [], ok 0)
      | Direction.up_stream ↦
          (pci_unmap_single u.bus_addr u.size ∷ [], if k.copied_out then ok 0 else err etimedout)
      | Direction.other ↦ ([], ok 0)
    ]
    else ([], err etimedout)
