-- ===== src/Memories.antt =====
-- The memories of a device, `regb` of `struct bifrost_device`: how bifrost/bifrost_pci.c and
-- bifrost/bifrost_membus.c map and unmap them. Both files have functions of these names; a bus is the
-- choice of the file. A mapping is a resource of the bus's kind whose number is the BAR.
pub mod Regions
pub mod Access
mod Tests
use bifrost_module.Base.{
  ℕ, zero, suc, ◌+◌, ◌*◌, ◌^◌, Bool, true, false, List, [], ◌∷◌, ◌++◌, leb, ◌==◌, if◌then◌else◌,
  Result, ok, err, einval, efault, update,
}
use bifrost_module.Device.{Accessors, Memory}
use bifrost_module.Startup.{resource, Act, take, give, is_zero}

-- What `map_device_memory` leaves: the memory, what was mapped, and its return value.
pub record Mapped : Type 0 where
  pub memory : Memory
  pub acts : List Act
  pub result : Result ℕ

pub record Bus : Type 0 where
  pub kind : ℕ
  pub init_device_memory : ℕ → Memory
  pub map_device_memory : Memory → Mapped

-- The end of both functions, with the address that the kernel gives; NULL is 0.
abbrev pub mapped_at : (kind addr : ℕ) → Memory → Mapped
mapped_at kind addr mem =
    if addr == 0
    then record { memory = record mem { addr = addr }; acts = []; result = err efault }
    else record {
      memory = record mem { addr = addr; enabled = true };
      acts = take (resource kind mem.bar) ∷ [];
      result = ok 0;
    }

-- What the kernel says of the BARs of a PCI device: pci_resource_start, pci_resource_flags,
-- pci_resource_len and pci_iomap.
pub record Resources : Type 0 where
  pub start : ℕ → ℕ
  pub flags : ℕ → ℕ
  pub len : ℕ → ℕ
  pub iomap : ℕ → ℕ

abbrev pub pci_init_device_memory : Resources → ℕ → Memory
pci_init_device_memory r n = record {
  bar = n;
  enabled = false;
  addr_bus = r.start n;
  size = r.len n;
  flags = r.flags n;
  addr = 0;
  accessors = Accessors.pci;
}

abbrev pub pci_map_device_memory : Resources → Memory → Mapped
pci_map_device_memory r mem =
    if mem.size == 0
    then record { memory = mem; acts = []; result = err einval }
    else mapped_at 35 (r.iomap mem.bar) mem

abbrev pub pci_bus : Resources → Bus
pci_bus r = record {
  kind = 35;
  init_device_memory = pci_init_device_memory r;
  map_device_memory = pci_map_device_memory r;
}

abbrev pub size_4k : ℕ
size_4k = 0x1000

abbrev pub cs0_base_addr : ℕ
cs0_base_addr = 0x08000000

abbrev pub membus_init_device_memory : ℕ → Memory
membus_init_device_memory n = record {
  bar = n;
  enabled = false;
  addr_bus = 0;
  size = size_4k;
  flags = 0;
  addr = 0;
  accessors = Accessors.membus;
}

-- `ioremap` answers by the bus address.
abbrev pub membus_map_device_memory : (ioremap : ℕ → ℕ) → Memory → Mapped
membus_map_device_memory ioremap mem =
    if mem.size == 0
    then record { memory = mem; acts = []; result = err einval }
    else (if leb 2 mem.bar
        then record { memory = mem; acts = []; result = err einval }
        else mapped_at 10 (ioremap (cs0_base_addr + mem.bar * 0x02000000))
            (record mem { addr_bus = cs0_base_addr + mem.bar * 0x02000000 }))

abbrev pub membus : (ioremap : ℕ → ℕ) → Bus
membus ioremap = record {
  kind = 10;
  init_device_memory = membus_init_device_memory;
  map_device_memory = membus_map_device_memory ioremap;
}

-- `regb` after a loop over it, what the loop mapped or unmapped, and its count.
pub record IoRegions : Type 0 where
  pub regb : ℕ → Memory
  pub acts : List Act
  pub nbars : ℕ

-- The loops, with `left` rounds to go.
pub setup_from : Bus → (left n : ℕ) → (ℕ → Memory) → IoRegions
setup_from b zero n regb = record { regb = regb; acts = []; nbars = 0 }
setup_from b (suc left) n regb =
    let m = b.map_device_memory (b.init_device_memory n) in
    let rest = setup_from b left (n + 1) (update regb n m.memory) in
    record {
      regb = rest.regb;
      acts = m.acts ++ rest.acts;
      nbars = (if is_zero m.result then 1 else 0) + rest.nbars;
    }

unfoldable pub setup_io_regions : Bus → (ℕ → Memory) → IoRegions
unfolding setup_from
setup_io_regions b regb = setup_from b 6 0 regb

abbrev pub unmap_device_memory : Bus → Memory → Memory × List Act
unmap_device_memory b mem = (
  record mem { enabled = false },
  if mem.enabled then give (resource b.kind mem.bar) ∷ [] else [],
)

pub remove_from : Bus → (left n : ℕ) → (ℕ → Memory) → IoRegions
remove_from b zero n regb = record { regb = regb; acts = []; nbars = 0 }
remove_from b (suc left) n regb =
    let (mem, acts) = unmap_device_memory b (regb n) in
    let rest = remove_from b left (n + 1) (update regb n mem) in
    record rest { acts = acts ++ rest.acts }

unfoldable pub remove_io_regions : Bus → (ℕ → Memory) → IoRegions
unfolding remove_from
remove_io_regions b regb = remove_from b 6 0 regb

-- On an FVD, bifrost_pci_probe gives BAR 0 the accessors of the memory bus.
unfoldable pub patch_accessors : (fvd : Bool) → (ℕ → Memory) → ℕ → Memory
patch_accessors true regb = update regb 0 (record (regb 0) { accessors = Accessors.membus })
patch_accessors false regb = regb
