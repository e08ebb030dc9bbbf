-- ===== src/Startup/BifrostInit.antt =====
-- bifrost_init and bifrost_exit of bifrost/bifrost_main.c, with the initialisation of the character
-- device (bifrost/bifrost_cdev.c) and of the memory bus (bifrost/bifrost_membus.c). The PCI driver is
-- registered here; its probe is called by the kernel.
use bifrost_module.Base.{
  ℕ, zero, suc, ◌+◌, Bool, true, false, List, [], ◌∷◌, ◌++◌, ltb, if◌then◌else◌, Result, ok, err,
  enomem, enodev,
}
use bifrost_module.Startup.{Resource, resource, Act, Trace, take, give, after, is_zero}
use bifrost_module.Startup.Each.{take_each, give_each}

-- The buffer of the DMA transfers, which initialisation does not take.
abbrev pub saved_dma_buf : Resource
saved_dma_buf = resource 11 0

abbrev pub device_memory : Resource
device_memory = resource 0 0

abbrev pub work_pool : Resource
work_pool = resource 1 0

abbrev pub work_queue : Resource
work_queue = resource 2 0

abbrev pub pci_driver : Resource
pci_driver = resource 3 0

abbrev pub platform_device : Resource
platform_device = resource 4 0

abbrev pub device_number : Resource
device_number = resource 5 0

abbrev pub char_device : Resource
char_device = resource 6 0

abbrev pub device_class : Resource
device_class = resource 7 0

abbrev pub device_node : Resource
device_node = resource 8 0

-- The kernel's answers, and the module parameter. `ret` and `rc` are the values of the variables of
-- that name that bifrost_init and bifrost_fvd_init do not initialise. The pins and interrupts of
-- bifrost_fvd_init belong to the platform device; the results of class_create and device_create
-- are not tested, and here they succeed.
pub record Answers : Type 0 where
  pub membus : Bool
  pub memory : Bool
  pub pool : Bool
  pub queue : Bool
  pub ret : Result ℕ
  pub mapped : ℕ → Bool
  pub platform : Bool
  pub rc : Result ℕ
  pub valid : ℕ → Bool
  pub request_irq : ℕ → Result ℕ
  pub register_driver : Result ℕ
  pub alloc_region : Result ℕ
  pub add_cdev : Result ℕ

-- `mem->bar >= 2` is not mapped; the kind of a mapped memory is 10.
abbrev pub maps : Answers → ℕ → Bool
maps a n = if ltb n 2 then a.mapped n else false

abbrev pub setup_io_regions : Answers → List Act
setup_io_regions a = take_each 10 (maps a) 6 0

abbrev pub remove_io_regions : Answers → List Act
remove_io_regions a = give_each 10 (maps a) 6 0

-- The number of memories that are mapped.
abbrev pub count : (ℕ → Bool) → (n i : ℕ) → ℕ
count found zero i = 0
count found (suc n) i = (if found i then 1 else 0) + count found n (i + 1)

-- The request of the interrupt `n`, then `next`; `rc` is what the variable holds before.
abbrev pub request : Answers → (n : ℕ) → Result ℕ → Trace → Trace
request a n rc next =
    if a.valid n
    then (if is_zero (a.request_irq n) then next else (give platform_device ∷ [], a.request_irq n))
    else (give platform_device ∷ [], rc)

unfoldable pub bifrost_fvd_init : Answers → Trace
bifrost_fvd_init a =
    if a.platform
    then after (take platform_device ∷ [])
        (request a 0 a.rc (request a 1 (ok 0) (request a 2 (ok 0) ([], ok 0))))
    else ([], a.rc)

unfoldable pub bifrost_fvd_exit : List Act
bifrost_fvd_exit = give platform_device ∷ []

-- What is returned after `t`, with the memories mapped.
abbrev pub mapped_init : Answers → Trace → Trace
mapped_init a (acts, rc) =
    if is_zero rc then (acts, ok 0) else (acts ++ remove_io_regions a, err enodev)

unfoldable pub bifrost_membus_init : Answers → Trace
unfolding bifrost_fvd_init
bifrost_membus_init a =
    if ltb (count (maps a) 6 0) 2
    then (setup_io_regions a ++ remove_io_regions a, err enodev)
    else after (setup_io_regions a) (mapped_init a (bifrost_fvd_init a))

unfoldable pub bifrost_membus_exit : Answers → List Act
unfolding bifrost_fvd_exit
bifrost_membus_exit a = remove_io_regions a ++ bifrost_fvd_exit

unfoldable pub bifrost_pci_init : Answers → Trace
bifrost_pci_init a =
    if is_zero a.register_driver then (take pci_driver ∷ [], ok 0) else ([], a.register_driver)

unfoldable pub bifrost_pci_exit : List Act
bifrost_pci_exit = give pci_driver ∷ []

unfoldable pub bifrost_cdev_init : Answers → Trace
bifrost_cdev_init a = elim a.alloc_region [
  | err e ↦ ([], err e)
  | ok _ ↦
      if is_zero a.add_cdev
      then (take device_number ∷ take char_device ∷ take device_class ∷ take device_node ∷ [], ok 0)
      else (take device_number ∷ give device_number ∷ [], a.add_cdev)
]

-- `saved` says whether there is a saved DMA buffer.
unfoldable pub bifrost_cdev_exit : (cdev_initialized saved : Bool) → List Act
bifrost_cdev_exit false saved = []
bifrost_cdev_exit true saved =
    (if saved then give saved_dma_buf ∷ [] else [])
    ++ give device_node ∷ give device_class ∷ give char_device ∷ give device_number ∷ []

-- The labels at the end of bifrost_init.
abbrev pub err_alloc_pool : List Act
err_alloc_pool = give device_memory ∷ []

abbrev pub err_alloc_queue : List Act
err_alloc_queue = give work_pool ∷ err_alloc_pool

abbrev pub err_pci : List Act
err_pci = give work_queue ∷ err_alloc_queue

-- The end, after bifrost_cdev_init, and after the bus.
abbrev pub cdev_done : Answers → Trace → Trace
cdev_done a (acts, rc) = if is_zero rc then (acts, ok 0) else (acts ++ err_pci, a.ret)

abbrev pub bus_done : Answers → Trace → Trace → Trace
bus_done a (acts, rc) next = if is_zero rc then after acts next else (acts ++ err_pci, a.ret)

unfoldable pub with_queue : Answers → Trace
unfolding bifrost_membus_init bifrost_pci_init bifrost_cdev_init
with_queue a =
    bus_done a (if a.membus then bifrost_membus_init a else bifrost_pci_init a)
      (cdev_done a (bifrost_cdev_init a))

unfoldable pub bifrost_init : Answers → Trace
unfolding with_queue
bifrost_init a =
    if a.memory
    then after (take device_memory ∷ []) (
        if a.pool
        then after (take work_pool ∷ []) (
            if a.queue
            then after (take work_queue ∷ []) (with_queue a)
            else (err_alloc_queue, err enomem))
        else (err_alloc_pool, err enomem))
    else ([], err enomem)

-- The exit after an initialisation that succeeded, which sets `cdev_initialized`, with no transfer in
-- between, so that there is no saved buffer.
unfoldable pub bifrost_exit : Answers → List Act
unfolding bifrost_cdev_exit bifrost_membus_exit bifrost_pci_exit
bifrost_exit a =
    bifrost_cdev_exit true false
    ++ (if a.membus then bifrost_membus_exit a else bifrost_pci_exit)
    ++ give work_queue ∷ give work_pool ∷ give device_memory ∷ []
