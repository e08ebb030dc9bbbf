-- ===== src/Cdev/Codes.antt =====
-- The numbers of the ioctl commands, bifrost/bifrost_api.h, and the cases of bifrost_unlocked_ioctl.
use bifrost_module.Base.{
  ℕ, Bool, true, false, Option, none, some, List, [], ◌∷◌, ◌==◌, if◌then◌else◌,
}
use bifrost_module.UserDma.{Direction}
use bifrost_module.Cdev.{Command}

pub data Code : Type 0 where
  info read_regb read_range_regb read_repeat_regb write_regb write_repeat_regb modify_regb : Code
  start_dma_up start_dma_down start_dma_down_user start_dma_up_user : Code
  enable_event irq_forwarding dequeue_event set_regb_mode reset_dma : Code

-- What a number says of the command's argument: whether the driver writes it for the user to read,
-- and whether it reads what the user wrote. `io` is _IO, and so on.
pub data Macro : Type 0 where
  io ior iow iowr : Macro

abbrev pub user_reads : Macro → Bool
user_reads Macro.io = false
user_reads Macro.ior = true
user_reads Macro.iow = false
user_reads Macro.iowr = true

-- The type of the argument.
pub data Argument : Type 0 where
  nothing bifrost_info bifrost_access bifrost_access_range bifrost_modify : Argument
  bifrost_dma_transfer bifrost_event u32 : Argument

-- The kernel's macros: a number from the macro, the magic, the number of the command and the type of
-- the argument, whose size it takes; _IOC_NR and _IOC_DIR, which take them out again.
pub record Ioc : Type 0 where
  pub ioc : Macro → (magic nr : ℕ) → Argument → ℕ
  pub nr_of : ℕ → ℕ
  pub macro_of : ℕ → Macro

-- 'B'
abbrev pub bifrost_ioc_magic : ℕ
bifrost_ioc_magic = 0x42

abbrev pub nr : Code → ℕ
nr Code.info = 0
nr Code.read_regb = 1
nr Code.write_regb = 2
nr Code.modify_regb = 3
nr Code.read_range_regb = 4
nr Code.read_repeat_regb = 5
nr Code.write_repeat_regb = 6
nr Code.start_dma_up = 10
nr Code.start_dma_down = 11
nr Code.start_dma_down_user = 12
nr Code.start_dma_up_user = 13
nr Code.enable_event = 20
nr Code.irq_forwarding = 21
nr Code.dequeue_event = 22
nr Code.set_regb_mode = 52
nr Code.reset_dma = 53

abbrev pub macro : Code → Macro
macro Code.info = Macro.ior
macro Code.read_regb = Macro.iowr
macro Code.read_range_regb = Macro.iowr
macro Code.read_repeat_regb = Macro.iowr
macro Code.write_regb = Macro.iow
macro Code.write_repeat_regb = Macro.iowr
macro Code.modify_regb = Macro.iowr
macro Code.start_dma_up = Macro.iow
macro Code.start_dma_down = Macro.iow
macro Code.start_dma_down_user = Macro.iow
macro Code.start_dma_up_user = Macro.iow
macro Code.enable_event = Macro.iow
macro Code.irq_forwarding = Macro.iow
macro Code.dequeue_event = Macro.ior
macro Code.set_regb_mode = Macro.iow
macro Code.reset_dma = Macro.io

abbrev pub argument : Code → Argument
argument Code.info = Argument.bifrost_info
argument Code.read_regb = Argument.bifrost_access
argument Code.read_range_regb = Argument.bifrost_access_range
argument Code.read_repeat_regb = Argument.bifrost_access_range
argument Code.write_regb = Argument.bifrost_access
argument Code.write_repeat_regb = Argument.bifrost_access_range
argument Code.modify_regb = Argument.bifrost_modify
argument Code.start_dma_up = Argument.bifrost_dma_transfer
argument Code.start_dma_down = Argument.bifrost_dma_transfer
argument Code.start_dma_down_user = Argument.bifrost_dma_transfer
argument Code.start_dma_up_user = Argument.bifrost_dma_transfer
argument Code.enable_event = Argument.u32
argument Code.irq_forwarding = Argument.u32
argument Code.dequeue_event = Argument.bifrost_event
argument Code.set_regb_mode = Argument.bifrost_access
argument Code.reset_dma = Argument.nothing

abbrev pub number : Ioc → Code → ℕ
number k c = k.ioc (macro c) bifrost_ioc_magic (nr c) (argument c)

-- The cases of the switch, in its order.
abbrev pub cases : List Code
cases =
    Code.info ∷ Code.read_regb ∷ Code.read_range_regb ∷ Code.read_repeat_regb ∷ Code.write_regb
    ∷ Code.write_repeat_regb ∷ Code.modify_regb ∷ Code.start_dma_up_user ∷ Code.start_dma_down_user
    ∷ Code.start_dma_up ∷ Code.start_dma_down ∷ Code.enable_event ∷ Code.irq_forwarding
    ∷ Code.dequeue_event ∷ Code.set_regb_mode ∷ Code.reset_dma ∷ []

-- `none` is the default.
unfoldable pub case_in : Ioc → List Code → (cmd : ℕ) → Option Code
case_in k [] cmd = none
case_in k (c ∷ cs) cmd = if number k c == cmd then some c else case_in k cs cmd

unfoldable pub case_of : Ioc → (cmd : ℕ) → Option Code
unfolding case_in
case_of k cmd = case_in k cases cmd

-- The case that makes a command.
abbrev pub dma_code : (user : Bool) → Direction → Option Code
dma_code true Direction.up_stream = some Code.start_dma_up_user
dma_code true Direction.down_stream = some Code.start_dma_down_user
dma_code false Direction.up_stream = some Code.start_dma_up
dma_code false Direction.down_stream = some Code.start_dma_down
dma_code user Direction.other = none

abbrev pub code_of : Command → Option Code
code_of (Command.info put) = some Code.info
code_of (Command.read_regb a put) = some Code.read_regb
code_of (Command.read_range_regb a memory put) = some Code.read_range_regb
code_of (Command.read_repeat_regb a memory put) = some Code.read_repeat_regb
code_of (Command.write_regb a) = some Code.write_regb
code_of (Command.write_repeat_regb a memory user missing) = some Code.write_repeat_regb
code_of (Command.modify_regb m put) = some Code.modify_regb
code_of (Command.start_dma user dir xfer b) = dma_code user dir
code_of (Command.enable_event mask) = some Code.enable_event
code_of (Command.irq_forwarding mask) = some Code.irq_forwarding
code_of (Command.dequeue forwarded put) = some Code.dequeue_event
code_of (Command.set_regb_mode a) = some Code.set_regb_mode
code_of Command.reset_dma = some Code.reset_dma
code_of Command.other = none
