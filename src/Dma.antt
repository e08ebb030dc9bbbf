-- ===== src/Dma.antt =====
-- The DMA engine of bifrost/bifrost_dma.c: requests, channels, the queue of waiting requests, and
-- what an interrupt does. The callback `start_xfer` and its `data` are the list of calls that an
-- operation makes. Here an operation runs on its own; Dma/Smp has its pieces, the sections under the
-- spin lock and the kick-offs after them, with others in between.
pub mod Channels
pub mod Invariant
pub mod Weight
pub mod Ready
pub mod Drain
pub mod Round
pub mod Disabled
pub mod Conserved
pub mod History
pub mod Smp
pub mod Dispatch
pub mod Tickets
mod Tests
use bifrost_module.Base.{
  ℕ, zero, suc, ◌+◌, ◌-◌, ◌%◌, ◌^◌, min, Bool, true, false, Option, none, some, List, [], ◌∷◌, ◌++◌,
  Result, ok, err, einval, ◌==◌, if◌then◌else◌, update, ffs, set_bit, clear_bit, bit_and,
}
use bifrost_module.Stats.{Stats, Arch, add_stats}

abbrev pub max_dma_channels : ℕ
max_dma_channels = 32

-- `struct dma_req`. `cookie` is the address of a user handle, `ts` the start time in ns, and
-- `pwork` the address of a completion.
pub record Req : Type 0 where
  pub src : ℕ
  pub dst : ℕ
  pub len : ℕ
  pub dir : ℕ
  pub ticket : ℕ
  pub cookie : ℕ
  pub ts : ℕ
  pub pwork : Option ℕ

pub record Ch : Type 0 where
  pub irq : ℕ
  pub in_progress : Option Req

pub record Ctl : Type 0 where
  pub list : List Req
  pub num_ch : ℕ
  pub idle_bitmap : ℕ
  pub ch : ℕ → Ch

-- A call of `start_xfer`.
pub record Xfer : Type 0 where
  pub chan : ℕ
  pub src : ℕ
  pub dst : ℕ
  pub len : ℕ
  pub dir : ℕ

-- The difference of two times as the bit pattern of an `s64`.
pub get_xfer_time_ns : ℕ → ℕ → ℕ
get_xfer_time_ns start stop = (stop + 2 ^ 64 - start) % 2 ^ 64

set_in_progress : Ctl → ℕ → Option Req → Ctl
set_in_progress ctl ch r = record ctl {
  ch = update ctl.ch ch (record (ctl.ch ch) { in_progress = r });
}

-- The request is reached through the channel that holds it, so the time stamp is stored there.
pub kick_off_xfer : Ctl → ℕ → Req → ℕ → Ctl × List Xfer
unfolding set_in_progress
kick_off_xfer ctl ch req now = (
  set_in_progress ctl ch (some (record req { ts = now })),
  record { chan = ch; src = req.src; dst = req.dst; len = req.len; dir = req.dir } ∷ [],
)

-- The static counter, a `u32`, and the ticket.
unfoldable pub get_ticket : ℕ → ℕ × ℕ
get_ticket count = let next = (count + 1) % 2 ^ 32 in (next, bit_and next 0x7fffffff)

-- The argument is `ffs(ctl->idle_bitmap)`; `none` is -EBUSY.
take_chan : Ctl → ℕ → Ctl × Option ℕ
take_chan ctl zero = (ctl, none)
take_chan ctl (suc ch) = (record ctl { idle_bitmap = clear_bit ctl.idle_bitmap ch }, some ch)

unfoldable pub find_1st_idle_chan : Ctl → Ctl × Option ℕ
unfolding take_chan
find_1st_idle_chan ctl = take_chan ctl (ffs ctl.idle_bitmap)

pub free_chan : Ctl → ℕ → Ctl
free_chan ctl ch = record ctl { idle_bitmap = set_bit ctl.idle_bitmap ch }

-- The loop of `lookup_chan`, with `left` rounds to go.
lookup_from : (ℕ → Ch) → ℕ → ℕ → ℕ → Option ℕ
lookup_from ch irq zero n = none
lookup_from ch irq (suc left) n =
    if (ch n).irq == irq then some n else lookup_from ch irq left (n + 1)

-- `none` is -EINVAL.
unfoldable pub lookup_chan : Ctl → ℕ → Option ℕ
unfolding lookup_from
lookup_chan ctl irq = lookup_from ctl.ch irq ctl.num_ch 0

-- The first argument says whether `kzalloc` gives memory.
unfoldable pub alloc_dma_ctl : Bool → ℕ → ℕ → Option Ctl
alloc_dma_ctl false num_ch idle_map = none
alloc_dma_ctl true num_ch idle_map = some (record {
  list = [];
  num_ch = min num_ch max_dma_channels;
  idle_bitmap = idle_map;
  ch = λ _. record { irq = 0; in_progress = none };
})

unfoldable pub enable_dma_ch : Ctl → ℕ → ℕ → Ctl
enable_dma_ch ctl ch irq = record ctl { ch = update ctl.ch ch (record (ctl.ch ch) { irq = irq }) }

-- The ticket counter goes through; `none` is a NULL request.
unfoldable pub alloc_dma_req : Bool → ℕ → ℕ → ℕ × Option Req
unfolding get_ticket
alloc_dma_req false count cookie = (count, none)
alloc_dma_req true count cookie = (
  (get_ticket count).0,
  some (record {
    src = 0;
    dst = 0;
    len = 0;
    dir = 0;
    ticket = (get_ticket count).1;
    cookie = cookie;
    ts = 0;
    pwork = none;
  }),
)

-- The locked section of start_dma_xfer, after the search for a channel: the request gets the channel,
-- which is to be kicked off, or waits.
abbrev start_locked : Ctl × Option ℕ → Req → Ctl × Option (ℕ × Req)
start_locked (ctl, none) req = (record ctl { list = ctl.list ++ req ∷ [] }, none)
start_locked (ctl, some ch) req = (set_in_progress ctl ch (some req), some (ch, req))

-- The kick-off that may follow a locked section, after the lock is given back.
abbrev kicked : Ctl × Option (ℕ × Req) → ℕ → Ctl × List Xfer
kicked (ctl, none) now = (ctl, [])
kicked (ctl, some (ch, req)) now = kick_off_xfer ctl ch req now

start_on : Ctl × Option ℕ → Req → ℕ → Ctl × List Xfer
start_on f req now = kicked (start_locked f req) now

-- The return value is always 0.
unfoldable pub start_dma_xfer : Ctl → Req → ℕ → Ctl × List Xfer
unfolding start_on kick_off_xfer set_in_progress
start_dma_xfer ctl req now = start_on (find_1st_idle_chan ctl) req now

-- What the interrupt handler learns of the request that has ended.
pub record Done : Type 0 where
  pub cookie : ℕ
  pub ticket : ℕ
  pub time : ℕ
  pub completed : Option ℕ

-- The locked section of dma_done: the channel goes to the request that has waited longest, and is to
-- be kicked off, or becomes idle.
abbrev next_locked : List Req → Ctl → ℕ → Ctl × Option (ℕ × Req)
next_locked [] ctl ch = (free_chan ctl ch, none)
next_locked (req ∷ rest) ctl ch =
    (set_in_progress (record ctl { list = rest }) ch (some req), some (ch, req))

next_on : List Req → Ctl → ℕ → ℕ → Ctl × List Xfer
next_on l ctl ch now = kicked (next_locked l ctl ch) now

pub record Outcome : Type 0 where
  pub ctl : Ctl
  pub stats : Stats
  pub xfers : List Xfer
  pub result : Result Done

spurious : Ctl → Stats → Outcome
spurious ctl stats = record { ctl = ctl; stats = stats; xfers = []; result = err einval }

finish : Arch → Ctl → ℕ → Req → (stop start : ℕ) → Stats → Outcome
unfolding next_on kick_off_xfer set_in_progress free_chan
finish a ctl ch req stop start stats =
    let time = get_xfer_time_ns req.ts stop in
    let (ctl', xfers) = next_on ctl.list (set_in_progress ctl ch none) ch start in
    record {
      ctl = ctl';
      stats = if stats.enabled then add_stats a stats req.len req.dir time else stats;
      xfers = xfers;
      result =
          ok (record {
            cookie = req.cookie;
            ticket = req.ticket;
            time = time;
            completed = req.pwork;
          });
    }

pub done_req : Option Req → Arch → Ctl → ℕ → (stop start : ℕ) → Stats → Outcome
unfolding spurious finish
done_req none a ctl ch stop start stats = spurious ctl stats
done_req (some req) a ctl ch stop start stats = finish a ctl ch req stop start stats

done_chan : Option ℕ → Arch → Ctl → (stop start : ℕ) → Stats → Outcome
unfolding done_req
done_chan none a ctl stop start stats = spurious ctl stats
done_chan (some ch) a ctl stop start stats =
    done_req (ctl.ch ch).in_progress a ctl ch stop start stats

-- `stop` is the time at the interrupt, `start` the time at which the next transfer is kicked off.
pub dma_done : Arch → Ctl → (irq stop start : ℕ) → Stats → Outcome
unfolding done_chan lookup_chan
dma_done a ctl irq stop start stats = done_chan (lookup_chan ctl irq) a ctl stop start stats
