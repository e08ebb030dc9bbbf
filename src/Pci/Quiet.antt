-- ===== src/Pci/Quiet.antt =====
-- The DMA engine from its set-up in bifrost/bifrost_pci.c, through any use, to rest.
use bifrost_module.Base.{
  ℕ, ◌+◌, ◌%◌, ◌^◌, ◌<◌, ◌≡◌, ◌⊎◌, sym, subst, ◌∙◌, true, some, List, [], ◌∷◌, length, bit-zero,
  arith,
}
use bifrost_module.Stats.{Stats, Arch}
use bifrost_module.Dma.{Ctl, start_dma_xfer, dma_done}
use bifrost_module.Dma.History.{Call, starts, interrupts, run}
use bifrost_module.Dma.Ready.{IsReady, start_dma_xfer-IsReady, dma_done-IsReady}
use bifrost_module.Dma.Drain.{Interrupt, Ends, AllEnd, AtRest, after, pending, after-AtRest}
use bifrost_module.Device.{Io, Device}
use bifrost_module.Regs.{rd}
use bifrost_module.Pci.{Platform, dma_bar, bifrost_dma_init, dma_capability, dma_status}
use bifrost_module.Pci.Setup.{IsSetUp, bifrost_dma_init-SetUp}

run-IsReady :
    (a : Arch) (ctl : Ctl) (stats : Stats) (cs : List Call)
    → IsReady ctl
    → IsReady (run a ctl stats cs).ctl
run-IsReady a ctl stats [] r = r
run-IsReady a ctl stats (starts req now ∷ cs) r =
    run-IsReady a (start_dma_xfer ctl req now).0 stats cs (start_dma_xfer-IsReady req now r)
run-IsReady a ctl stats (interrupts irq stop start ∷ cs) r =
    let o = dma_done a ctl irq stop start stats in
    run-IsReady a o.ctl o.stats cs (dma_done-IsReady a irq stop start stats r)

-- With at least one channel and no channel busy, a controller is set up ready.
SetUp-IsReady :
    (ctl : Ctl) (capability irq : ℕ)
    → 0 < capability % 2 ^ 4
    → IsSetUp ctl capability 0 irq
    → IsReady ctl
SetUp-IsReady ctl capability irq some_channel s = record {
  valid = s.valid;
  channels = omega (arith, s.num_ch, some_channel);
  own = λ i j hi hj e. omega (arith, s.irq_of i hi, s.irq_of j hj, e);
  above = λ i hi. s.nothing i;
  holding = λ i hi clear. absurd (clear ((s.idle i hi).1 (bit-zero i)));
}

some_injective : (x y : Ctl) → some x ≡ some y → x ≡ y
some_injective x y e = cc

-- Whatever the board, if the capability register names at least one channel and the status register
-- none as busy: take the controller that is set up, any history of starts and interrupts, and then
-- any interrupts each of which belongs to a transfer in progress. Either there were as many of these
-- as requests were held, and then nobody waits and every channel is empty and marked idle; or there
-- were fewer, those that are missing are held, and a transfer is in progress whose interrupt can
-- come.
pub bifrost_dma_init-AtRest :
    {Hw : Type 0} (io : Io Hw) (platform : Platform) (irq : ℕ) (d : Device) (hw : Hw)
    (capability : ℕ) (hw' hw'' : Hw) (ctl : Ctl) (a : Arch) (stats stats' : Stats) (cs : List Call)
    (xs : List Interrupt)
    → rd io hw (d.regb (dma_bar platform)) dma_capability ≡ (capability, hw')
    → rd io hw' (d.regb (dma_bar platform)) dma_status ≡ (0, hw'')
    → 0 < capability % 2 ^ 4
    → (bifrost_dma_init io platform true irq d hw).0.dma_ctl ≡ some ctl
    → AllEnd a (run a ctl stats cs).ctl stats' xs
    → let used = (run a ctl stats cs).ctl in
      let end = after a used stats' xs in
      ((length xs ≡ pending used) × AtRest end)
      ⊎ ((length xs < pending used)
          × (length xs + pending end ≡ pending used)
          × ((irq : ℕ) × Ends end irq))
bifrost_dma_init-AtRest io platform irq d hw capability hw' hw'' ctl a stats stats' cs xs first
      second some_channel e all =
    let (zero_returned, (made, there, s)) =
      bifrost_dma_init-SetUp io platform irq d hw capability 0 hw' hw'' first second
        (omega arith) in
    let ready : IsReady ctl =
      subst IsReady (some_injective made ctl (sym there ∙ e))
        (SetUp-IsReady made capability irq some_channel s) in
    after-AtRest a (run a ctl stats cs).ctl stats' xs (run-IsReady a ctl stats cs ready) all
