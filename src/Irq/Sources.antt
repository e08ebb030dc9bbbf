-- ===== src/Irq/Sources.antt =====
-- Which events an interrupt service creates.
use mathlib.Core.List.{append-nil}
use bifrost_module.Base.{
  ℕ, ◌%◌, ◌^◌, ◌≡◌, ◌≢◌, refl, sym, ◌∙◌, ap, Bool-cases, List, [], ◌∷◌, ◌++◌, ◌==◌, if◌then◌else◌,
  bit_and, arith, inl, inr,
}
use bifrost_module.Events.{Event, irq_source}
use bifrost_module.Device.{Io, Device}
use bifrost_module.Irq.{
  no_data, event_of, Service, part, fvd_irq1_service, serve_pending, execute_irq, hsi_irq,
  jpegls_irq, dio_irq, cable_irq, read,
}
use bifrost_module.Irq.Frames.{fvd_irq2_service, frame_of}

-- The sources of the events of a list.
abbrev pub sources : List Event → List ℕ
sources [] = []
sources (e ∷ es) = irq_source e.payload ∷ sources es

sources-append : (es fs : List Event) → sources (es ++ fs) ≡ sources es ++ sources fs
sources-append [] fs = refl
sources-append (e ∷ es) fs = ground (arith, sources-append es fs)

-- The source of a flag that is pending, and nothing otherwise.
abbrev pub if_pending : (pending flag source : ℕ) → List ℕ
if_pending pending flag source = if bit_and pending flag == 0 then [] else source ∷ []

-- A part that creates one event of its source.
abbrev Creates : {Hw : Type 0} → ℕ → (Service Hw → Service Hw) → Type 0
Creates {Hw} source body =
    (s : Service Hw) → sources (body s).events ≡ sources s.events ++ source ∷ []

-- The sources of the pending interrupts, in the order in which they are served.
abbrev pub pending_sources : ℕ → List ℕ
pending_sources pending =
    ((((if_pending pending 0x10 0x40) ++ if_pending pending 0x20 0x02)
        ++ if_pending pending 0x100 0x04)
      ++ if_pending pending 0x200 0x08)
    ++ if_pending pending 0x400 0x10

module _ {Hw : Type 0} (io : Io Hw) (d : Device) where
  execute_irq-Creates : Creates 0x40 (execute_irq io d)
  unfolding execute_irq event_of
  execute_irq-Creates s = sources-append s.events (event_of 0x40 s.content ∷ [])

  hsi_irq-Creates : Creates 0x02 (hsi_irq io d)
  unfolding hsi_irq event_of
  hsi_irq-Creates s = sources-append s.events (event_of 0x02 s.content ∷ [])

  jpegls_irq-Creates : (now : ℕ) → Creates 0x04 (jpegls_irq io d now)
  unfolding jpegls_irq event_of
  jpegls_irq-Creates now s = sources-append s.events _

  dio_irq-Creates : Creates 0x08 (dio_irq io d)
  unfolding dio_irq event_of
  dio_irq-Creates s = sources-append s.events _

  cable_irq-Creates : Creates 0x10 (cable_irq io d)
  unfolding cable_irq event_of
  cable_irq-Creates s = sources-append s.events _

  part-sources :
      (pending flag source : ℕ) (body : Service Hw → Service Hw) (s : Service Hw)
      → Creates source body
      → sources (part pending flag body s).events
        ≡ sources s.events ++ if_pending pending flag source
  unfolding part
  part-sources pending flag source body s c = elim (Bool-cases (bit_and pending flag == 0)) [
    | inl off ↦ rw off (sym (append-nil (sources s.events)))
    | inr on ↦ rw on (c s)
  ]

  serve_pending-sources :
      (pending now : ℕ) (s : Service Hw)
      → sources s.events ≡ []
      → sources (serve_pending io d pending now s).events ≡ pending_sources pending
  unfolding serve_pending
  serve_pending-sources pending now s none_yet =
      let s1 = part pending 0x10 (execute_irq io d) s in
      let s2 = part pending 0x20 (hsi_irq io d) s1 in
      let s3 = part pending 0x100 (jpegls_irq io d now) s2 in
      let s4 = part pending 0x200 (dio_irq io d) s3 in
      part-sources pending 0x400 0x10 (cable_irq io d) s4 cable_irq-Creates
      ∙ ap (λ l. l ++ if_pending pending 0x400 0x10)
          (part-sources pending 0x200 0x08 (dio_irq io d) s3 dio_irq-Creates
            ∙ ap (λ l. l ++ if_pending pending 0x200 0x08)
                (part-sources pending 0x100 0x04 (jpegls_irq io d now) s2 (jpegls_irq-Creates now)
                  ∙ ap (λ l. l ++ if_pending pending 0x100 0x04)
                      (part-sources pending 0x20 0x02 (hsi_irq io d) s1 hsi_irq-Creates
                        ∙ ap (λ l. l ++ if_pending pending 0x20 0x02)
                            (part-sources pending 0x10 0x40 (execute_irq io d) s execute_irq-Creates
                              ∙ ap (λ l. l ++ if_pending pending 0x10 0x40) none_yet))))

  -- The service of the first interrupt creates, whatever the hardware answers, one event for each of
  -- the five interrupts that the mask and the vector both show, and no other, in a fixed order:
  -- execute, HSI, JPEGLS, digital inputs, cable.
  pub fvd_irq1_service-sources :
      (now : ℕ) (hw : Hw)
      → let (mask, hw1) = read io d hw 0x38 in
        let (vector, hw2) = read io d hw1 0x37 in
        sources (fvd_irq1_service io d now hw).1 ≡ pending_sources (bit_and mask vector)
  unfolding fvd_irq1_service
  fvd_irq1_service-sources now hw =
      let (mask, hw1) = read io d hw 0x38 in
      let (vector, hw2) = read io d hw1 0x37 in
      serve_pending-sources (bit_and mask vector) now
        (record { hw = hw2; content = no_data; events = [] }) refl

  -- The service of the frame interrupt creates one event, of source 0x20, also for a camera of a type
  -- that it does not know, whose event has frame number and size 0, and for which it reads nothing but
  -- the type.
  pub fvd_irq2_service_other :
      (now : ℕ) (hw : Hw)
      → (read io d hw 0x23).0 % 2 ^ 16 ≢ 0x19
      → (read io d hw 0x23).0 % 2 ^ 16 ≢ 0x1f
      → (read io d hw 0x23).0 % 2 ^ 16 ≢ 0x2a
      → (read io d hw 0x23).0 % 2 ^ 16 ≢ 0x26
      → fvd_irq2_service io d now hw ≡ (
        (read io d hw 0x23).1,
        event_of 0x20 (record { value = 0; frame_size = 0; frame_time = now }) ∷ [],
      )
  unfolding fvd_irq2_service frame_of
  fvd_irq2_service_other now hw a b c e = ground arith
