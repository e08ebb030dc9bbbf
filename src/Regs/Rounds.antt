-- ===== src/Regs/Rounds.antt =====
-- What the repeated register accesses read and write.
use bifrost_module.Base.{
  ℕ, zero, suc, ◌+◌, ◌-◌, ◌*◌, get_elem?, if◌then◌else◌, ◌%◌, ◌^◌, ◌≤◌, ◌<◌, ◌≡◌, refl, sym, ap,
  ◌∙◌, ==_iff, Bool, true, false, none, some, List, [], ◌∷◌, length, Result, ok, err, efault, arith,
  Bool-cases, inl, inr, ◌⊎◌, ◌==◌,
}
use bifrost_module.Device.{Io, Device}
use bifrost_module.Regs.{
  do_read_regb, do_write_regb, check_bar_access, rd_access, wr_access, wr, rd,
}
use bifrost_module.Regs.Ioctl.{
  Range, copied_word, copied_words, read_rounds, ioc_read_range, write_rounds, ioc_write_repeat,
}
use bifrost_module.Regs.Modify.{IsCheck-cases}

Result-cases {ℓ} : {A : Type ℓ} (r : Result A) → ((a : A) × (r ≡ ok a)) ⊎ ((e : ℕ) × (r ≡ err e))
Result-cases (ok a) = inl (a, refl)
Result-cases (err e) = inr (e, refl)

length-copied_words : (bytes : ℕ) (vs : List ℕ) → length (copied_words bytes vs) ≡ length vs
length-copied_words bytes [] = refl
length-copied_words bytes (v ∷ vs) = omega (arith, length-copied_words (bytes - 4) vs)

get_elem?-copied_words :
    (bytes : ℕ) (vs : List ℕ) (i : ℕ)
    → get_elem? (copied_words bytes vs) i
      ≡ elim (get_elem? vs i) [ none ↦ none | some v ↦ some (copied_word (bytes - 4 * i) v) ]
get_elem?-copied_words bytes [] i = refl
get_elem?-copied_words bytes (v ∷ vs) zero =
    let e : bytes ≡ bytes - 0 = omega arith in ap (λ b. some (copied_word b v)) e
get_elem?-copied_words bytes (v ∷ vs) (suc i) =
    let e : bytes - 4 - 4 * i ≡ bytes - 4 * suc i = omega arith in
    get_elem?-copied_words (bytes - 4) vs i
    ∙ ap (λ b. elim (get_elem? vs i) [ none ↦ none | some w ↦ some (copied_word b w) ]) e

module _ {Hw : Type 0} (io : Io Hw) (fvd : Bool) (d : Device) where
  -- The hardware after writing words to one register, one after the other.
  abbrev pub written : Hw → (bar offset : ℕ) → List ℕ → Hw
  written hw bar offset [] = hw
  written hw bar offset (v ∷ vs) = written (wr io hw (d.regb bar) offset v) bar offset vs

  do_write_regb-pass :
      (bar offset v : ℕ) (hw : Hw)
      → check_bar_access fvd d bar wr_access offset ≡ ok 0
      → do_write_regb io fvd hw d bar offset v ≡ (wr io hw (d.regb bar) offset v, ok 0)
  unfolding do_write_regb
  do_write_regb-pass bar offset v hw pass = rw (pass, do_write_regb) refl

  write_rounds_lem :
      (bar offset : ℕ)
      → check_bar_access fvd d bar wr_access offset ≡ ok 0
      → (v : ℕ) (vs : List ℕ) (hw : Hw) (rc : Result ℕ)
      → write_rounds io fvd d hw bar offset rc (v ∷ vs) ≡ (written hw bar offset (v ∷ vs), ok 0)
  unfolding write_rounds
  write_rounds_lem bar offset pass v [] hw rc =
      ground (arith, do_write_regb-pass bar offset v hw pass)
  write_rounds_lem bar offset pass v (w ∷ vs) hw rc = ground (
    arith,
    do_write_regb-pass bar offset v hw pass,
    write_rounds_lem bar offset pass w vs (wr io hw (d.regb bar) offset v) (ok 0),
  )

  -- A repeated write of at least one word that the access check lets pass writes as many words as
  -- there are, one after the other, to the register and returns 0, also if some of the bytes of user
  -- space cannot be copied: of the word at an index are written its bytes that were copied, and zero
  -- for the others.
  pub ioc_write_repeat_lem :
      (a : Range) (user : List ℕ) (missing : ℕ) (hw : Hw)
      → check_bar_access fvd d a.bar wr_access a.offset ≡ ok 0
      → 0 < length user
      → (words : List ℕ) × (ioc_write_repeat io fvd d (some a) true user missing hw
          ≡ (written hw a.bar a.offset words, ok 0))
        × (length words ≡ length user)
        × ((i : ℕ)
            → get_elem? words i ≡ elim (get_elem? user i) [
              | none ↦ none
              | some v ↦ some (copied_word (4 * length user - missing - 4 * i) v)
            ])
  unfolding ioc_write_repeat
  ioc_write_repeat_lem a [] missing hw pass more = absurd (omega (arith, more))
  ioc_write_repeat_lem a (v ∷ vs) missing hw pass more =
      let bytes = 4 * length (v ∷ vs) - missing in
      (
        copied_words bytes (v ∷ vs),
        write_rounds_lem a.bar a.offset pass (copied_word bytes v) (copied_words (bytes - 4) vs) hw
            (if missing == 0 then ok 0 else err efault),
        length-copied_words bytes (v ∷ vs),
        get_elem?-copied_words bytes (v ∷ vs),
      )

  -- Each round from i on, with `left` rounds to go, is let pass by the access check.
  abbrev pub Passes : (bar offset incr i left : ℕ) → Type 0
  Passes bar offset incr i left =
      (j : ℕ)
      → i ≤ j
      → j < i + left
      → check_bar_access fvd d bar rd_access ((offset + j * incr) % 2 ^ 32) ≡ ok 0

  read_rounds-ok :
      (hw : Hw) (bar offset incr i left : ℕ) (vs : List ℕ)
      → (read_rounds io fvd d hw bar offset incr i left).1 ≡ ok vs
      → (length vs ≡ left) × Passes bar offset incr i left
  unfolding read_rounds do_read_regb
  read_rounds-ok hw bar offset incr i zero vs e =
      (ground (arith, e), λ j from to. absurd (omega (arith, from, to)))
  read_rounds-ok hw bar offset incr i (suc left) vs e =
      let here = (offset + i * incr) % 2 ^ 32 in
      elim (IsCheck-cases fvd d bar rd_access here) [
        | inr (c, stop) ↦ absurd (ground (arith, stop, e))
        | inl pass ↦
            let (v, hw') = rd io hw (d.regb bar) here in
            elim (Result-cases (read_rounds io fvd d hw' bar offset incr (i + 1) left).1) [
              | inr (c, stop) ↦ absurd (ground (arith, pass, stop, e))
              | inl (ws, more) ↦
                  let (len, passes) = read_rounds-ok hw' bar offset incr (i + 1) left ws more in
                  (
                    ground (arith, pass, more, e, len),
                    λ j from to. elim (Bool-cases (i == j)) [
                      | inl same ↦ rw (sym ((==_iff i j).0 same)) pass
                      | inr other ↦ passes j (ground (arith, from, other)) (omega (arith, to))
                    ],
                  )
            ]
      ]

  -- A read of a range that returns 0 gives as many values as were asked for, and each of its offsets
  -- was let pass by the access check.
  pub ioc_read_range_ok :
      (incr : ℕ) (a : Range) (memory copied : Bool) (hw : Hw) (vs : List ℕ)
      → (ioc_read_range io fvd d incr (some a) memory copied hw).1 ≡ ok vs
      → (length vs ≡ a.count) × Passes a.bar a.offset incr 0 a.count
  unfolding ioc_read_range
  ioc_read_range_ok incr a false copied hw vs e = absurd (ground (arith, e))
  ioc_read_range_ok incr a true true hw vs e = read_rounds-ok hw a.bar a.offset incr 0 a.count vs e
  ioc_read_range_ok incr a true false hw vs e =
      elim (Result-cases (read_rounds io fvd d hw a.bar a.offset incr 0 a.count).1) [
        | inl (ws, good) ↦ absurd (ground (arith, good, e))
        | inr (c, stop) ↦ absurd (ground (arith, stop, e))
      ]
