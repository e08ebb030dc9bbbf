-- ===== src/Regs/Ioctl.antt =====
-- The register commands of bifrost_unlocked_ioctl, bifrost/bifrost_cdev.c, that access a register
-- or a range of registers repeatedly. The outcomes of the copies from and to user space are
-- arguments. The size of the buffer is taken as the source means it: counts below 2^30.
use bifrost_module.Base.{
  ℕ, zero, suc, ◌+◌, ◌-◌, ◌*◌, ◌%◌, ◌^◌, leb, ◌==◌, length, Bool, true, false, Option, none, some,
  List, [], ◌∷◌, if◌then◌else◌, Result, ok, err, enomem, efault,
}
use bifrost_module.Device.{Io, Device}
use bifrost_module.Regs.{do_read_regb, do_write_regb}

-- `struct bifrost_access_range`, less the pointer.
pub record Range : Type 0 where
  pub bar : ℕ
  pub offset : ℕ
  pub count : ℕ

-- What copy_from_user leaves of a word, of which it copied some bytes: the others are zero. The
-- words are little-endian.
abbrev pub copied_word : (bytes : ℕ) → ℕ → ℕ
copied_word bytes v = if leb 4 bytes then v else v % 256 ^ bytes

-- The buffer after copy_from_user has copied the first bytes.
abbrev pub copied_words : (bytes : ℕ) → List ℕ → List ℕ
copied_words bytes [] = []
copied_words bytes (v ∷ vs) = copied_word bytes v ∷ copied_words (bytes - 4) vs

module _ {Hw : Type 0} (io : Io Hw) (fvd : Bool) (d : Device) where
  -- The loop from round i on, with `left` rounds to go.
  unfoldable pub read_rounds : Hw → (bar offset incr i left : ℕ) → Hw × Result (List ℕ)
  read_rounds hw bar offset incr i zero = (hw, ok [])
  read_rounds hw bar offset incr i (suc left) =
      let (hw', r) = do_read_regb io fvd hw d bar ((offset + i * incr) % 2 ^ 32) in
      let (hw'', rest) = read_rounds hw' bar offset incr (i + 1) left in
      elim r [
        | err e ↦ (hw', err e)
        | ok v ↦ elim rest [ err e ↦ (hw'', err e) | ok vs ↦ (hw'', ok (v ∷ vs)) ]
      ]

  -- BIFROST_IOCTL_READ_RANGE_REGB with `incr` 4, BIFROST_IOCTL_READ_REPEAT_REGB with 0; `ok vs` is
  -- a return of 0 with the values vs in user space.
  unfoldable pub ioc_read_range :
      (incr : ℕ) → Option Range → (memory copied : Bool) → Hw → Hw × Result (List ℕ)
  unfolding read_rounds
  ioc_read_range incr none memory copied hw = (hw, err enomem)
  ioc_read_range incr (some a) false copied hw = (hw, err enomem)
  ioc_read_range incr (some a) true copied hw =
      let (hw', r) = read_rounds hw a.bar a.offset incr 0 a.count in
      (hw', if copied then r else elim r [ err e ↦ err e | ok vs ↦ err efault ])

  -- The loop over the buffer; `rc` is the value of the variable before it.
  unfoldable pub write_rounds : Hw → (bar offset : ℕ) → (rc : Result ℕ) → List ℕ → Hw × Result ℕ
  write_rounds hw bar offset rc [] = (hw, rc)
  write_rounds hw bar offset rc (v ∷ vs) =
      let (hw', r) = do_write_regb io fvd hw d bar offset v in
      let rest = write_rounds hw' bar offset r vs in elim r [ err e ↦ (hw', err e) | ok _ ↦ rest ]

  -- BIFROST_IOCTL_WRITE_REPEAT_REGB: `user` are the a.count words of user space, and `missing` is the
  -- answer of copy_from_user, how many of their bytes it did not copy.
  unfoldable pub ioc_write_repeat :
      Option Range → (memory : Bool) → (user : List ℕ) → (missing : ℕ) → Hw → Hw × Result ℕ
  unfolding write_rounds
  ioc_write_repeat none memory user missing hw = (hw, err enomem)
  ioc_write_repeat (some a) false user missing hw = (hw, err enomem)
  ioc_write_repeat (some a) true user missing hw =
      write_rounds hw a.bar a.offset (if missing == 0 then ok 0 else err efault)
        (copied_words (4 * length user - missing) user)
