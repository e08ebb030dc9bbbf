-- ===== src/Animal/Session.antt =====
-- What a handle of animal-i2c/i2c_main.c does from its opening to its release, seen by the monitor of
-- its actions.
use bifrost_module.Base.{
  ℕ, Bool, true, false, Option, none, some, List, [], ◌∷◌, ◌++◌, ◌≡◌, refl, ==_refl, ◌≢◌, ◌∙◌, All,
  replay, replay-append, err, efault, enomem, enotty, ap,
}
use bifrost_module.Animal.{
  Device, Handle, Request, Action, Outcome, gpio_free, returns, animal_release, free_pin, set_gpio,
  same_pin, change_pin,
}
use bifrost_module.Animal.Ioctl.{
  Command, Answer, do_animal_ioctl, do_info, do_read, do_write, do_read_block, do_write_block,
  do_i2c_write, do_i2c_writeread, info, address, gpio, adapter, smb_read8, smb_write8, smb_read16,
  smb_write16, smb_read_block, smb_write_block, i2c_write, i2c_writeread, other,
}
use bifrost_module.Animal.Watch.{
  idle, is_some, is_none, observe, Works, IsKept, accessed-Kept, returns-Kept, given-Kept,
  with_user-Kept, with_bytes-Kept, if-Kept, set_address-Kept, set_adapter-Kept, free_pin-Kept,
  set_gpio-Kept,
}

-- A command with what the stack, the bus and the core answer it.
pub record Call : Type 0 where
  pub block : ℕ → ℕ
  pub core : Request → Answer
  pub command : Command

-- The actions of some commands and then of the release.
unfoldable pub session : Device → Handle → List Call → List Action
unfolding do_animal_ioctl animal_release
session d h [] = animal_release h
session d h (c ∷ cs) =
    let o = do_animal_ioctl d c.block c.core h c.command in o.actions ++ session d o.handle cs

-- Every command but the one that sets a negative pin.
abbrev pub KeepsPin : Call → Type 0
KeepsPin c = c.command ≢ gpio (some none)

do_info-Kept : (d : Device) (h : Handle) (put : Bool) → IsKept h (do_info d h put)
unfolding do_info IsKept returns
do_info-Kept d h true = refl
do_info-Kept d h false = refl

do_i2c_write-Kept :
    (h : Handle) (command size : ℕ) (memory : Bool) (bytes : ℕ → Option (List ℕ))
    (core : Request → Answer)
    → IsKept h (do_i2c_write h command size memory bytes core)
unfolding do_i2c_write do_write
do_i2c_write-Kept h command size memory bytes core = if-Kept h _ _ _ (returns-Kept h (err efault)) (
    if-Kept h _ _ _ (returns-Kept h (err enomem))
      (with_bytes-Kept h (bytes size) _ (λ xs. accessed-Kept h _ _ _)))

do_i2c_writeread-Kept :
    (h : Handle) (block : ℕ → ℕ) (command size : ℕ) (memory put : Bool) (core : Request → Answer)
    → IsKept h (do_i2c_writeread h block command size memory put core)
unfolding do_i2c_writeread
do_i2c_writeread-Kept h block command size memory put core =
    if-Kept h _ _ _ (returns-Kept h (err efault))
      (if-Kept h _ _ _ (returns-Kept h (err enomem)) (given-Kept h _ _ put _))

do_animal_ioctl-Kept :
    (d : Device) (h : Handle) (c : Call)
    → Works d.gpio_ops
    → KeepsPin c
    → IsKept h (do_animal_ioctl d c.block c.core h c.command)
unfolding do_animal_ioctl do_info do_read do_write do_read_block do_write_block do_i2c_write
    do_i2c_writeread
do_animal_ioctl-Kept d h c works keeps =
    elim c.command
        as (λ k. k ≢ gpio (some none) → IsKept h (do_animal_ioctl d c.block c.core h k)) [
          | info put ↦ λ k. do_info-Kept d h put
          | address n ↦ λ k. set_address-Kept h n
          | gpio n ↦ λ k. set_gpio-Kept d h n works (λ e. k (ap gpio e))
          | adapter n ↦ λ k. set_adapter-Kept d h n
          | smb_read8 n put ↦ λ k. with_user-Kept h n _ (λ x. given-Kept h _ _ put _)
          | smb_write8 n b ↦
              λ k. with_user-Kept h n _ (λ x. with_user-Kept h b _ (λ y. accessed-Kept h _ _ _))
          | smb_read16 n put ↦ λ k. with_user-Kept h n _ (λ x. given-Kept h _ _ put _)
          | smb_write16 n b ↦
              λ k. with_user-Kept h n _ (λ x. with_user-Kept h b _ (λ y. accessed-Kept h _ _ _))
          | smb_read_block n m put ↦
              λ k. with_user-Kept h n _ (λ x. with_user-Kept h m _ (λ y. given-Kept h _ _ put _))
          | smb_write_block n m bytes ↦ λ k.
              with_user-Kept h n _ (λ x.
                with_user-Kept h m _ (λ y. with_bytes-Kept h _ _ (λ ys. accessed-Kept h _ _ _)))
          | i2c_write n m memory bytes ↦ λ k.
              with_user-Kept h n _
                (λ x. with_user-Kept h m _ (λ y. do_i2c_write-Kept h x y memory bytes c.core))
          | i2c_writeread n m memory put ↦ λ k. with_user-Kept h n _ (λ x.
              with_user-Kept h m _ (λ y. do_i2c_writeread-Kept h c.block x y memory put c.core))
          | other ↦ λ k. returns-Kept h (err enotty)
        ]
      keeps

-- From a handle whose pin is the one that is requested, with no lock held: with pins that are valid
-- and can be made outputs, any commands but the setting of a negative pin, and then the release,
-- take the locks and the chip selects in turn, use the bus under the lock of their adapter with
-- the own pin selected, and leave no lock held and no pin requested.
pub session-clean :
    (d : Device) (h : Handle) (cs : List Call)
    → Works d.gpio_ops
    → All KeepsPin cs
    → replay observe (some (idle h.gpio)) (session d h cs) ≡ some (idle none)
unfolding session IsKept animal_release
session-clean d h [] works keeps = free_pin-Kept h.gpio
session-clean d h (c ∷ cs) works (keep, keeps) =
    let o : Outcome = do_animal_ioctl d c.block c.core h c.command in
    replay-append observe (some (idle h.gpio)) o.actions (session d o.handle cs)
    ∙ rw (do_animal_ioctl-Kept d h c works keep) (session-clean d o.handle cs works keeps)

-- A handle that has a pin and sets a negative one gives the pin back, and once more on its release.
pub session-freed_twice :
    (d : Device) (h : Handle) (c : Call) (g : ℕ)
    → h.gpio ≡ some g
    → c.command ≡ gpio (some none)
    → (session d h (c ∷ []) ≡ gpio_free g ∷ gpio_free g ∷ [])
      × (replay observe (some (idle (some g))) (session d h (c ∷ [])) ≡ none)
unfolding session do_animal_ioctl set_gpio same_pin change_pin animal_release free_pin idle observe
    is_none is_some
session-freed_twice d h c g pin command = rw (command, pin) (refl, rw (==_refl g, replay) refl)
