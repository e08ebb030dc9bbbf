-- ===== src/Usim/Tests.antt =====
-- Runs of the simulator, and its theorems at concrete inputs.
use bifrost_module.Base.{◌≤◌, ◌≡◌, ◌≢◌, refl, true, false, none, some, [], ◌∷◌, arith, ok, copy_out}
use bifrost_module.Usim.{
  State, Usim, has_state, lookup_event_w_ticket, post_event, alloc_i2c_event, i2c_usim_release,
}
use bifrost_module.Usim.Ioctl.{ioc_get_event, ioc_put_event}
use bifrost_module.Usim.Transfer.{usim_smb_read, Size}
use bifrost_module.Usim.Refs.{IsValid, occurs}
use bifrost_module.Usim.Steps.{sent}
use bifrost_module.Usim.History.{IsReachable, begins, goes, sends, gets, empty, IsReachable-IsValid}
use bifrost_module.Usim.Receive.{heap-i2c_usim_release, orphaned}
use bifrost_module.Usim.Twice.{ioc_put_event_not_taken}
use bifrost_module.Usim.Cycle.{usim_smb_read-serve, serve}

-- One event at address 5, taken by the receiver.
abbrev posted : Usim
posted = sent empty 5 0x20001 0 80 2 (λ d. d)

abbrev busy : Usim
busy = (ioc_get_event true posted).0

busy-IsReachable : IsReachable busy
busy-IsReachable = goes (goes begins (sends 5 0x20001 0 80 2 (λ d. d) refl)) (gets true)

IsReachable-IsValid_example : IsValid busy
IsReachable-IsValid_example = IsReachable-IsValid busy-IsReachable

posted-IsValid : IsValid posted
posted-IsValid = IsReachable-IsValid (goes begins (sends 5 0x20001 0 80 2 (λ d. d) refl))

heap-i2c_usim_release_example :
    ((i2c_usim_release posted).heap 5 ≡ orphaned (posted.heap 5))
    × (has_state State.in_progress ((i2c_usim_release posted).heap 5) ≡ false)
    × ((i2c_usim_release posted).heap 5 ≢ none)
unfolding post_event alloc_i2c_event
heap-i2c_usim_release_example = heap-i2c_usim_release posted 5 posted-IsValid refl

ioc_put_event_not_taken_example :
    ((ioc_put_event (some 1) (some 0) (λ n. some []) posted).0.heap 5 ≡ none)
    × (1 ≤ occurs 5 (ioc_put_event (some 1) (some 0) (λ n. some []) posted).0.list)
unfolding lookup_event_w_ticket post_event alloc_i2c_event has_state
ioc_put_event_not_taken_example =
    ioc_put_event_not_taken posted 1 5 (some 0) (λ n. some []) posted-IsValid refl refl

usim_smb_read-serve_example :
    let (s', d', r) =
      usim_smb_read (some 5) (serve 1 (7 ∷ 8 ∷ [])) empty 0 80 3 Size.block_data (λ _. 0) in
    (r ≡ ok 0) × (d' 0 ≡ 2) × (copy_out 2 1 d' ≡ 7 ∷ 8 ∷ []) × (s'.list ≡ []) × (s'.heap 5 ≡ none)
usim_smb_read-serve_example =
    usim_smb_read-serve empty 5 0 80 3 (λ _. 0) (7 ∷ 8 ∷ []) refl (omega arith) (omega arith)
