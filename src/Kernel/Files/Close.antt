-- ===== src/Kernel/Files/Close.antt =====
-- Closing a device file: what it held of the board is given back.
use linux_gpib.Prelude.{
  ℕ, ◌+◌, ◌-◌, ◌<◌, ◌≡◌, refl, ap, ◌∙◌, true, false, arith, ℤ, pos, leb, if◌then◌else◌,
  Option-cases, inl, inr,
}
use linux_gpib.Uapi.Status.{gpib_max_num_boards}
use linux_gpib.Kernel.Types.{Board, FilePrivate}
use linux_gpib.Kernel.Devices.Refs.{refs, IsDistinct}
use linux_gpib.Kernel.Handles.{slot, handle_to_descriptor, cleanup_open_devices}
use linux_gpib.Kernel.Handles.Accounts.{cleanup_lem}
use linux_gpib.Kernel.Handles.Uses.{uses, IsCovered}
use linux_gpib.Kernel.Files.{closed_autospollers, ibclose}
use linux_gpib.Kernel.Files.Laws.{autopolls, flag_of}

closed_autospollers_lem :
    (file : FilePrivate) (autospollers others : ℕ)
    → autospollers ≡ others + autopolls file
    → closed_autospollers file autospollers ≡ others
unfolding closed_autospollers handle_to_descriptor
closed_autospollers_lem file autospollers others counted =
    elim (Option-cases (slot file.descriptors 0)) [
      | inl e ↦ simp (e, closed_autospollers) (omega (arith, counted, ap flag_of e))
      | inr (desc, e) ↦ simp (e, closed_autospollers) (ground (arith, counted, ap flag_of e))
    ]

-- what the last two steps of `ibclose` leave alone
cleanup-kept :
    {D : Type 0} (file : FilePrivate) (board : Board D)
    → let (_, _, board') = cleanup_open_devices file board in
      (board'.autospollers ≡ board.autospollers)
      × (board'.use_count ≡ board.use_count)
      × (board'.locking_pid ≡ board.locking_pid)
unfolding cleanup_open_devices
cleanup-kept file board = (refl, refl, refl)

-- Closing a file whose handles are all counted takes from the count of each address the handles
-- that the file had open on it, takes the file from the number of autopollers, releases the user
-- mutex if the file holds it, and gives back its use of the driver's module. It leaves the pid of
-- the mutex's owner as it was.
pub ibclose_lem :
    {D : Type 0} (minor : ℕ) (file : FilePrivate) (board : Board D) (others : ℕ) (p : ℕ) (s : ℤ)
    → minor < gpib_max_num_boards
    → IsDistinct board.device_list
    → IsCovered file.descriptors board.device_list
    → board.autospollers ≡ others + autopolls file
    → let (retval, board') = ibclose minor file board in
      (retval ≡ pos 0)
      × IsDistinct board'.device_list
      × (refs board'.device_list p s ≡ refs board.device_list p s - uses file.descriptors p s)
      × (board'.autospollers ≡ others)
      × (file.holding_mutex ≡ true → board'.user_mutex ≡ false)
      × (board'.use_count ≡ board.use_count - (if file.got_module then 1 else 0))
      × (board'.locking_pid ≡ board.locking_pid)
unfolding ibclose
ibclose_lem minor file board others p s h v covered counted =
    let board0 = record board { autospollers = closed_autospollers file board.autospollers } in
    let (_, _, distinct, given_back) = cleanup_lem file board0 p s v covered in
    let (same_polls, same_uses, same_pid) = cleanup-kept file board0 in
    let fewer = same_polls ∙ closed_autospollers_lem file board.autospollers others counted in
    let valid : leb gpib_max_num_boards minor ≡ false = ground (arith, h) in
    ground (arith, valid, distinct, given_back, fewer, same_uses, same_pid)
