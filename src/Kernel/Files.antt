-- ===== src/Kernel/Files.antt =====
-- linux-gpib-kernel/drivers/gpib/common/gpib_os.c: opening and closing a device file, the number
-- of its autopollers and the board's user mutex.
pub mod Laws
pub mod Close
use linux_gpib.Prelude.{
  ℕ, ◌+◌, ◌-◌, Bool, true, false, not, ◌&&◌, ℤ, pos, Option, none, some, List, [], ◌∷◌, ltb, leb,
  ◌==◌, if◌then◌else◌, set,
}
use linux_gpib.Uapi.Errno.{eperm, eio, enxio, enodev, enomem, efault, einval, erestartsys}
use linux_gpib.Uapi.Status.{gpib_max_num_boards}
use linux_gpib.Kernel.Types.{Board, FilePrivate, Descriptor}
use linux_gpib.Kernel.Handles.{
  slot, handle_to_descriptor, cleanup_open_devices, init_gpib_file_private,
}

-- The number of autopollers after `ibclose`: one less if this file is one.
closed_autospollers : FilePrivate → ℕ → ℕ
closed_autospollers file autospollers = elim (handle_to_descriptor file (pos 0)) [
  | none ↦ autospollers
  | some desc ↦ if desc.autopoll_enabled then autospollers - 1 else autospollers
]

-- The descriptor with its flag `autopoll_enabled` as given, in the slot of the board.
set_autopoll : FilePrivate → Descriptor → Bool → FilePrivate
set_autopoll file desc enabled = record file {
  descriptors = set file.descriptors 0 (some (record desc { autopoll_enabled = enabled }));
}

module _ {D : Type 0} where
  -- `ibopen`: `memory` says whether `kmalloc` gives memory, `configured` whether the board has an
  -- interface, `got` what `try_module_get` answers. The option is `filep->private_data`.
  unfoldable pub ibopen : Bool → Bool → Bool → ℕ → Board D → ℤ × Option FilePrivate × Board D
  ibopen memory configured got minor board =
      if leb gpib_max_num_boards minor
      then (enxio, none, board)
      else (if memory
          then (if configured
              then (if got
                  then (
                    pos 0,
                    some (record init_gpib_file_private { got_module = true }),
                    record board { use_count = board.use_count + 1 },
                  )
                  else (eio, some init_gpib_file_private, board))
              else (pos 0, some init_gpib_file_private, board))
          else (enomem, none, board))

  -- `ibclose` of a file with private data. The `- 1` of both counts is behind a test for 0 in
  -- the source.
  unfoldable pub ibclose : ℕ → FilePrivate → Board D → ℤ × Board D
  unfolding closed_autospollers
  ibclose minor file board =
      let (_, file', board1) =
        cleanup_open_devices file
          (record board { autospollers = closed_autospollers file board.autospollers }) in
      let board2 = if file.holding_mutex then record board1 { user_mutex = false } else board1 in
      let board3 =
        if file.got_module && ltb 0 board2.use_count
        then record board2 { use_count = board2.use_count - 1 }
        else board2 in
      if leb gpib_max_num_boards minor then (enodev, board) else (pos 0, board3)

  enable_autopoll : FilePrivate → Board D → Descriptor → ℤ × FilePrivate × Board D
  unfolding set_autopoll
  enable_autopoll file board desc = if desc.autopoll_enabled then (pos 0, file, board) else (
    pos 0,
    set_autopoll file desc true,
    record board { autospollers = board.autospollers + 1 },
  )

  disable_autopoll : FilePrivate → Board D → Descriptor → ℤ × FilePrivate × Board D
  unfolding set_autopoll
  disable_autopoll file board desc =
      if desc.autopoll_enabled
      then (if ltb 0 board.autospollers
          then (
            pos 0,
            set_autopoll file desc false,
            record board { autospollers = board.autospollers - 1 },
          )
          else (einval, set_autopoll file desc false, board))
      else (einval, file, board)

  -- `none`: the board's descriptor is gone, and the source reads a NULL pointer.
  unfoldable pub autospoll_ioctl :
      Bool → Bool → FilePrivate → Board D → Option (ℤ × FilePrivate × Board D)
  unfolding enable_autopoll disable_autopoll
  autospoll_ioctl copied enable file board =
      if copied
      then elim (handle_to_descriptor file (pos 0)) [
        | none ↦ none
        | some desc ↦
            some
              (if enable then enable_autopoll file board desc else disable_autopoll file board desc)
      ]
      else some (efault, file, board)

  -- `mutex_ioctl`: `pid` is the caller's; `none` is a wait for the mutex that a signal does not
  -- end, and `signal` says that one does.
  unfoldable pub mutex_ioctl :
      Bool → Bool → ℕ → Bool → FilePrivate → Board D → Option (ℤ × FilePrivate × Board D)
  mutex_ioctl copied signal pid lock_mutex file board =
      let locked = record board { user_mutex = true; locking_pid = pid } in
      let unlocked = record board { user_mutex = false; locking_pid = 0 } in
      if copied
      then (if lock_mutex
          then (if signal
              then some (erestartsys, file, board)
              else (if board.user_mutex
                  then none
                  else some (pos 0, record file { holding_mutex = true }, locked)))
          else (if pid == board.locking_pid
              then some (pos 0, record file { holding_mutex = false }, unlocked)
              else some (eperm, file, board)))
      else some (efault, file, board)
