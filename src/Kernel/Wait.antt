-- ===== src/Kernel/Wait.antt =====
-- linux-gpib-kernel/drivers/gpib/common: `ibwait` and `wait_satisfied` of iblib.c and `wait_ioctl`
-- of gpib_os.c. What happens while the process sleeps is a list of its wake-ups.
pub mod Laws
use linux_gpib.Prelude.{
  ℕ, Bool, true, false, not, ◌&&◌, ◌||◌, ℤ, pos, is_neg, Option, none, some, List, [], ◌∷◌, ◌==◌,
  if◌then◌else◌, assign, mask,
}
use linux_gpib.Uapi.Errno.{einval, efault, erestartsys}
use linux_gpib.Uapi.Status.{timo}
use linux_gpib.Kernel.Types.{Board, Interface, FilePrivate, StatusQueue, Descriptor}
use linux_gpib.Kernel.Devices.{get_gpib_status_queue}
use linux_gpib.Kernel.Handles.{handle_to_descriptor, set_io_in_progress}
use linux_gpib.Kernel.Ibstatus.{general_ibstatus}

-- `x & y` of two `int`s that are not negative
abbrev pub common_bits : ℕ → ℕ → ℕ
common_bits x y = mask 31 x y

-- The process is woken: the board and the descriptor as they are then, and the queue that a pointer
-- fetched before the wait then points to; whether the timer of
-- `struct wait_info` has fired, whether `mutex_lock_interruptible` is interrupted in
-- `wait_satisfied`, and whether a signal is pending afterwards.
pub record WakeUp (D : Type 0) : Type 0 where
  pub board : Board D
  pub desc : Descriptor
  pub queue : StatusQueue
  pub timed_out : Bool
  pub lock_interrupted : Bool
  pub signal : Bool

-- The masks of `struct gpib_wait_ioctl`, its descriptor, and `ibsta` as the user left it.
pub record WaitCmd : Type 0 where
  pub handle : ℤ
  pub wait_mask : ℕ
  pub clear_mask : ℕ
  pub set_mask : ℕ
  pub ibsta : ℕ

-- The result, what `*status` holds, and the board.
pub record Waited (D : Type 0) : Type 0 where
  pub retval : ℤ
  pub status : ℕ
  pub board : Board D

-- the queue of a descriptor's device
unfoldable pub queue_of : {D : Type 0} → Board D → Descriptor → Option StatusQueue
queue_of board desc =
    if desc.is_board then none else get_gpib_status_queue board.device_list desc.pad desc.sad

module _ {D : Type 0} (interface : Interface D) where
  -- The status that `wait_satisfied` looks at, with TIMO for the timer of the wait. The first
  -- argument is the pointer from before the wait: `none` is NULL, and of another one what it points
  -- to is read now.
  unfoldable pub wait_status : Option StatusQueue → WakeUp D → ℕ × Board D
  wait_status status_queue w =
      let queue : Option StatusQueue = elim status_queue [ none ↦ none | some _ ↦ some w.queue ] in
      let (status, board, _) = general_ibstatus interface w.board queue 0 0 (some w.desc) in
      (assign status timo w.timed_out, board)

  -- `wait_event_interruptible` on `wait_satisfied`: an interrupted lock is no 0 and ends the wait as
  -- a bit of the mask does, with `*status` as it was. `none`: the process sleeps on after the last
  -- wake-up.
  unfoldable pub wait_event : Option StatusQueue → List (WakeUp D) → ℕ → ℕ → Option (Waited D)
  wait_event status_queue [] wait_mask status = none
  wait_event status_queue (w ∷ later) wait_mask status =
      let rest = wait_event status_queue later wait_mask status in
      let (now, board) = wait_status status_queue w in
      if w.lock_interrupted
      then some (record { retval = pos 0; status = status; board = w.board })
      else (if not (common_bits wait_mask now == 0)
          then some (record { retval = pos 0; status = now; board = board })
          else (if w.signal
              then some (record { retval = erestartsys; status = status; board = board })
              else rest))

  -- The part after the wait; `relocked` says whether the big mutex is locked again. The status of
  -- the second call, all that the queue is for, is not used.
  unfoldable pub clear_reported : Option StatusQueue → Bool → WaitCmd → Waited D → Waited D
  clear_reported status_queue relocked cmd r =
      let reported = common_bits r.status cmd.clear_mask in
      let (_, board, _) =
        general_ibstatus interface r.board status_queue reported cmd.set_mask none in
      if is_neg r.retval
      then r
      else (if not relocked
          then record r { retval = erestartsys }
          else (if not (reported == 0) || not (cmd.set_mask == 0)
              then record r { board = board }
              else r))

  -- Without a mask the status is read at once, and the descriptor may change.
  unfoldable pub ibwait :
      List (WakeUp D) → Bool → WaitCmd → Descriptor → Board D → Option (Waited D × Descriptor)
  ibwait wake_ups relocked cmd desc board =
      let status_queue = queue_of board desc in
      let (status, board', desc') =
        general_ibstatus interface board status_queue cmd.clear_mask cmd.set_mask (some desc) in
      let now : Waited D = record { retval = pos 0; status = status; board = board' } in
      if cmd.wait_mask == 0
      then elim desc' [ none ↦ some (now, desc) | some d ↦ some (now, d) ]
      else elim (wait_event status_queue wake_ups cmd.wait_mask cmd.ibsta) [
        | none ↦ none
        | some r ↦ some (clear_reported status_queue relocked cmd r, desc)
      ]

  -- The status is copied back if there is one in the reply. Without a mask the flag of the
  -- descriptor in the table changes with it.
  unfoldable pub wait_ioctl :
      Bool
      → Bool
      → List (WakeUp D)
      → Bool
      → WaitCmd
      → FilePrivate
      → Board D
      → Option (ℤ × Option ℕ × FilePrivate × Board D)
  wait_ioctl copied_in copied_out wake_ups relocked cmd file board =
      if copied_in
      then elim (handle_to_descriptor file cmd.handle) [
        | none ↦ some (einval, none, file, board)
        | some desc ↦ elim (ibwait wake_ups relocked cmd desc board) [
          | none ↦ none
          | some (r, desc') ↦
              let file' =
                if cmd.wait_mask == 0
                then set_io_in_progress file cmd.handle desc'.io_in_progress
                else file in
              if is_neg r.retval
              then some (r.retval, none, file', r.board)
              else (if copied_out
                  then some (pos 0, some r.status, file', r.board)
                  else some (efault, none, file', r.board))
        ]
      ]
      else some (efault, none, file, board)
