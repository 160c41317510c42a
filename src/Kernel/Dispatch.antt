-- ===== src/Kernel/Dispatch.antt =====
-- linux-gpib-kernel/drivers/gpib/common/gpib_os.c: the tests of `ibioctl` that a command passes
-- before the function that serves it. What these functions do is not part of it.
pub mod Uses
use linux_gpib.Prelude.{ℕ, ◌+◌, Bool, true, false, not, ℤ, leb, ◌==◌, if◌then◌else◌}
use linux_gpib.Uapi.Errno.{eperm, eio, enodev, enotty, einval, erestartsys}
use linux_gpib.Uapi.Status.{gpib_max_num_boards}
use linux_gpib.Kernel.Types.{Board, FilePrivate}

-- The numbers of the ioctls, `unknown` for any other.
pub data Command : Type 0 where
  cfcboardtype : Command
  ibonl : Command
  cfcbase : Command
  cfcirq : Command
  cfcdma : Command
  ibautospoll : Command
  ibboard_info : Command
  ibmutex : Command
  ibpad : Command
  ibsad : Command
  ibselect_pci : Command
  ibselect_device_path : Command
  ibevent : Command
  ibclosedev : Command
  ibopendev : Command
  ibspoll_bytes : Command
  ibwait : Command
  iblines : Command
  ibloc : Command
  ib_t1_delay : Command
  ibcac : Command
  ibcmd : Command
  ibeos : Command
  ibgts : Command
  ibppc : Command
  ibpp2_set : Command
  ibpp2_get : Command
  ibquery_board_rsv : Command
  ibrd : Command
  ibrpp : Command
  ibrsc : Command
  ibrsp : Command
  ibrsv : Command
  ibrsv2 : Command
  ibsic : Command
  ibsre : Command
  ibtmo : Command
  ibwrt : Command
  unknown : Command

-- What a command needs: nothing, a driver, a board that is online, or the board's user mutex.
-- Each stage needs what the ones before it do.
pub data Stage : Type 0 where
  anyone : Stage
  configured : Stage
  online : Stage
  owner : Stage

-- The `switch` in which a command stands; an unknown one falls through to the last.
unfoldable pub stage_of : Command → Stage
stage_of cfcboardtype = anyone
stage_of ibonl = anyone
stage_of cfcbase = configured
stage_of cfcirq = configured
stage_of cfcdma = configured
stage_of ibautospoll = configured
stage_of ibboard_info = configured
stage_of ibmutex = configured
stage_of ibpad = configured
stage_of ibsad = configured
stage_of ibselect_pci = configured
stage_of ibselect_device_path = configured
stage_of ibevent = online
stage_of ibclosedev = online
stage_of ibopendev = online
stage_of ibspoll_bytes = online
stage_of ibwait = online
stage_of iblines = online
stage_of ibloc = online
stage_of _ = owner

abbrev pub is_unknown : Command → Bool
is_unknown unknown = true
is_unknown _ = false

-- A command is refused with an error, or goes on to the function that serves it, in either case
-- with the file and the board as they are then.
pub data Dispatched (D : Type 0) : Type 0 where
  refused : ℤ → FilePrivate → Board D → Dispatched D
  passed : FilePrivate → Board D → Dispatched D

-- The process, the device file's number, and what the operating system answers: whether the lock of
-- the big mutex is interrupted, whether the board has an interface, and what `try_module_get` says.
pub record Caller : Type 0 where
  pub pid : ℕ
  pub minor : ℕ
  pub interrupted : Bool
  pub has_interface : Bool
  pub got : Bool

module _ {D : Type 0} where
  -- the last `switch`, behind the test of `locking_pid`
  unfoldable pub owned : Caller → Command → FilePrivate → Board D → Dispatched D
  owned caller cmd file board =
      if not (caller.pid == board.locking_pid)
      then refused eperm file board
      else (if is_unknown cmd then refused enotty file board else passed file board)

  -- from the second `switch` on, with the driver's module taken
  unfoldable pub served : Caller → Command → FilePrivate → Board D → Dispatched D
  served caller cmd file board = elim (stage_of cmd) [
    | anyone ↦ passed file board
    | configured ↦ passed file board
    | online ↦ if board.online then passed file board else refused einval file board
    | owner ↦ if board.online then owned caller cmd file board else refused einval file board
  ]

  -- from the test of `board->interface` on
  unfoldable pub with_module : Caller → Command → FilePrivate → Board D → Dispatched D
  with_module caller cmd file board =
      let taken = record board { use_count = board.use_count + 1 } in
      if not caller.has_interface
      then refused enodev file board
      else (if file.got_module
          then served caller cmd file board
          else (if caller.got
              then served caller cmd (record file { got_module = true }) taken
              else refused eio file board))

  unfoldable pub ibioctl : Caller → Command → FilePrivate → Board D → Dispatched D
  ibioctl caller cmd file board =
      if leb gpib_max_num_boards caller.minor
      then refused enodev file board
      else (if caller.interrupted then refused erestartsys file board else elim (stage_of cmd) [
        | anyone ↦ passed file board
        | configured ↦ with_module caller cmd file board
        | online ↦ with_module caller cmd file board
        | owner ↦ with_module caller cmd file board
      ])
