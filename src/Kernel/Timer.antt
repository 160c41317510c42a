-- ===== src/Kernel/Timer.antt =====
-- linux-gpib-kernel/drivers/gpib/common/gpib_os.c: the watchdog timer of a board, which sets the
-- bit TIMO of its status when it fires.
use linux_gpib.Prelude.{ℕ, Bool, false, ltb, if◌then◌else◌, has, with, without}
use linux_gpib.Uapi.Status.{timo}
use linux_gpib.Kernel.Types.{Board}

module _ {D : Type 0} where
  -- `watchdog_timeout`: the timer is no longer pending when its function runs.
  unfoldable pub watchdog_timeout : Board D → Board D
  watchdog_timeout board = record board { status = with board.status timo; timer_pending = false }

  unfoldable pub os_start_timer : Board D → ℕ → Board D
  os_start_timer board usec_timeout =
      if board.timer_pending
      then board
      else (record board { status = without board.status timo; timer_pending = ltb 0 usec_timeout })

  unfoldable pub os_remove_timer : Board D → Board D
  os_remove_timer board =
      if board.timer_pending then record board { timer_pending = false } else board

  unfoldable pub io_timed_out : Board D → Bool
  io_timed_out board = has board.status timo
