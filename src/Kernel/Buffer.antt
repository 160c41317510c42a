-- ===== src/Kernel/Buffer.antt =====
-- The core's buffer under the functions that precede a transfer: no driver changes its size.
use linux_gpib.Prelude.{ℕ, ◌≡◌, arith}
use linux_gpib.Kernel.Types.{Board, Interface}
use linux_gpib.Kernel.Timer.{os_start_timer, os_remove_timer}
use linux_gpib.Kernel.Ibstatus.{ibstatus}
use linux_gpib.Kernel.Ibstatus.Bits.{ibstatus-buffer}
use linux_gpib.Kernel.Control.{ibgts}

-- `buffer_length` is written by `gpib_allocate_board` and `gpib_deallocate_board` alone.
pub record KeepsBuffer {D : Type 0} (interface : Interface D) : Type 0 where
  pub standby_buffer :
      (board : Board D) → (interface.go_to_standby board).1.buffer_length ≡ board.buffer_length
  pub status_buffer :
      (board : Board D) (m : ℕ)
      → (interface.update_status board m).1.buffer_length ≡ board.buffer_length

pub start_timer-buffer :
    {D : Type 0} (board : Board D) (usec : ℕ)
    → (os_start_timer board usec).buffer_length ≡ board.buffer_length
unfolding os_start_timer
start_timer-buffer board usec = ground arith

pub remove_timer-buffer :
    {D : Type 0} (board : Board D) → (os_remove_timer board).buffer_length ≡ board.buffer_length
unfolding os_remove_timer
remove_timer-buffer board = ground arith

module _ {D : Type 0} (interface : Interface D) (keeps : KeepsBuffer interface) where
  pub ibgts-buffer :
      (board : Board D) → (ibgts interface board).1.buffer_length ≡ board.buffer_length
  unfolding ibgts
  ibgts-buffer board =
      let (_, board1) = ibstatus interface board in
      let (_, board2) = interface.go_to_standby board1 in
      ground (
        arith,
        ibstatus-buffer interface keeps.status_buffer board,
        keeps.standby_buffer board1,
        keeps.status_buffer board2 0,
      )
