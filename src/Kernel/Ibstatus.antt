-- ===== src/Kernel/Ibstatus.antt =====
-- linux-gpib-kernel/drivers/gpib/common/iblib.c: the bus lines and the status word.
pub mod Bits
use linux_gpib.Prelude.{
  ℕ, ◌%◌, Bool, true, false, not, ◌&&◌, ◌||◌, ℤ, pos, negsuc, Option, none, some, ◌==◌,
  if◌then◌else◌, has, with, without, assign,
}
use linux_gpib.Uapi.Status.{timo, srqi, rqs, cmpl, event, valid_srq, bus_srq}
use linux_gpib.Kernel.Types.{Board, Interface, StatusQueue, Descriptor}
use linux_gpib.Kernel.StatusQueue.{num_status_bytes}
use linux_gpib.Kernel.EventQueue.{num_gpib_events}

-- `clear_mask & m`, `set_mask & m` as tests of the bit `m`; the masks reach the core as they were
-- given to the ioctl.
module _ {D : Type 0} (interface : Interface D) where
  -- The number is what is stored in `*lines`, a `short`, as a bit pattern.
  unfoldable pub iblines : Board D → ℤ × ℕ
  iblines board = elim interface.line_status [
    | none ↦ (pos 0, 0)
    | some line_status ↦ elim (line_status board) [
      | pos lines ↦ (pos 0, lines % 0x1_0000)
      | negsuc e ↦ (negsuc e, 0)
    ]
  ]

  -- the part under `if (iblines(board, &line_status) == 0)`
  real_srqi : ℕ → ℤ × ℕ → ℕ
  real_srqi status (negsuc e, line_status) = status
  real_srqi status (pos r, line_status) =
      if has line_status valid_srq then assign status srqi (has line_status bus_srq) else status

  -- the part under `if (board->private_data)`
  hardware_status : Board D → ℕ → ℕ × Board D
  unfolding real_srqi
  hardware_status board clear_mask = elim board.private_data [
    | none ↦ (0, board)
    | some _ ↦
        let (status, board') = interface.update_status board clear_mask in
        (real_srqi (without status timo) (iblines board'), board')
  ]

  -- the flag `io_in_progress` after the masks have been applied
  next_io_in_progress : ℕ → ℕ → Bool → Bool
  next_io_in_progress clear_mask set_mask current =
      if has set_mask cmpl then false else (if has clear_mask cmpl then true else current)

  -- the part under `if (desc)`
  completed : ℕ → ℕ → ℕ → Option Descriptor → ℕ × Option Descriptor
  unfolding next_io_in_progress
  completed status clear_mask set_mask none = (status, none)
  completed status clear_mask set_mask (some desc) =
      let busy = next_io_in_progress clear_mask set_mask desc.io_in_progress in
      (assign status cmpl (not busy), some (record desc { io_in_progress = busy }))

  unfoldable pub general_ibstatus :
      Board D → Option StatusQueue → ℕ → ℕ → Option Descriptor → ℕ × Board D × Option Descriptor
  unfolding hardware_status completed
  general_ibstatus board device clear_mask set_mask desc =
      let (hardware, board') = hardware_status board clear_mask in
      let requested = if num_status_bytes device == 0 then hardware else with hardware rqs in
      let (status, desc') = completed requested clear_mask set_mask desc in
      (assign status event (not (num_gpib_events board'.event_queue == 0)), board', desc')

  unfoldable pub ibstatus : Board D → ℕ × Board D
  unfolding general_ibstatus
  ibstatus board =
      let (status, board', _) = general_ibstatus board none 0 0 none in (status, board')
