-- ===== src/Boards/Hp82335.antt =====
-- linux-gpib-kernel/drivers/gpib/hp_82335/hp82335.c: the driver of the HP 82335 board, whose chip is
-- a TMS 9914, as an interface of the core.
pub mod Attach
pub mod Contract
pub mod Core
pub mod Returned
mod Tests
use linux_gpib.Prelude.{
  ℕ, ◌+◌, Bool, true, false, ℤ, pos, negsuc, Option, none, some, List, [], ◌∷◌, if◌then◌else◌,
}
use linux_gpib.Uapi.Errno.{enodev}
use linux_gpib.Kernel.Types.{Board, Interface}
use linux_gpib.Kernel.EventQueue.{push_gpib_event}
use linux_gpib.Chips.Tms9914.{
  Irq, Tms, tms9914_parallel_poll_configure, tms9914_parallel_poll_response,
}
use linux_gpib.Chips.Tms9914.Interrupts.{tms9914_interrupt_have_status}
use linux_gpib.Chips.Tms9914.Settings.{
  tms9914_take_control, tms9914_go_to_standby, tms9914_request_system_control,
  tms9914_interface_clear, tms9914_remote_enable, tms9914_enable_eos, tms9914_disable_eos,
  tms9914_parallel_poll, tms9914_line_status, tms9914_update_status, tms9914_primary_address,
  tms9914_secondary_address, tms9914_serial_poll_response, tms9914_serial_poll_status,
  tms9914_t1_delay, tms9914_return_to_local,
}
use linux_gpib.Chips.Tms9914.Transfer.{tms9914_read, tms9914_write}
use linux_gpib.Chips.Tms9914.Command.{tms9914_command}

-- `struct hp82335_priv`; `mapped` is `mmiobase` in `tms9914_priv`, and `card` has the writes to the
-- card's own registers, the newest first. Zero is no interrupt and no region.
pub record HpPriv : Type 0 where
  pub tms9914_priv : Tms
  pub irq : ℕ
  pub raw_iobase : ℕ
  pub mapped : Bool
  pub card : List (ℕ × ℕ)

abbrev pub hpreg_intr_clear : ℕ
hpreg_intr_clear = 0x17f7

abbrev pub hpreg_ccr : ℕ
hpreg_ccr = 0x17f8

abbrev pub writeb : ℕ → ℕ → HpPriv → HpPriv
writeb byte register hp = record hp { card = (register, byte) ∷ hp.card }

abbrev pub hp82335_clear_interrupt : HpPriv → HpPriv
hp82335_clear_interrupt hp = writeb 0 hpreg_intr_clear hp

-- The chip's library works on the board that it is called for: its fields are taken before.
abbrev pub load : Board HpPriv → HpPriv → Tms
load board hp = record hp.tms9914_priv {
  status = board.status;
  timer_pending = board.timer_pending;
  pad = board.pad;
  sad = board.sad;
  ist = board.ist;
  pushed = [];
}

-- The calls of `push_gpib_event`, of which the newest is first. `alloc` says whether `kmalloc` gives
-- memory.
unfoldable pub push_all : Bool → List ℕ → Board HpPriv → Board HpPriv
push_all alloc [] board = board
push_all alloc (event ∷ earlier) board =
    let (_, board') = push_gpib_event alloc (push_all alloc earlier board) event in board'

-- The fields of the board are put back after.
abbrev pub store : Bool → HpPriv → Tms → Board HpPriv → Board HpPriv
store alloc hp c board = push_all alloc c.pushed (record board {
  private_data = some (record hp { tms9914_priv = c });
  status = c.status;
  timer_pending = c.timer_pending;
})

-- What an operation of the chip's library is to a board. Without private data the driver would
-- follow a NULL pointer; the core calls only `attach` then, and an operation fails here.
abbrev pub on_private :
    {A : Type 0} → Bool → (Tms → A × Tms) → A → Board HpPriv → Option HpPriv → A × Board HpPriv
on_private alloc operation missing board none = (missing, board)
on_private alloc operation missing board (some hp) =
    let (result, c) = operation (load board hp) in (result, store alloc hp c board)

abbrev pub on_chip : {A : Type 0} → Bool → (Tms → A × Tms) → A → Board HpPriv → A × Board HpPriv
on_chip alloc operation missing board = on_private alloc operation missing board board.private_data

abbrev pub on_chip_quietly : Bool → (Tms → Tms) → Board HpPriv → Board HpPriv
on_chip_quietly alloc operation board = elim board.private_data [
  | none ↦ board
  | some hp ↦ store alloc hp (operation (load board hp)) board
]

abbrev pub look : {A : Type 0} → (Tms → A) → A → Board HpPriv → A
look operation missing board = elim board.private_data [
  | none ↦ missing
  | some hp ↦ operation (load board hp)
]

module _ (alloc : Bool) where
  unfoldable pub hp82335_read : Board HpPriv → ℕ → ℤ × Bool × List ℕ × Board HpPriv
  hp82335_read board length = elim board.private_data [
    | none ↦ (enodev, false, [], board)
    | some hp ↦
        let (retval, end, bytes, c) = tms9914_read length (load board hp) in
        (retval, end, bytes, store alloc hp c board)
  ]

  unfoldable pub hp82335_write : Board HpPriv → List ℕ → Bool → ℤ × ℕ × Board HpPriv
  hp82335_write board buffer send_eoi = elim board.private_data [
    | none ↦ (enodev, 0, board)
    | some hp ↦
        let (retval, bytes_written, c) = tms9914_write buffer send_eoi (load board hp) in
        (retval, bytes_written, store alloc hp c board)
  ]

  unfoldable pub hp82335_command : Board HpPriv → List ℕ → ℤ × ℕ × Board HpPriv
  hp82335_command board buffer = elim board.private_data [
    | none ↦ (enodev, 0, board)
    | some hp ↦
        let (retval, bytes_written, c) = tms9914_command buffer (load board hp) in
        (retval, bytes_written, store alloc hp c board)
  ]

  unfoldable pub hp82335_take_control : Board HpPriv → Bool → ℤ × Board HpPriv
  hp82335_take_control board synchronous =
      on_chip alloc (tms9914_take_control synchronous) enodev board

  unfoldable pub hp82335_go_to_standby : Board HpPriv → ℤ × Board HpPriv
  hp82335_go_to_standby board = on_chip alloc tms9914_go_to_standby enodev board

  unfoldable pub hp82335_request_system_control : Board HpPriv → Bool → ℤ × Board HpPriv
  hp82335_request_system_control board request_control =
      on_chip alloc (tms9914_request_system_control request_control) enodev board

  unfoldable pub hp82335_interface_clear : Board HpPriv → Bool → Board HpPriv
  hp82335_interface_clear board assert =
      on_chip_quietly alloc (tms9914_interface_clear assert) board

  unfoldable pub hp82335_remote_enable : Board HpPriv → Bool → Board HpPriv
  hp82335_remote_enable board enable = on_chip_quietly alloc (tms9914_remote_enable enable) board

  unfoldable pub hp82335_enable_eos : Board HpPriv → ℕ → Bool → ℤ × Board HpPriv
  hp82335_enable_eos board eos_byte compare_8_bits =
      on_chip alloc (tms9914_enable_eos eos_byte compare_8_bits) enodev board

  unfoldable pub hp82335_disable_eos : Board HpPriv → Board HpPriv
  hp82335_disable_eos board = on_chip_quietly alloc tms9914_disable_eos board

  unfoldable pub hp82335_update_status : Board HpPriv → ℕ → ℕ × Board HpPriv
  hp82335_update_status board clear_mask = on_chip alloc (tms9914_update_status clear_mask) 0 board

  unfoldable pub hp82335_primary_address : Board HpPriv → ℕ → ℤ × Board HpPriv
  hp82335_primary_address board address =
      on_chip alloc (tms9914_primary_address address) enodev board

  unfoldable pub hp82335_secondary_address : Board HpPriv → ℕ → Bool → ℤ × Board HpPriv
  hp82335_secondary_address board address enable =
      on_chip alloc (tms9914_secondary_address address enable) enodev board

  unfoldable pub hp82335_parallel_poll : Board HpPriv → ℤ × ℕ × Board HpPriv
  hp82335_parallel_poll board = elim board.private_data [
    | none ↦ (enodev, 0, board)
    | some hp ↦
        let (retval, result, c) = tms9914_parallel_poll (load board hp) in
        (retval, result, store alloc hp c board)
  ]

  unfoldable pub hp82335_parallel_poll_configure : Board HpPriv → ℕ → Board HpPriv
  hp82335_parallel_poll_configure board config =
      on_chip_quietly alloc (tms9914_parallel_poll_configure config) board

  unfoldable pub hp82335_parallel_poll_response : Board HpPriv → Bool → Board HpPriv
  hp82335_parallel_poll_response board ist =
      on_chip_quietly alloc (tms9914_parallel_poll_response ist) board

  unfoldable pub hp82335_serial_poll_response : Board HpPriv → ℕ → Board HpPriv
  hp82335_serial_poll_response board status =
      on_chip_quietly alloc (tms9914_serial_poll_response status) board

  unfoldable pub hp82335_t1_delay : Board HpPriv → ℕ → ℤ × Board HpPriv
  hp82335_t1_delay board nano_sec = on_chip alloc (tms9914_t1_delay nano_sec) enodev board

  unfoldable pub hp82335_return_to_local : Board HpPriv → Board HpPriv
  hp82335_return_to_local board = on_chip_quietly alloc tms9914_return_to_local board

  -- The card's interrupt is cleared before the chip's is handled. The first part says whether the
  -- process that sleeps is woken.
  unfoldable pub hp82335_interrupt : Irq → Board HpPriv → Bool × Board HpPriv
  hp82335_interrupt irq board = elim board.private_data [
    | none ↦ (false, board)
    | some hp ↦
        let (woken, c) = tms9914_interrupt_have_status irq (load board hp) in
        (woken, store alloc (hp82335_clear_interrupt hp) c board)
  ]

unfoldable pub hp82335_serial_poll_status : Board HpPriv → ℕ
hp82335_serial_poll_status board = look tms9914_serial_poll_status 0 board

unfoldable pub hp82335_line_status : Board HpPriv → ℤ
hp82335_line_status board = look tms9914_line_status enodev board
