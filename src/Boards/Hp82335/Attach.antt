-- ===== src/Boards/Hp82335/Attach.antt =====
-- linux-gpib-kernel/drivers/gpib/hp_82335/hp82335.c: attaching a board and detaching it, and the
-- table of the driver's functions.
use linux_gpib.Prelude.{
  ℕ, ◌+◌, Bool, true, false, not, ◌||◌, ℤ, pos, Option, none, some, List, [], ◌∷◌, ◌++◌, ◌==◌,
  ◌==ℤ◌, if◌then◌else◌,
}
use linux_gpib.Uapi.Errno.{enomem, einval, ebusy}
use linux_gpib.Kernel.Types.{Board, Interface}
use linux_gpib.Chips.Tms9914.{Tms}
use linux_gpib.Chips.Tms9914.Settings.{tms9914_board_reset, tms9914_online}
use linux_gpib.Boards.Hp82335.{
  HpPriv, hpreg_ccr, writeb, hp82335_clear_interrupt, load, store, hp82335_read, hp82335_write,
  hp82335_command, hp82335_take_control, hp82335_go_to_standby, hp82335_request_system_control,
  hp82335_interface_clear, hp82335_remote_enable, hp82335_enable_eos, hp82335_disable_eos,
  hp82335_update_status, hp82335_primary_address, hp82335_secondary_address, hp82335_parallel_poll,
  hp82335_parallel_poll_configure, hp82335_parallel_poll_response, hp82335_serial_poll_response,
  hp82335_serial_poll_status, hp82335_line_status, hp82335_t1_delay,
}

-- What `attach` finds: the configuration, the answers of the kernel, and the chip, with the
-- zeroed `tms9914_priv`.
pub record Machine : Type 0 where
  pub ibbase : ℕ
  pub ibirq : ℕ
  pub allocates : Bool
  pub region_is_free : Bool
  pub maps : Bool
  pub irq_answer : ℤ
  pub chip : Tms

-- The calls that take and give back what the kernel hands out, where they succeed.
pub data Call : Type 0 where
  kzalloc : Call
  kfree : Call
  request_mem_region : ℕ → Call
  release_mem_region : ℕ → Call
  ioremap : Call
  iounmap : Call
  request_irq : ℕ → Call
  free_irq : ℕ → Call

abbrev pub hp82335_rom_size : ℕ
hp82335_rom_size = 0x2000

-- The cases of the `switch`.
unfoldable pub is_io_base : ℕ → Bool
is_io_base base =
    base == 0xc4000
    || base == 0xc8000
    || base == 0xcc000
    || base == 0xd0000
    || base == 0xd4000
    || base == 0xd8000
    || base == 0xdc000
    || base == 0xe0000
    || base == 0xe4000
    || base == 0xe8000
    || base == 0xec000
    || base == 0xf0000
    || base == 0xf4000
    || base == 0xf8000
    || base == 0xfc000

abbrev pub mapping : Bool → List Call
mapping true = ioremap ∷ []
mapping false = []

-- the part after `request_irq`
unfoldable pub start : HpPriv → Board HpPriv → Board HpPriv
start hp board =
    let c = tms9914_board_reset (load board hp) in
    let hp' = writeb 4 hpreg_ccr (hp82335_clear_interrupt hp) in
    store true hp' (tms9914_online c) board

-- The result is followed by the calls, in their order. The unmapped `mmiobase` is not checked for.
unfoldable pub hp82335_attach : Machine → Board HpPriv → ℤ × List Call × Board HpPriv
hp82335_attach m board =
    let board0 = record board { status = 0 } in
    let base = m.ibbase + hp82335_rom_size in
    let fresh : HpPriv = record {
      tms9914_priv = m.chip;
      irq = 0;
      raw_iobase = 0;
      mapped = false;
      card = [];
    } in
    let hp : HpPriv = record fresh { raw_iobase = base; mapped = m.maps } in
    let taken = kzalloc ∷ request_mem_region base ∷ mapping m.maps in
    if not m.allocates
    then (enomem, [], record board0 { private_data = none })
    else (if not (is_io_base m.ibbase)
        then (einval, kzalloc ∷ [], record board0 { private_data = some fresh })
        else (if not m.region_is_free
            then (ebusy, kzalloc ∷ [], record board0 { private_data = some fresh })
            else (if not (m.irq_answer ==ℤ pos 0)
                then (m.irq_answer, taken, record board0 { private_data = some hp })
                else (
                  pos 0,
                  taken ++ request_irq m.ibirq ∷ [],
                  start (record hp { irq = m.ibirq }) board0,
                ))))

-- The part of `detach` under the test for `mmiobase`.
abbrev pub shut : Board HpPriv → HpPriv → HpPriv
shut board hp = record (writeb 0 hpreg_ccr hp) {
  tms9914_priv = tms9914_board_reset (load board hp);
}

-- The calls are followed by the private data as it is freed. `kfree` takes NULL too.
unfoldable pub hp82335_detach : Board HpPriv → List Call × Option HpPriv × Board HpPriv
hp82335_detach board = elim board.private_data [
  | none ↦ ([], none, board)
  | some hp ↦
      let irq = if not (hp.irq == 0) then free_irq hp.irq ∷ [] else [] in
      let map = if hp.mapped then iounmap ∷ [] else [] in
      let region = if not (hp.raw_iobase == 0) then release_mem_region hp.raw_iobase ∷ [] else [] in
      (
        irq ++ map ++ region ++ kfree ∷ [],
        some (if hp.mapped then shut board hp else hp),
        record board { private_data = none },
      )
]

-- `hp82335_interface`
unfoldable pub hp82335_interface : Bool → Machine → Interface HpPriv
hp82335_interface alloc m = record {
  attach = λ board. let (retval, _, board') = hp82335_attach m board in (retval, board');
  detach = λ board. let (_, _, board') = hp82335_detach board in board';
  read = hp82335_read alloc;
  write = hp82335_write alloc;
  command = hp82335_command alloc;
  take_control = hp82335_take_control alloc;
  go_to_standby = hp82335_go_to_standby alloc;
  request_system_control = some (hp82335_request_system_control alloc);
  interface_clear = hp82335_interface_clear alloc;
  remote_enable = hp82335_remote_enable alloc;
  enable_eos = hp82335_enable_eos alloc;
  disable_eos = hp82335_disable_eos alloc;
  parallel_poll_configure = hp82335_parallel_poll_configure alloc;
  parallel_poll = hp82335_parallel_poll alloc;
  parallel_poll_response = hp82335_parallel_poll_response alloc;
  local_parallel_poll_mode = none;
  line_status = some hp82335_line_status;
  update_status = hp82335_update_status alloc;
  primary_address = hp82335_primary_address alloc;
  secondary_address = hp82335_secondary_address alloc;
  serial_poll_response = some (hp82335_serial_poll_response alloc);
  serial_poll_response2 = none;
  serial_poll_status = hp82335_serial_poll_status;
  t1_delay = some (hp82335_t1_delay alloc);
  no_7_bit_eos = false;
  skip_check_for_command_acceptors = false;
}
