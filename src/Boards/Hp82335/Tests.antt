-- ===== src/Boards/Hp82335/Tests.antt =====
-- Runs of the code of linux-gpib-kernel/drivers/gpib/hp_82335/hp82335.c at fixed inputs.
use linux_gpib.Prelude.{true, false, ◌≡◌, refl, pos, some, [], ◌∷◌, arith}
use linux_gpib.Kernel.Types.{Board, FilePrivate, init_gpib_board, init_gpib_descriptor}
use linux_gpib.Kernel.Read.{read_ioctl, ReadWriteCmd, UserMemory, IoResult}
use linux_gpib.Kernel.Read.Ioctl.{IsReported}
use linux_gpib.Chips.Tms9914.{signal}
use linux_gpib.Chips.Tms9914.Samples.{online_chip, byte_in, reading}
use linux_gpib.Boards.Hp82335.{HpPriv}
use linux_gpib.Boards.Hp82335.Attach.{Machine, hp82335_attach, hp82335_interface}
use linux_gpib.Boards.Hp82335.Core.{HasSignal, read_ioctl-hp82335_interface}
use linux_gpib.Boards.Hp82335.Returned.{IsReturned, hp82335_attach-detach}

-- a card at 0xd0000, with interrupt 5
abbrev card : Machine
card = record {
  ibbase = 0xd0000;
  ibirq = 5;
  allocates = true;
  region_is_free = true;
  maps = true;
  irq_answer = pos 0;
  chip = online_chip;
}

-- the board once it is online, with a chip that a byte reaches, and then a signal the process
abbrev board : Board HpPriv
board = record init_gpib_board {
  private_data = some (record {
    tms9914_priv = record reading { later = byte_in ∷ signal ∷ [] };
    irq = 5;
    raw_iobase = 0xd2000;
    mapped = true;
    card = [];
  });
  has_buffer = true;
  buffer_length = 0x4000;
  master = false;
}

abbrev memory : UserMemory
memory = record { copied_in = true; accessible = true; copied_chunk = λ _. true; copied_out = true }

abbrev cmd : ReadWriteCmd
cmd = record { requested = 2; completed = 0; end = true; handle = pos 0 }

abbrev file : FilePrivate
file = record {
  descriptors = some (record init_gpib_descriptor { is_board = true }) ∷ [];
  holding_mutex = false;
  got_module = true;
}

read_ioctl-hp82335_interface_example :
    (r : IoResult HpPriv) × (read_ioctl (hp82335_interface true card) memory cmd file board
      ≡ some r)
    × HasSignal r.board.private_data
    × IsReported cmd r
read_ioctl-hp82335_interface_example =
    read_ioctl-hp82335_interface true card memory cmd file board (omega arith) (refl, refl)

hp82335_attach-detach_example : IsReturned card (hp82335_attach card init_gpib_board)
hp82335_attach-detach_example = hp82335_attach-detach card init_gpib_board
