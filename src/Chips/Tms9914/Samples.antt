-- ===== src/Chips/Tms9914/Samples.antt =====
-- Chips for the runs of the code of linux-gpib-kernel/drivers/gpib/tms9914/tms9914.c.
use linux_gpib.Prelude.{true, false, negsuc, [], ◌∷◌}
use linux_gpib.Chips.Tms9914.{
  holdoff_all, Arrival, interrupt, timer, Tms, talker_idle, listener_idle,
}

-- a chip that is online, in the board with primary address 0
abbrev pub online_chip : Tms
online_chip = record {
  status = 0;
  timer_pending = false;
  pad = 0;
  sad = negsuc 0;
  ist = false;
  imr0_bits = 0x3f;
  imr1_bits = 0xef;
  eos = 0;
  eos_flags = 0;
  spoll_status = 0;
  holdoff_mode = holdoff_all;
  ppoll_line = 0;
  ppoll_sense = false;
  ppoll_enable = false;
  ppoll_configure_state = false;
  talker_state = talker_idle;
  listener_state = listener_idle;
  primary_listen_addressed = false;
  primary_talk_addressed = false;
  holdoff_active = false;
  read_ready = false;
  write_ready = false;
  command_ready = false;
  received_end = false;
  bus_error = false;
  dev_clear = false;
  adsr = 0;
  bsr = 0;
  cptr = 0;
  dir = 0;
  adsr_later = [];
  pushed = [];
  log = [];
  later = [];
  asleep = false;
}

-- Byte Out of a talker, and of a controller that asserts ATN
abbrev pub byte_out : Arrival
byte_out = interrupt (record { isr0 = 16; isr1 = 0; adsr = 2; bsr = 0; cptr = 0; dir = 0 })

abbrev pub command_out : Arrival
command_out = interrupt (record { isr0 = 16; isr1 = 0; adsr = 34; bsr = 0; cptr = 0; dir = 0 })

-- Byte In, without END and with it
abbrev pub byte_in : Arrival
byte_in = interrupt (record { isr0 = 32; isr1 = 0; adsr = 4; bsr = 0; cptr = 0; dir = 72 })

abbrev pub last_in : Arrival
last_in = interrupt (record { isr0 = 40; isr1 = 0; adsr = 4; bsr = 0; cptr = 0; dir = 105 })

abbrev pub reading : Tms
reading = record online_chip { later = byte_in ∷ last_in ∷ [] }

abbrev pub writing : Tms
writing = record online_chip { write_ready = true; later = byte_out ∷ byte_out ∷ timer ∷ [] }

-- in listen only mode
abbrev pub commanding : Tms
commanding = record online_chip {
  command_ready = true;
  log = (3, 137) ∷ [];
  later = command_out ∷ command_out ∷ command_out ∷ [];
}
