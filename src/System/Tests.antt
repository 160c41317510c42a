-- ===== src/System/Tests.antt =====
-- The composed calls on a concrete board.
use linux_gpib.Prelude.{
  ℕ, ◌≡◌, refl, true, false, not, arith, pos, negsuc, none, some, List, [], ◌∷◌, ◌==◌, length, take,
}
use linux_gpib.Kernel.Types.{init_gpib_board, init_gpib_descriptor}
use linux_gpib.Kernel.Handles.{init_gpib_file_private, handle_to_descriptor}
use linux_gpib.Kernel.Read.{UserMemory}
use linux_gpib.Kernel.Write.{write_ioctl}
use linux_gpib.Kernel.Write.Framing.{Log, recorder}
use linux_gpib.Kernel.Write.Sent.{IsMapped, IsReady}
use linux_gpib.User.Codes.{null_end}
use linux_gpib.User.Session.{Reply, Driver, Session, init_ibconf}
use linux_gpib.User.Write.{internal_send_data_bytes}
use linux_gpib.User.Commands.Bus.{Bus, other, receive_all}
use linux_gpib.Chips.Tms9914.Command.{tms9914_command}
use linux_gpib.Chips.Tms9914.Samples.{commanding}
use linux_gpib.System.Talker.{IsTracked, tms9914_command-IsTracked}
use linux_gpib.System.{OpenBoard, to_cmd, to_reply, to_open, IsCore}
use linux_gpib.System.Sends.{IsOnBus, message, internal_send_data_bytes-IsOnBus}

abbrev memory : UserMemory
memory = record {
  copied_in = true;
  accessible = true;
  copied_chunk = λ offset. true;
  copied_out = true;
}

memory-IsMapped : IsMapped memory
memory-IsMapped = record {
  copied_in = refl;
  accessible = refl;
  copied_chunk = refl;
  copied_out = refl;
}

-- the answer of a call that does not return
abbrev no_answer : Reply
no_answer = record { result = negsuc 3; completed = 0; end = false; bytes = [] }

-- IBWRT and IBTMO of the core; the other calls are not used here.
abbrev core : Driver (OpenBoard Log)
core = record {
  board_info = λ w. (
    pos 0,
    record { pad = w.board.pad; sad = w.board.sad; is_system_controller = w.board.master },
    w,
  );
  status = λ w. (pos 0, w.board.status, w);
  set_timeout = λ usec w. record w { board = record w.board { usec_timeout = usec } };
  command = λ request bytes w. (no_answer, w);
  write = λ request bytes w.
      elim (write_ioctl recorder memory (to_cmd request) bytes w.file w.board) [
        | none ↦ (no_answer, w)
        | some r ↦ (to_reply request r, to_open r)
      ];
  read = λ request w. (no_answer, w);
  set_eos = λ eos flags w. (pos 0, w);
  set_pad = λ handle pad w. (pos 0, w);
  set_sad = λ handle sad w. (pos 0, w);
}

core-IsCore : IsCore recorder memory core
core-IsCore = record {
  write = λ request bytes w r e. rw (e, core) refl;
  set_timeout = λ usec w. refl;
}

-- the board's descriptor, on a board with a buffer of four bytes
abbrev session : Session (OpenBoard Log)
session = record {
  conf = record init_ibconf { handle = pos 0; is_interface = true };
  globals = record { iberr = 0; ibcnt = 0 };
  world = record {
    file = init_gpib_file_private;
    board = record init_gpib_board { private_data = some []; buffer_length = 4; online = true };
  };
}

session-IsReady : IsReady (pos 0) [] session.world.file session.world.board
unfolding init_gpib_file_private handle_to_descriptor
session-IsReady = record {
  handle_open = (record init_gpib_descriptor { is_board = true }, refl);
  room = omega arith;
  idle = refl;
  logged = refl;
}

-- six bytes and a newline
abbrev six : List ℕ
six = 1 ∷ 2 ∷ 3 ∷ 4 ∷ 5 ∷ 6 ∷ []

internal_send_data_bytes-IsOnBus_example :
    let r = internal_send_data_bytes core six 2 session in
    (r.0 ≡ pos 0)
    × (r.1.globals.ibcnt ≡ length (message six 2))
    × IsOnBus [] (message six 2) (not (2 == null_end)) session r.1
internal_send_data_bytes-IsOnBus_example =
    internal_send_data_bytes-IsOnBus memory core core-IsCore memory-IsMapped six 2 [] session refl
      (omega arith) session-IsReady

-- nobody is addressed
abbrev silent : Bus
silent = record { talker = none; listeners = []; last = other }

-- UNL, the board as the talker, and a device as the listener
tms9914_command-IsTracked_example :
    let (retval, n, c') = tms9914_command (63 ∷ 64 ∷ 37 ∷ []) commanding in
    IsTracked c' (receive_all (take n (63 ∷ 64 ∷ 37 ∷ [])) silent)
tms9914_command-IsTracked_example =
    tms9914_command-IsTracked (63 ∷ 64 ∷ 37 ∷ []) commanding silent
      (omega arith, (omega arith, (omega arith, tt))) (omega arith) refl refl
