-- ===== src/Kernel/Write/Sent.antt =====
-- `write_ioctl` as a whole, with a driver that records what it is given.
use linux_gpib.Prelude.{
  ℕ, suc, ◌-◌, ◌<◌, ◌≡◌, refl, ap, Bool, true, false, arith, ℤ, pos, Option, some, List, [], ◌++◌,
  ltb, ◌==◌, length,
}
use linux_gpib.Kernel.Types.{Board, FilePrivate, Descriptor}
use linux_gpib.Kernel.Handles.{handle_to_descriptor, set_io_in_progress}
use linux_gpib.Kernel.Handles.Progress.{handle_to_descriptor-set_io_in_progress}
use linux_gpib.Kernel.Read.{ReadWriteCmd, UserMemory, IoResult}
use linux_gpib.Kernel.Write.{Sending, run_write, write_ioctl, write_loop, finish_write}
use linux_gpib.Kernel.Write.Framing.{Log, sent_bytes, IsFramed, recorder, write_loop-IsSent}

-- The handle names a descriptor.
abbrev pub HasHandle : FilePrivate → ℤ → Type 0
HasHandle file handle = (d : Descriptor) × (handle_to_descriptor file handle ≡ some d)

HasHandle-set :
    (file : FilePrivate) (handle : ℤ) (v : Bool)
    → HasHandle file handle
    → HasHandle (set_io_in_progress file handle v) handle
HasHandle-set file handle v (d, e) =
    (record d { io_in_progress = v }, handle_to_descriptor-set_io_in_progress file handle v d e)

-- A user's memory that can be read and written.
pub record IsMapped (os : UserMemory) : Type 0 where
  pub copied_in : os.copied_in ≡ true
  pub accessible : os.accessible ≡ true
  pub copied_chunk : os.copied_chunk ≡ (λ _. true)
  pub copied_out : os.copied_out ≡ true

-- The handle is open, and the board has a buffer, no timer running, and this log.
pub record IsReady (handle : ℤ) (log : Log) (file : FilePrivate) (board : Board Log) : Type 0 where
  pub handle_open : HasHandle file handle
  pub room : 0 < board.buffer_length
  pub idle : board.timer_pending ≡ false
  pub logged : board.private_data ≡ some log

-- What `write_ioctl` did with some bytes: the driver was given them in order, in calls of which the
-- last alone sends END, and that if it was asked for.
pub record IsDelivered (handle : ℤ) (log : Log) (bytes : List ℕ) (end : Bool) (file' : FilePrivate)
    (board' : Board Log) : Type 0 where
  pub added : Log
  pub ready : IsReady handle (log ++ added) file' board'
  pub bytes_sent : sent_bytes added ≡ bytes
  pub framed : IsFramed end added

ran_to :
    (os : UserMemory) (cmd : ReadWriteCmd) (bytes : List ℕ) (file : FilePrivate) (board : Board Log)
    (s : Sending Log) {end : ℤ × Option (ℕ × Bool)}
    → (let remain = cmd.requested - cmd.completed in
        let start : Sending Log = record {
          retval = pos 0;
          fault = false;
          remain = remain;
          sent = 0;
          board = board;
        } in
        write_loop recorder (suc remain) os.copied_chunk bytes cmd.end start ≡ some s)
    → finish_write recorder os.copied_out cmd s ≡ end
    → run_write recorder os cmd bytes file board
      ≡ some (record {
        retval = end.0;
        reply = end.1;
        data_read = [];
        file = set_io_in_progress file cmd.handle false;
        board = s.board;
      })
unfolding run_write
ran_to os cmd bytes file board s same finished = rw (same, run_write, finished) refl

-- With memory that can be read and written, an open handle, and a board that is ready, a write
-- of all the user's bytes succeeds and delivers them, and leaves the board ready.
pub write_ioctl-delivers :
    (os : UserMemory) (cmd : ReadWriteCmd) (bytes : List ℕ) (log : Log) (file : FilePrivate)
    (board : Board Log)
    → IsMapped os
    → IsReady cmd.handle log file board
    → cmd.completed ≡ 0
    → cmd.requested ≡ length bytes
    → (r : IoResult Log) × (write_ioctl recorder os cmd bytes file board ≡ some r)
      × (r.retval ≡ pos 0)
      × (r.reply ≡ some (length bytes, cmd.end))
      × IsDelivered cmd.handle log bytes cmd.end r.file r.board
unfolding write_ioctl run_write finish_write
write_ioctl-delivers os cmd bytes log file board mapped ready fresh size =
    let busy = set_io_in_progress file cmd.handle true in
    let remain = cmd.requested - cmd.completed in
    let start : Sending Log = record {
      retval = pos 0;
      fault = false;
      remain = remain;
      sent = 0;
      board = board;
    } in
    let (s, same, i) =
      write_loop-IsSent (suc remain) bytes cmd.end start log (omega arith) ready.room ready.idle
        ready.logged (omega (arith, size, fresh)) refl refl in
    let (desc, has_desc) = ready.handle_open in
    let (left, fine) = i.finished in
    let in_order : ltb cmd.requested cmd.completed ≡ false = ground (arith, fresh) in
    let all_sent : (s.remain == 0) ≡ true = ground (arith, left) in
    let readable : write_loop recorder (suc remain) os.copied_chunk bytes cmd.end start ≡ some s =
      rw mapped.copied_chunk same in
    let finished : finish_write recorder os.copied_out cmd s
        ≡ (pos 0, some (cmd.requested - s.remain, cmd.end)) =
      simp (i.no_fault, mapped.copied_out, all_sent) refl in
    let ran = ran_to os cmd bytes busy board s readable finished in
    let open_still = HasHandle-set file cmd.handle true ready.handle_open in
    (
      record {
        retval = pos 0;
        reply = some (cmd.requested - s.remain, cmd.end);
        data_read = [];
        file = set_io_in_progress busy cmd.handle false;
        board = s.board;
      },
      simp (mapped.copied_in, in_order, has_desc, mapped.accessible) ran,
      refl,
      ap (λ n. some (n, cmd.end)) (omega (arith, left, size)),
      record {
        added = i.added;
        ready = record {
          handle_open = HasHandle-set busy cmd.handle false open_still;
          room = i.room;
          idle = i.idle;
          logged = i.logged;
        };
        bytes_sent = i.bytes;
        framed = i.framed;
      },
    )
