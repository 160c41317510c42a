-- ===== src/Kernel/Read.antt =====
-- linux-gpib-kernel/drivers/gpib/common: `ibrd` of iblib.c and `read_ioctl` of gpib_os.c. A loop
-- runs on fuel, and `none` means that the fuel ran out. What is stored in a buffer is returned as
-- the list of its bytes.
pub mod Laws
pub mod Ioctl
pub mod Private
use linux_gpib.Prelude.{
  ℕ, zero, suc, ◌+◌, ◌-◌, Bool, true, false, not, ◌&&◌, ◌||◌, ℤ, pos, is_neg, ◌==ℤ◌, Option, none,
  some, List, [], ◌++◌, ltb, ◌==◌, if◌then◌else◌, min, length,
}
use linux_gpib.Uapi.Errno.{einval, efault}
use linux_gpib.Kernel.Types.{Board, Interface, FilePrivate, Descriptor}
use linux_gpib.Kernel.Timer.{os_start_timer, os_remove_timer}
use linux_gpib.Kernel.Control.{ibgts}
use linux_gpib.Kernel.Handles.{handle_to_descriptor, set_io_in_progress}

-- what `ibrd` returns and stores
pub record ReadResult (D : Type 0) : Type 0 where
  pub retval : ℤ
  pub end_flag : Bool
  pub bytes : List ℕ
  pub board : Board D

-- what the loop of `read_ioctl` has done
pub record Transfer (D : Type 0) : Type 0 where
  pub read_ret : ℤ
  pub fault : Bool
  pub remain : ℕ
  pub end_flag : Bool
  pub data_read : List ℕ
  pub board : Board D

module _ {D : Type 0} (interface : Interface D) where
  -- The `do` loop of `ibrd`, with what it has read so far. The bytes of a failed read are not
  -- counted.
  read_loop : ℕ → Board D → ℕ → List ℕ → Option (ReadResult D)
  read_loop zero board size buf = none
  read_loop (suc fuel) board size buf =
      let (ret, end_flag, chunk, board') = interface.read board (size - length buf) in
      let rest = read_loop fuel board' size (buf ++ chunk) in
      let nbytes = length (buf ++ chunk) in
      if is_neg ret
      then some (record { retval = ret; end_flag = end_flag; bytes = buf; board = board' })
      else (if ret ==ℤ pos 0 && (ltb 0 nbytes && (ltb nbytes size && not end_flag))
          then rest
          else some
              (record { retval = ret; end_flag = end_flag; bytes = buf ++ chunk; board = board' }))

  -- `os_start_timer`, the loop, and `os_remove_timer`
  read_timed : ℕ → Board D → ℕ → Option (ReadResult D)
  unfolding read_loop
  read_timed fuel board size =
      elim (read_loop fuel (os_start_timer board board.usec_timeout) size []) [
        | none ↦ none
        | some r ↦ some (record r { board = os_remove_timer r.board })
      ]

  unfoldable pub ibrd : ℕ → Board D → ℕ → Option (ReadResult D)
  unfolding read_timed
  ibrd fuel board size =
      let (retval, board') = ibgts interface board in
      let failed : ReadResult D = record {
        retval = retval;
        end_flag = false;
        bytes = [];
        board = board';
      } in
      let controlled = read_timed fuel board' size in
      let plain = read_timed fuel board size in
      if size == 0
      then some (record { retval = pos 0; end_flag = false; bytes = []; board = board })
      else (if board.master then (if is_neg retval then some failed else controlled) else plain)

  -- One buffer load: what is done with the result of `ibrd`. `writable` says whether
  -- `copy_to_user` succeeds at an offset of the user's buffer; the second part says whether the
  -- loop goes on.
  store_chunk : (ℕ → Bool) → Transfer D → ReadResult D → Transfer D × Bool
  store_chunk writable t r =
      let got = length r.bytes in
      let t' = record t { read_ret = r.retval; end_flag = r.end_flag; board = r.board } in
      let stored = record t' { remain = t.remain - got; data_read = t.data_read ++ r.bytes } in
      if got == 0
      then (t', false)
      else (if writable (length t.data_read)
          then (stored, not (is_neg r.retval))
          else (record t' { fault = true }, false))

  -- The `while` loop of `read_ioctl`.
  pub transfer_loop : ℕ → (ℕ → Bool) → Transfer D → Option (Transfer D)
  unfolding store_chunk
  transfer_loop zero writable t = none
  transfer_loop (suc fuel) writable t =
      let next = ibrd (suc t.remain) t.board (min t.board.buffer_length t.remain) in
      let step : Option (Transfer D) = elim next [
        | none ↦ none
        | some r ↦
            let (t', more) = store_chunk writable t r in
            elim more [ true ↦ transfer_loop fuel writable t' | false ↦ some t' ]
      ] in
      if ltb 0 t.remain && not t.end_flag then step else some t

-- The fields of `struct gpib_read_write_ioctl`, with the pointer's data beside it. A handle is
-- an `__s32`.
pub record ReadWriteCmd : Type 0 where
  pub requested : ℕ
  pub completed : ℕ
  pub end : Bool
  pub handle : ℤ

-- What the operating system answers: the copies of the command, the check of the user's buffer,
-- and the copy of a buffer load at an offset of the user's buffer.
pub record UserMemory : Type 0 where
  pub copied_in : Bool
  pub accessible : Bool
  pub copied_chunk : ℕ → Bool
  pub copied_out : Bool

-- what an ioctl that transfers data returns: its value, the count and the flag copied back, the
-- data read, the descriptors and the board
pub record IoResult (D : Type 0) : Type 0 where
  pub retval : ℤ
  pub reply : Option (ℕ × Bool)
  pub data_read : List ℕ
  pub file : FilePrivate
  pub board : Board D

-- The result of `read_ioctl` after its loop: the count of bytes completed and the end flag that
-- are copied back, or the error.
unfoldable pub finish_read : {D : Type 0} → Bool → ℕ → Transfer D → ℤ × Option (ℕ × Bool)
finish_read copied_out requested t =
    let read_ret = if t.remain == 0 || t.end_flag then pos 0 else t.read_ret in
    if t.fault || not copied_out
    then (efault, none)
    else (read_ret, some (requested - t.remain, t.end_flag))

-- an ioctl that ends before it transfers anything
abbrev pub refused : {D : Type 0} → ℤ → FilePrivate → Board D → IoResult D
refused e file board = record {
  retval = e;
  reply = none;
  data_read = [];
  file = file;
  board = board;
}

module _ {D : Type 0} (interface : Interface D) where
  -- `read_ioctl` behind its checks
  pub run_read : UserMemory → ReadWriteCmd → FilePrivate → Board D → Option (IoResult D)
  unfolding transfer_loop finish_read
  run_read os cmd file board =
      let remain = cmd.requested - cmd.completed in
      let start : Transfer D = record {
        read_ret = pos 0;
        fault = false;
        remain = remain;
        end_flag = false;
        data_read = [];
        board = board;
      } in
      elim (transfer_loop interface (suc remain) os.copied_chunk start) [
        | none ↦ none
        | some t ↦
            let (retval, reply) = finish_read os.copied_out cmd.requested t in
            some (record {
              retval = retval;
              reply = reply;
              data_read = t.data_read;
              file = set_io_in_progress file cmd.handle false;
              board = t.board;
            })
      ]

  unfoldable pub read_ioctl :
      UserMemory → ReadWriteCmd → FilePrivate → Board D → Option (IoResult D)
  unfolding run_read
  read_ioctl os cmd file board =
      if os.copied_in
      then (if ltb cmd.requested cmd.completed
          then some (refused einval file board)
          else elim (handle_to_descriptor file cmd.handle) [
            | none ↦ some (refused einval file board)
            | some _ ↦
                if os.accessible
                then run_read os cmd (set_io_in_progress file cmd.handle true) board
                else some (refused efault file board)
          ])
      else some (refused efault file board)
