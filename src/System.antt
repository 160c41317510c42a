-- ===== src/System.antt =====
-- The C library of linux-gpib-user/lib on the driver core of linux-gpib-kernel/drivers/gpib/common:
-- what a call of the library puts on the bus.
pub mod Talker
pub mod Sends
mod Tests
use linux_gpib.Prelude.{ℕ, ◌≡◌, Bool, true, ℤ, Option, none, some, List, []}
use linux_gpib.Kernel.Types.{Board, Interface, FilePrivate}
use linux_gpib.Kernel.Read.{ReadWriteCmd, UserMemory, IoResult}
use linux_gpib.Kernel.Write.{write_ioctl}
use linux_gpib.User.Session.{Request, Reply, Driver}

-- What stands behind an open board file: its descriptors, and the board.
pub record OpenBoard (D : Type 0) : Type 0 where
  pub file : FilePrivate
  pub board : Board D

-- The structure as the library fills it.
abbrev pub to_cmd : Request → ReadWriteCmd
to_cmd request = record {
  requested = request.requested;
  completed = 0;
  end = request.end;
  handle = request.handle;
}

-- The count in the structure stays 0 if it is not copied back.
abbrev pub count_of : Option (ℕ × Bool) → ℕ
count_of none = 0
count_of (some (count, end)) = count

abbrev pub end_of : Request → Option (ℕ × Bool) → Bool
end_of request none = request.end
end_of request (some (count, end)) = end

abbrev pub to_reply : {D : Type 0} → Request → IoResult D → Reply
to_reply request r = record {
  result = r.retval;
  completed = count_of r.reply;
  end = end_of request r.reply;
  bytes = r.data_read;
}

abbrev pub to_open : {D : Type 0} → IoResult D → OpenBoard D
to_open r = record { file = r.file; board = r.board }

-- The calls of the library reach the core: IBWRT its `write_ioctl`, wherever that returns, and
-- IBTMO the board's timeout.
pub record IsCore {D : Type 0} (interface : Interface D) (os : UserMemory)
    (driver : Driver (OpenBoard D)) : Type 0 where
  pub write :
      (request : Request) (bytes : List ℕ) (w : OpenBoard D) (r : IoResult D)
      → write_ioctl interface os (to_cmd request) bytes w.file w.board ≡ some r
      → driver.write request bytes w ≡ (to_reply request r, to_open r)
  pub set_timeout :
      (usec : ℕ) (w : OpenBoard D)
      → driver.set_timeout usec w ≡ record w { board = record w.board { usec_timeout = usec } }
