-- ===== src/Kernel/StatusQueue/Spec.antt =====
-- The contract of a queue of serial poll bytes: a fifo of at most 1024 bytes that refuses a byte
-- when it is full and keeps no memory of the refusal.
use linux_gpib.Prelude.{
  ℕ, Bool, ℤ, pos, Option, none, some, List, [], ◌∷◌, ◌++◌, ltb, if◌then◌else◌, length,
}
use linux_gpib.Uapi.Errno.{eio, epipe, enomem}

-- What a client asks of the queue of one device; each call is answered by a return value and,
-- for a pop, the byte.
pub data Call : Type 0 where
  push : (alloc : Bool) (byte : ℕ) → Call
  pop : Call

abbrev pub Reply : Type 0
Reply = ℤ × Option ℕ

unfoldable pub push_byte : Bool → List ℕ → ℕ → ℤ × List ℕ
push_byte alloc bytes byte =
    if ltb (length bytes) 1024
    then (if alloc then (pos 0, bytes ++ byte ∷ []) else (enomem, bytes))
    else (epipe, bytes)

unfoldable pub pop_byte : List ℕ → ℤ × Option ℕ × List ℕ
pop_byte [] = (eio, none, [])
pop_byte (byte ∷ bytes) = (pos 0, some byte, bytes)

unfoldable pub replies : List ℕ → List Call → List Reply
replies bytes [] = []
replies bytes (push alloc byte ∷ calls) =
    let (retval, bytes') = push_byte alloc bytes byte in (retval, none) ∷ replies bytes' calls
replies bytes (pop ∷ calls) =
    let (retval, byte, bytes') = pop_byte bytes in (retval, byte) ∷ replies bytes' calls
