-- ===== src/Kernel/StatusQueue/Fifo.antt =====
-- The queue of serial poll bytes refines the bounded fifo of `Spec`.
use linux_gpib.Prelude.{
  ℕ, ◌≤◌, ◌≡◌, refl, Bool, false, ℤ, none, List, [], ◌∷◌, arith, length, length-append,
}
use linux_gpib.Kernel.Types.{StatusQueue, init_gpib_status_queue}
use linux_gpib.Kernel.StatusQueue.{max_num_status_bytes, pop_status_byte, push_status_byte}
use linux_gpib.Kernel.StatusQueue.Spec.{Call, push, pop, Reply, push_byte, pop_byte, replies}

-- The count is the length of the list and within the limit, and no loss is flagged.
pub record IsValid (q : StatusQueue) : Type 0 where
  pub counted : q.num_status_bytes ≡ length q.status_bytes
  pub bounded : q.num_status_bytes ≤ max_num_status_bytes
  pub unflagged : q.dropped_byte ≡ false

pub init-IsValid : (pad : ℕ) (sad : ℤ) → IsValid (init_gpib_status_queue pad sad)
init-IsValid pad sad = record { counted = refl; bounded = omega arith; unflagged = refl }

-- On a valid queue a pop answers as the fifo of its bytes does, leaves the rest, and keeps the
-- queue valid.
pub pop_refines :
    (q : StatusQueue)
    → IsValid q
    → let (retval, byte, q') = pop_status_byte q in
      ((retval, byte, q'.status_bytes) ≡ pop_byte q.status_bytes) × IsValid q'
unfolding pop_status_byte pop_byte
pop_refines q v = ground arith

-- On a valid queue a push answers as the fifo of its bytes does, leaves its bytes, and keeps the
-- queue valid.
pub push_refines :
    (alloc : Bool) (q : StatusQueue) (byte : ℕ)
    → IsValid q
    → let (retval, q') = push_status_byte alloc q byte in
      ((retval, q'.status_bytes) ≡ push_byte alloc q.status_bytes byte) × IsValid q'
unfolding push_status_byte push_byte
push_refines alloc q byte v = ground (arith, length-append q.status_bytes (byte ∷ []))

-- the code, on a sequence of calls
unfoldable pub run : StatusQueue → List Call → List Reply
run q [] = []
run q (push alloc byte ∷ calls) =
    let (retval, q') = push_status_byte alloc q byte in (retval, none) ∷ run q' calls
run q (pop ∷ calls) = let (retval, byte, q') = pop_status_byte q in (retval, byte) ∷ run q' calls

-- On every sequence of calls a valid queue answers as the fifo of its bytes does.
pub run_refines :
    (q : StatusQueue) (calls : List Call) → IsValid q → run q calls ≡ replies q.status_bytes calls
unfolding run replies
run_refines q [] v = refl
run_refines q (push alloc byte ∷ calls) v =
    let (e, v') = push_refines alloc q byte v in
    ground (arith, e, run_refines (push_status_byte alloc q byte).1 calls v')
run_refines q (pop ∷ calls) v =
    let (e, v') = pop_refines q v in ground (arith, e, run_refines (pop_status_byte q).2 calls v')
