-- ===== src/Kernel/EventQueue.antt =====
-- linux-gpib-kernel/drivers/gpib/common/gpib_os.c: the queue of trigger, clear and IFC events of
-- a board. `alloc` says whether `kmalloc` gives memory.
pub mod Laws
use linux_gpib.Prelude.{
  ℕ, zero, suc, ◌+◌, ◌-◌, Bool, true, false, ℤ, pos, is_neg, Option, none, some, List, [], ◌∷◌,
  ◌++◌, leb, ◌==◌, if◌then◌else◌, with,
}
use linux_gpib.Uapi.Errno.{eio, epipe, enomem}
use linux_gpib.Uapi.Status.{dtas, dcas, event_none, event_dev_trg, event_dev_clr}
use linux_gpib.Kernel.Types.{EventQueue, Board}

abbrev pub max_num_events : ℕ
max_num_events = 1024

abbrev pub num_gpib_events : EventQueue → ℕ
num_gpib_events queue = queue.num_events

-- The event at the front, the front being `front`.
pop_front : EventQueue → List ℕ → ℤ × Option ℕ × EventQueue
pop_front queue [] = (eio, none, queue)
pop_front queue (event_type ∷ rest) =
    if queue.dropped_event
    then (epipe, none, record queue { dropped_event = false })
    else (pos 0, some event_type, record queue { events = rest; num_events = queue.num_events - 1 })

-- `pop_gpib_event_nolock`, and `pop_gpib_event` around it. The option is what is stored in
-- `*event_type`; an empty queue gives `EVENT_NONE`.
unfoldable pub pop_gpib_event : EventQueue → ℤ × Option ℕ × EventQueue
unfolding pop_front
pop_gpib_event queue =
    if num_gpib_events queue == 0
    then (pos 0, some event_none, queue)
    else pop_front queue queue.events

-- The part of `push_gpib_event_nolock` behind the test for a full queue.
append_event : Bool → EventQueue → ℕ → ℤ × EventQueue
append_event alloc queue event_type =
    if alloc
    then (
      pos 0,
      record queue { events = queue.events ++ event_type ∷ []; num_events = queue.num_events + 1 },
    )
    else (enomem, record queue { dropped_event = true })

unfoldable pub push_gpib_event_nolock : Bool → EventQueue → ℕ → ℤ × EventQueue
unfolding pop_gpib_event append_event
push_gpib_event_nolock alloc queue event_type =
    if leb max_num_events (num_gpib_events queue)
    then (let (retval, lost_event, queue') =
          pop_gpib_event (record queue { dropped_event = true }) in
        if is_neg retval then (retval, queue') else append_event alloc queue' event_type)
    else append_event alloc queue event_type

-- `board->status |= DTAS`, `board->status |= DCAS`
note_event : ℕ → ℕ → ℕ
note_event status event_type =
    let status' = if event_type == event_dev_trg then with status dtas else status in
    if event_type == event_dev_clr then with status' dcas else status'

unfoldable pub push_gpib_event : {D : Type 0} → Bool → Board D → ℕ → ℤ × Board D
unfolding note_event
push_gpib_event alloc board event_type =
    let (retval, queue) = push_gpib_event_nolock alloc board.event_queue event_type in
    (retval, record board { event_queue = queue; status = note_event board.status event_type })

-- The loop at the end of `gpib_deallocate_board`, on fuel:
-- `while (num_gpib_events(queue)) pop_gpib_event(...)`; `none` means that the fuel ran out.
unfoldable pub drain_events : ℕ → EventQueue → Option EventQueue
drain_events zero queue = none
drain_events (suc fuel) queue =
    let rest = drain_events fuel (pop_gpib_event queue).2 in
    if num_gpib_events queue == 0 then some queue else rest
