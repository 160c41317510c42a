-- ===== src/Kernel/EventQueue/Laws.antt =====
-- What the event queue keeps, loses and reports.
use linux_gpib.Prelude.{
  ℕ, zero, suc, ◌+◌, ◌≤◌, ◌<◌, ◌≡◌, refl, Bool, true, false, pos, some, List, [], ◌∷◌, ◌++◌, arith,
  length, length-append, if◌then◌else◌, has, with, bits, has-with, ◌≢◌, ◌⊎◌, Bool-cases, ◌==◌, inl,
  inr,
}
use linux_gpib.Uapi.Errno.{epipe, enomem}
use linux_gpib.Uapi.Status.{dtas, dcas, cic, atn, event_dev_trg, event_dev_clr}
use linux_gpib.Kernel.Types.{EventQueue, Board, init_event_queue}
use linux_gpib.Kernel.EventQueue.{
  max_num_events, pop_gpib_event, push_gpib_event_nolock, push_gpib_event, drain_events, note_event,
  num_gpib_events,
}

-- The count is the length of the list, and within the limit.
pub record IsValid (q : EventQueue) : Type 0 where
  pub counted : q.num_events ≡ length q.events
  pub bounded : q.num_events ≤ max_num_events

pub init-IsValid : IsValid init_event_queue
init-IsValid = record { counted = refl; bounded = omega arith }

pub push-IsValid :
    (alloc : Bool) (q : EventQueue) (event : ℕ)
    → IsValid q
    → IsValid (push_gpib_event_nolock alloc q event).1
unfolding push_gpib_event_nolock
push-IsValid alloc q event v = ground (arith, length-append q.events (event ∷ []))

pub pop-IsValid : (q : EventQueue) → IsValid q → IsValid (pop_gpib_event q).2
unfolding pop_gpib_event
pop-IsValid q v = ground arith

-- With room and memory a push appends the event; with room and no memory it flags a loss; on a
-- full queue it fails with -EPIPE, keeps the old events, drops the new one, and leaves no loss
-- flagged, whether or not one was flagged before.
pub push_cases :
    (alloc : Bool) (q : EventQueue) (event : ℕ)
    → IsValid q
    → let (retval, q') = push_gpib_event_nolock alloc q event in
      ((q.num_events < 1024)
        × (alloc ≡ true)
        × (retval ≡ pos 0)
        × (q'.events ≡ q.events ++ event ∷ [])
        × (q'.dropped_event ≡ q.dropped_event))
      ⊎ ((q.num_events < 1024)
          × (alloc ≡ false)
          × (retval ≡ enomem)
          × (q'.events ≡ q.events)
          × (q'.dropped_event ≡ true))
      ⊎ ((q.num_events ≡ 1024)
          × (retval ≡ epipe)
          × (q'.events ≡ q.events)
          × (q'.dropped_event ≡ false))
unfolding push_gpib_event_nolock
push_cases alloc q event v = ground arith

-- A flagged loss is reported by the next pop of a queue that is not empty, once: the pop fails
-- with -EPIPE and takes nothing, and the pop after it takes the oldest event.
pub loss_reported_once :
    (q : EventQueue) (event : ℕ) (rest : List ℕ)
    → IsValid q
    → q.dropped_event ≡ true
    → q.events ≡ event ∷ rest
    → let (retval, _, q') = pop_gpib_event q in
      let (retval', got, q'') = pop_gpib_event q' in
      (retval ≡ epipe)
      × (q'.events ≡ q.events)
      × (retval' ≡ pos 0)
      × (got ≡ some event)
      × (q''.events ≡ rest)
unfolding pop_gpib_event
loss_reported_once q event rest v dropped full = ground arith

-- how many pops empty the queue
abbrev pub pops_left : EventQueue → ℕ
pops_left q = q.num_events + (if q.dropped_event then 1 else 0)

pop-pops_left :
    (q : EventQueue) → IsValid q → q.num_events ≢ 0 → pops_left (pop_gpib_event q).2 < pops_left q
unfolding pop_gpib_event
pop-pops_left q v h = ground arith

-- The loop of `gpib_deallocate_board` ends with a queue that holds no event, if the fuel exceeds
-- the number of events by two.
pub drain_events_total :
    (fuel : ℕ) (q : EventQueue)
    → IsValid q
    → pops_left q < fuel
    → (q' : EventQueue) × (drain_events fuel q ≡ some q') × (q'.events ≡ [])
unfolding drain_events
drain_events_total zero q v h = absurd (omega arith)
drain_events_total (suc fuel) q v h = elim (Bool-cases (num_gpib_events q == 0)) [
  | inl done ↦ (q, rw done, ground arith)
  | inr more ↦
      let (q', e, empty) =
        drain_events_total fuel (pop_gpib_event q).2 (pop-IsValid q v)
          (omega (arith, pop-pops_left q v (ground arith))) in
      (q', rw more e, empty)
]

note_event-has :
    (status event k : ℕ)
    → (dtas == k) ≡ false
    → (dcas == k) ≡ false
    → has (note_event status event) k ≡ has status k
unfolding note_event
note_event-has status event k h h' =
    ground
      (arith, has-with status dtas k, has-with status dcas k, has-with (with status dtas) dcas k)

-- A trigger event sets DTAS and a device clear DCAS in the board's status; no other event
-- changes the status, and none changes the bits CIC and ATN.
pub push_gpib_event_status :
    {D : Type 0} (alloc : Bool) (board : Board D) (event : ℕ)
    → let status' = (push_gpib_event alloc board event).1.status in
      (event ≡ event_dev_trg → has status' dtas ≡ true)
      × (event ≡ event_dev_clr → has status' dcas ≡ true)
      × (event ≢ event_dev_trg → event ≢ event_dev_clr → status' ≡ board.status)
      × (has status' cic ≡ has board.status cic)
      × (has status' atn ≡ has board.status atn)
unfolding push_gpib_event
push_gpib_event_status alloc board event = (
  λ h. rw h (simp bits),
  λ h. rw h (simp bits),
  λ h k. ground arith,
  note_event-has board.status event cic refl refl,
  note_event-has board.status event atn refl refl,
)
