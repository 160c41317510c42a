-- ===== src/Kernel/Tests/Queues.antt =====
-- The theorems on queues, on the list of devices and on address bytes, at concrete values.
use linux_gpib.Prelude.{ℕ, ◌+◌, ◌<◌, ◌≡◌, refl, ◌⊎◌, true, false, arith, pos, negsuc, List, [], ◌∷◌}
use linux_gpib.Uapi.Errno.{epipe, enomem}
use linux_gpib.Uapi.Commands.{gpib_address_equal}
use linux_gpib.Kernel.Types.{
  StatusQueue, EventQueue, Board, init_gpib_board, init_gpib_status_queue,
}
use linux_gpib.Kernel.StatusQueue.Spec.{push, pop, replies}
use linux_gpib.Kernel.StatusQueue.Fifo.{init-IsValid, run, run_refines}
use linux_gpib.Kernel.EventQueue.{push_gpib_event_nolock}
use linux_gpib.Kernel.EventQueue.Laws
use linux_gpib.Kernel.Devices.Refs.{refs, IsDistinct}

abbrev meter : StatusQueue
meter = init_gpib_status_queue 5 (negsuc 0)

run_refines_example :
    run meter (push true 0x41 ∷ push true 0x42 ∷ pop ∷ pop ∷ pop ∷ [])
    ≡ replies [] (push true 0x41 ∷ push true 0x42 ∷ pop ∷ pop ∷ pop ∷ [])
run_refines_example =
    run_refines meter (push true 0x41 ∷ push true 0x42 ∷ pop ∷ pop ∷ pop ∷ [])
      (init-IsValid 5 (negsuc 0))

-- two events, and a third one lost
abbrev lossy : EventQueue
lossy = record { events = 1 ∷ 2 ∷ []; num_events = 2; dropped_event = true }

lossy-IsValid : Laws.IsValid lossy
lossy-IsValid = record { counted = refl; bounded = omega arith }

push_cases_example :
    let (retval, q') = push_gpib_event_nolock true lossy 3 in
    ((2 < 1024)
      × (true ≡ true)
      × (retval ≡ pos 0)
      × (q'.events ≡ 1 ∷ 2 ∷ 3 ∷ [])
      × (q'.dropped_event ≡ true))
    ⊎ ((2 < 1024)
        × (true ≡ false)
        × (retval ≡ enomem)
        × (q'.events ≡ 1 ∷ 2 ∷ [])
        × (q'.dropped_event ≡ true))
    ⊎ ((lossy.num_events ≡ 1024)
        × (retval ≡ epipe)
        × (q'.events ≡ 1 ∷ 2 ∷ [])
        × (q'.dropped_event ≡ false))
push_cases_example = Laws.push_cases true lossy 3 lossy-IsValid

abbrev quiet : Board ℕ
quiet = init_gpib_board

-- address 5 opened twice
abbrev twice : List StatusQueue
twice = record (init_gpib_status_queue 5 (negsuc 0)) { reference_count = 2 } ∷ []

twice-small : refs twice 5 (negsuc 0) + 1 < 0x1_0000_0000
unfolding refs gpib_address_equal
twice-small = omega arith

twice-IsDistinct : IsDistinct twice
unfolding refs
twice-IsDistinct = (omega arith, refl, tt)

abbrev the_pad : ℕ
the_pad = 5
