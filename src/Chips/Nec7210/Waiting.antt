-- ===== src/Chips/Nec7210/Waiting.antt =====
-- linux-gpib-kernel/drivers/gpib/nec7210/nec7210.c: `wait_event_interruptible` on the board's wait
-- queue. What happens while a process sleeps is a list, oldest first; interrupts are taken there
-- and not between the steps of a function.
use linux_gpib.Prelude.{Bool, ◌&&◌, List, [], ◌∷◌, if◌then◌else◌, with}
use linux_gpib.Uapi.Status.{timo}
use linux_gpib.Chips.Nec7210.{Irq, Chip, nec7210_interrupt_have_status}

-- an interrupt of the chip, the watchdog timer, and a signal to the process
pub data Arrival : Type 0 where
  interrupt : Irq → Arrival
  timer : Arrival
  signal : Arrival

-- How a wait ends: the condition holds, or a signal came. The list is what is still to happen.
-- `asleep`: nothing more happens.
pub data WaitEnd : Type 0 where
  woken : Chip → List Arrival → WaitEnd
  interrupted : Chip → List Arrival → WaitEnd
  asleep : WaitEnd

-- The condition is looked at when the process is woken; a signal stays pending.
unfoldable pub sleep : (Chip → Bool) → List Arrival → Chip → WaitEnd
sleep condition [] c = asleep
sleep condition (signal ∷ later) c = interrupted c (signal ∷ later)
sleep condition (timer ∷ later) c =
    let c' = record c { status = with c.status timo } in
    let rest = sleep condition later c' in if condition c' then woken c' later else rest
sleep condition (interrupt irq ∷ later) c =
    let (handled, c') = nec7210_interrupt_have_status irq c in
    let rest = sleep condition later c' in if handled && condition c' then woken c' later else rest

unfoldable pub wait_until : (Chip → Bool) → List Arrival → Chip → WaitEnd
wait_until condition later c =
    let rest = sleep condition later c in if condition c then woken c later else rest
