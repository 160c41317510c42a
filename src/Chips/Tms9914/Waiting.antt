-- ===== src/Chips/Tms9914/Waiting.antt =====
-- linux-gpib-kernel/drivers/gpib/tms9914/tms9914.c: `wait_event_interruptible` on the board's wait
-- queue. Interrupts are taken while the process sleeps, and not between the steps of a function.
-- A signal that is pending stays so, and ends every later sleep. After the last thing to happen the
-- process sleeps for ever, which `asleep` records.
use linux_gpib.Prelude.{Bool, true, false, ◌&&◌, List, [], ◌∷◌, if◌then◌else◌, with}
use linux_gpib.Uapi.Status.{timo}
use linux_gpib.Chips.Tms9914.{Arrival, interrupt, timer, signal, Tms}
use linux_gpib.Chips.Tms9914.Interrupts.{tms9914_interrupt_have_status}

-- `watchdog_timeout` of gpib_os.c
unfoldable pub fire : Tms → Tms
fire c =
    if c.timer_pending then record c { status = with c.status timo; timer_pending = false } else c

-- The first part says that a signal ended the sleep, or that nothing does; the condition is looked at
-- on each wake-up.
unfoldable pub sleep : (Tms → Bool) → List Arrival → Tms → Bool × Tms
sleep condition [] c = (true, record c { later = []; asleep = true })
sleep condition (signal ∷ later) c = (true, record c { later = signal ∷ later })
sleep condition (timer ∷ later) c =
    let c' = fire c in
    let rest = sleep condition later c' in
    if condition c' then (false, record c' { later = later }) else rest
sleep condition (interrupt irq ∷ later) c =
    let (handled, c') = tms9914_interrupt_have_status irq c in
    let rest = sleep condition later c' in
    if handled && condition c' then (false, record c' { later = later }) else rest

unfoldable pub wait_until : (Tms → Bool) → Tms → Bool × Tms
wait_until condition c =
    let rest = sleep condition c.later c in if condition c then (false, c) else rest
