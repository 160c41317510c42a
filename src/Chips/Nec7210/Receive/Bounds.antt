-- ===== src/Chips/Nec7210/Receive/Bounds.antt =====
-- What `nec7210_read` of linux-gpib-kernel/drivers/gpib/nec7210/nec7210.c returns, and that it does.
use mathlib.Core.Path.{subst}
use linux_gpib.Prelude.{
  ℕ, zero, suc, ◌+◌, ◌≤◌, ◌<◌, Bool, true, false, ◌⊎◌, ◌≡◌, refl, inl, inr, ℤ, pos, List, [], ◌∷◌,
  ◌==◌, ltb, leb, if◌then◌else◌, length, length-append, has, with, Bool-cases, arith,
}
use linux_gpib.Uapi.Errno.{eintr, etimedout, erestartsys}
use linux_gpib.Uapi.Status.{timo}
use linux_gpib.Chips.Nec7210.{Chip, nec7210_interrupt_have_status}
use linux_gpib.Chips.Nec7210.Waiting.{
  Arrival, interrupt, timer, signal, WaitEnd, woken, interrupted, asleep, sleep, wait_until,
}
use linux_gpib.Chips.Nec7210.Transfer.{Outcome, done, sleeping, out_of_fuel}
use linux_gpib.Chips.Nec7210.Receive.{
  nec7210_release_rfd_holdoff, nec7210_read_data_in, read_condition, read_byte_in, read_bytes,
  nec7210_read,
}

-- a process is woken where its condition holds
unfoldable Holds : (Chip → Bool) → WaitEnd → Type 0
Holds condition (woken c later) = condition c ≡ true
Holds condition (interrupted c later) = Unit {0}
Holds condition asleep = Unit {0}

sleep-Holds :
    (condition : Chip → Bool) (later : List Arrival) (c : Chip)
    → Holds condition (sleep condition later c)
unfolding sleep Holds
sleep-Holds condition [] c = tt
sleep-Holds condition (signal ∷ later) c = tt
sleep-Holds condition (timer ∷ later) c =
    let c' = record c { status = with c.status timo } in
    let rest = sleep-Holds condition later c' in
    elim (Bool-cases (condition c')) [ inl e ↦ simp e refl | inr e ↦ simp e rest ]
sleep-Holds condition (interrupt irq ∷ later) c =
    let (handled, c') = nec7210_interrupt_have_status irq c in
    let rest = sleep-Holds condition later c' in
    elim (Bool-cases handled) [
      | inl h ↦ elim (Bool-cases (condition c')) [
        | inl e ↦ simp (h, e) refl
        | inr e ↦ simp (h, e) rest
      ]
      | inr h ↦ simp h rest
    ]

wait_until-Holds :
    (condition : Chip → Bool) (later : List Arrival) (c : Chip)
    → Holds condition (wait_until condition later c)
unfolding wait_until Holds
wait_until-Holds condition later c = elim (Bool-cases (condition c)) [
  | inl e ↦ simp e refl
  | inr e ↦ simp e (sleep-Holds condition later c)
]

-- A read that has returned: it stored no more than was asked for, and no less unless it failed or
-- END came.
unfoldable pub IsRead : ℕ → Outcome (ℤ × List ℕ × Bool) → Type 0
IsRead size (done (retval, buffer, end) c later) =
    (length buffer ≤ size)
    × ((retval ≡ eintr)
        ⊎ (retval ≡ etimedout)
        ⊎ (retval ≡ erestartsys)
        ⊎ ((retval ≡ pos 0) × ((end ≡ true) ⊎ (length buffer ≡ size))))
IsRead size sleeping = Unit {0}
IsRead size out_of_fuel = 1 ≤ 0

pub WaitEnd-cases :
    (w : WaitEnd)
    → (w ≡ asleep)
      ⊎ ((c : Chip) × (later : List Arrival) × (w ≡ interrupted c later))
      ⊎ ((c : Chip) × (later : List Arrival) × (w ≡ woken c later))
WaitEnd-cases asleep = inl refl
WaitEnd-cases (interrupted c later) = inr (inl (c, later, refl))
WaitEnd-cases (woken c later) = inr (inr (c, later, refl))

length-read_byte_in :
    (buffer : List ℕ) (c : Chip) → length (read_byte_in buffer c).0 ≡ length buffer + 1
unfolding read_byte_in nec7210_read_data_in
length-read_byte_in buffer c = length-append buffer _

read_bytes-IsRead :
    (fuel size : ℕ) (buffer : List ℕ) (later : List Arrival) (c : Chip)
    → length buffer ≤ size
    → size + 1 ≤ fuel + length buffer
    → IsRead size (read_bytes fuel size buffer later c)
unfolding read_bytes IsRead Holds read_condition
read_bytes-IsRead zero size buffer later c inside enough = omega arith
read_bytes-IsRead (suc fuel) size buffer later c inside enough =
    elim (Bool-cases (leb size (length buffer))) [
      | inl full ↦
          simp (read_bytes, full)
            (inside, inr (inr (inr (refl, inr (ground (arith, full, inside))))))
      | inr room ↦ elim (WaitEnd-cases (wait_until read_condition later c)) [
        | inl w ↦ simp (read_bytes, room, w) tt
        | inr (inl (c', later', w)) ↦ simp (read_bytes, room, w) (inside, inr (inr (inl refl)))
        | inr (inr (c', later', w)) ↦
            let holds = subst (Holds read_condition) w (wait_until-Holds read_condition later c) in
            let (more, end, taken) = read_byte_in buffer c' in
            let counted = length-read_byte_in buffer c' in
            let below : length buffer < size = ground (arith, room) in
            elim (Bool-cases c'.read_ready) [
              | inl r ↦ elim (Bool-cases end) [
                | inl e ↦
                    simp (read_bytes, room, w, r, e) (omega arith, inr (inr (inr (refl, inl refl))))
                | inr e ↦ elim (Bool-cases (has c'.status timo)) [
                  | inl t ↦ simp (read_bytes, room, w, r, e, t) (omega arith, inr (inl refl))
                  | inr t ↦ elim (Bool-cases c'.dev_clear) [
                    | inl d ↦ simp (read_bytes, room, w, r, e, t, d) (omega arith, inl refl)
                    | inr d ↦
                        simp (read_bytes, room, w, r, e, t, d)
                          (read_bytes-IsRead fuel size more later'
                            (if ltb (length more) size
                              then nec7210_release_rfd_holdoff taken
                              else taken)
                            (omega arith) (omega arith))
                  ]
                ]
              ]
              | inr r ↦ elim (Bool-cases (has c'.status timo)) [
                | inl t ↦ simp (read_bytes, room, w, r, t) (inside, inr (inl refl))
                | inr t ↦ elim (Bool-cases c'.dev_clear) [
                  | inl d ↦ simp (read_bytes, room, w, r, t, d) (inside, inl refl)
                  | inr d ↦ let none_set : false ≡ true = simp (r, d, t) at holds in absurd cc
                ]
              ]
            ]
      ]
    ]

-- With more fuel than bytes asked for, a read returns, unless the process sleeps for ever: with
-- -EINTR, -ETIMEDOUT or -ERESTARTSYS, or with 0, and then END came or all the bytes asked for are
-- stored; in no case are more stored.
pub nec7210_read-IsRead :
    (fuel size : ℕ) (later : List Arrival) (c : Chip)
    → size < fuel
    → IsRead size (nec7210_read fuel size later c)
unfolding nec7210_read IsRead
nec7210_read-IsRead fuel size later c enough = elim (Bool-cases (size == 0)) [
  | inl e ↦ simp e (omega arith, inr (inr (inr (refl, inr (ground (arith, e))))))
  | inr e ↦ simp e (
      read_bytes-IsRead fuel size [] later
        (nec7210_release_rfd_holdoff (record c { dev_clear = false })) (omega arith) (omega arith))
]
