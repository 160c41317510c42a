-- ===== src/Chips/Nec7210/Bounds.antt =====
-- How long the loop of `pio_write` in linux-gpib-kernel/drivers/gpib/nec7210/nec7210.c can run.
use linux_gpib.Prelude.{
  ℕ, zero, suc, ◌+◌, ◌-◌, ◌*◌, ◌≤◌, ◌<◌, Bool, true, false, not, ◌||◌, ◌≡◌, refl, sym, ap, ◌∙◌, inl,
  inr, ℤ, is_neg, ◌==ℤ◌, List, ◌==◌, ltb, if◌then◌else◌, length, take, drop, length-take,
  Bool-cases, arith,
}
use linux_gpib.Uapi.Errno.{eio}
use linux_gpib.Chips.Nec7210.{Chip, auxmr, aux_seoi, write_byte}
use linux_gpib.Chips.Nec7210.Waiting.{Arrival, WaitEnd, woken, interrupted, asleep, wait_until}
use linux_gpib.Chips.Nec7210.Transfer.{
  Outcome, done, sleeping, out_of_fuel, end_wait, write_condition, pio_write_wait, write_data,
  with_count, write_bytes, max_bus_errors_of, pio_write, write_last, write_body, nec7210_write,
}
use linux_gpib.Chips.Nec7210.Resend.{Outcome-cases, drop-cases}

-- whether the fuel was enough
unfoldable pub has_run : {A : Type 0} → Outcome A → Bool
has_run (done x c later) = true
has_run sleeping = true
has_run out_of_fuel = false

end_wait_runs : (on_bus_error : Bool) (w : WaitEnd) → has_run (end_wait on_bus_error w) ≡ true
unfolding has_run end_wait
end_wait_runs on_bus_error asleep = refl
end_wait_runs on_bus_error (interrupted c later) = refl
end_wait_runs on_bus_error (woken c later) = refl

pio_write_wait_runs :
    (on_lacs on_atn : Bool) (later : List Arrival) (c : Chip)
    → has_run (pio_write_wait on_lacs on_atn later c) ≡ true
unfolding pio_write_wait
pio_write_wait_runs on_lacs on_atn later c =
    end_wait_runs c.is_nec7210 (wait_until (write_condition on_lacs on_atn c.is_nec7210) later c)

with_count_runs : (n : ℕ) (o : Outcome ℤ) → has_run (with_count n o) ≡ has_run o
unfolding has_run with_count
with_count_runs n sleeping = refl
with_count_runs n out_of_fuel = refl
with_count_runs n (done retval c later) = refl

write_bytes_runs :
    (fuel : ℕ) (buffer : List ℕ) (limit errors last_count bytes_written : ℕ) (later : List Arrival)
    (c : Chip)
    → errors ≤ limit
    → last_count ≤ length buffer
    → bytes_written ≤ length buffer
    → bytes_written ≤ last_count + 1
    → limit * 2 + length buffer + 1 ≤ fuel + errors * 2 + bytes_written
    → has_run (write_bytes fuel buffer limit errors last_count bytes_written later c) ≡ true
unfolding write_bytes has_run
write_bytes_runs zero buffer limit errors last_count bytes_written later c few in_last inside near
      enough =
    absurd (omega arith)
write_bytes_runs (suc fuel) buffer limit errors last_count bytes_written later c few in_last inside
      near enough =
    elim (drop-cases bytes_written buffer inside) [
      | inl (none_left, counted) ↦
          simp (write_bytes, none_left)
            (with_count_runs bytes_written (pio_write_wait true true later c)
              ∙ pio_write_wait_runs true true later c)
      | inr (byte, rest, e, grown, more) ↦
          elim (Outcome-cases (pio_write_wait false false later c)) [
            | inl o ↦ simp (write_bytes, e, o) refl
            | inr (inl o) ↦
                let stops = sym (ap has_run o) ∙ pio_write_wait_runs false false later c in
                absurd cc
            | inr (inr (retval, c', later', o)) ↦ elim (Bool-cases (retval ==ℤ eio)) [
              | inl failed ↦ elim (Bool-cases (ltb limit (suc errors))) [
                | inl over ↦ simp (write_bytes, e, o, failed, over) refl
                | inr under ↦
                    let room : suc errors ≤ limit = ground (arith, under) in
                    simp (write_bytes, e, o, failed, under)
                      (write_bytes_runs fuel buffer limit (suc errors) last_count last_count later'
                        c' room in_last in_last (omega arith) (omega arith))
              ]
              | inr other ↦ elim (Bool-cases (is_neg retval)) [
                | inl neg ↦ simp (write_bytes, e, o, other, neg) refl
                | inr fine ↦
                    simp (write_bytes, e, o, other, fine)
                      (write_bytes_runs fuel buffer limit errors bytes_written (suc bytes_written)
                        later' (write_data byte c') few inside more (omega arith) (omega arith))
              ]
            ]
          ]
    ]

-- The loop of `pio_write` has at most as many rounds as the buffer has bytes, and two for each error
-- that it allows.
pio_write_total :
    (fuel : ℕ) (buffer : List ℕ) (later : List Arrival) (c : Chip)
    → max_bus_errors_of (length buffer) * 2 + length buffer + 1 ≤ fuel
    → has_run (pio_write fuel buffer later c) ≡ true
unfolding pio_write
pio_write_total fuel buffer later c enough =
    write_bytes_runs fuel buffer (max_bus_errors_of (length buffer)) 0 0 0 later
      (record c { bus_error = false }) (omega arith) (omega arith) (omega arith) (omega arith)
      (omega arith)

limit_grows : (m n : ℕ) → m ≤ n → max_bus_errors_of m ≤ max_bus_errors_of n
unfolding max_bus_errors_of
limit_grows m n h = ground arith

write_last_runs :
    (fuel : ℕ) (buffer : List ℕ) (bytes_written : ℕ) (later : List Arrival) (c : Chip)
    → max_bus_errors_of 1 * 2 + 2 ≤ fuel
    → has_run (write_last fuel buffer bytes_written later c) ≡ true
unfolding write_last has_run
write_last_runs fuel buffer bytes_written later c enough =
    elim (Outcome-cases (pio_write_wait false false later c)) [
      | inl o ↦ simp (write_last, o) refl
      | inr (inl o) ↦
          let stops = sym (ap has_run o) ∙ pio_write_wait_runs false false later c in absurd cc
      | inr (inr (retval, c', later', o)) ↦ elim (Bool-cases (is_neg retval)) [
        | inl neg ↦ simp (write_last, o, neg) refl
        | inr fine ↦
            let last = take 1 (drop bytes_written buffer) in
            let c2 = write_byte aux_seoi auxmr c' in
            let short : length last ≤ 1 =
              omega (arith, length-take 1 (drop bytes_written buffer)) in
            let room = limit_grows (length last) 1 short in
            let runs = pio_write_total fuel last later' c2 (omega arith) in
            elim (Outcome-cases (pio_write fuel last later' c2)) [
              | inl o2 ↦ simp (write_last, o, fine, o2) refl
              | inr (inl o2) ↦ let stops = sym (ap has_run o2) ∙ runs in absurd cc
              | inr (inr (r, c3, later3, o2)) ↦ simp (write_last, o, fine, o2) refl
            ]
      ]
    ]

write_body_runs :
    (fuel : ℕ) (body : List ℕ) (later : List Arrival) (c : Chip)
    → max_bus_errors_of (length body) * 2 + length body + 1 ≤ fuel
    → has_run (write_body fuel body later c) ≡ true
unfolding write_body has_run
write_body_runs fuel body later c enough = elim (Bool-cases (length body == 0)) [
  | inl e ↦ simp (write_body, e) refl
  | inr e ↦ simp (write_body, e) (pio_write_total fuel body later c enough)
]

body_length :
    (send_eoi : Bool) (buffer : List ℕ)
    → length (if send_eoi then take (length buffer - 1) buffer else buffer) ≤ length buffer
body_length true buffer = omega (arith, length-take (length buffer - 1) buffer)
body_length false buffer = omega arith

-- A write of a buffer that is not empty, with or without END, does not run out of fuel, whatever
-- the chip does: it returns or sleeps for ever. Enough fuel is the buffer's length, twice the errors
-- that are allowed for a buffer of that length, and one more.
pub nec7210_write_total :
    (fuel : ℕ) (buffer : List ℕ) (send_eoi : Bool) (later : List Arrival) (c : Chip)
    → max_bus_errors_of (length buffer) * 2 + length buffer + 1 ≤ fuel
    → 0 < length buffer
    → has_run (nec7210_write fuel buffer send_eoi later c) ≡ true
unfolding nec7210_write has_run
nec7210_write_total fuel buffer send_eoi later c enough some_bytes =
    let body = if send_eoi then take (length buffer - 1) buffer else buffer in
    let shorter : length body ≤ length buffer = body_length send_eoi buffer in
    let room = limit_grows (length body) (length buffer) shorter in
    let room1 = limit_grows 1 (length buffer) (omega arith) in
    let c1 = record c { dev_clear = false } in
    let runs = write_body_runs fuel body later c1 (omega arith) in
    elim (Outcome-cases (write_body fuel body later c1)) [
      | inl o ↦ simp (nec7210_write, o) refl
      | inr (inl o) ↦ let stops = sym (ap has_run o) ∙ runs in absurd cc
      | inr (inr ((retval, count), c', later', o)) ↦
          elim (Bool-cases (is_neg retval || not send_eoi)) [
            | inl e ↦ simp (nec7210_write, o, e) refl
            | inr e ↦
                simp (nec7210_write, o, e)
                  (write_last_runs fuel buffer count later' c' (omega arith))
          ]
    ]
