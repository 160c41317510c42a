-- ===== src/Chips/Nec7210/Transfer.antt =====
-- linux-gpib-kernel/drivers/gpib/nec7210/nec7210.c: writing data without DMA. The loop of
-- `pio_write` runs on fuel.
use linux_gpib.Prelude.{
  ℕ, zero, suc, ◌+◌, ◌-◌, Bool, true, false, not, ◌&&◌, ◌||◌, ℤ, pos, is_neg, ◌==ℤ◌, List, [], ◌∷◌,
  ◌==◌, ltb, if◌then◌else◌, length, take, drop, has,
}
use linux_gpib.Uapi.Errno.{eintr, etimedout, eio, erestartsys}
use linux_gpib.Uapi.Status.{lacs, tacs, atn, timo}
use linux_gpib.Chips.Nec7210.{Chip, cdor, auxmr, aux_seoi, write_byte}
use linux_gpib.Chips.Nec7210.Waiting.{Arrival, WaitEnd, woken, interrupted, asleep, wait_until}

-- What a function that waits comes to: its result with the chip and what is still to happen, a
-- sleep that does not end, or a loop whose fuel ran out.
pub data Outcome (A : Type 0) : Type 0 where
  done : A → Chip → List Arrival → Outcome A
  sleeping : Outcome A
  out_of_fuel : Outcome A

-- the condition of `pio_write_wait`
unfoldable pub write_condition : Bool → Bool → Bool → Chip → Bool
write_condition on_lacs on_atn on_bus_error c =
    (has c.status tacs && c.write_ready)
    || c.dev_clear
    || (on_bus_error && c.bus_error)
    || (on_lacs && has c.status lacs)
    || (on_atn && has c.status atn)
    || has c.status timo

-- what `pio_write_wait` does when the condition holds
unfoldable pub woken_result : Bool → Chip → ℤ × Chip
woken_result on_bus_error c =
    if has c.status timo
    then (etimedout, c)
    else (if c.dev_clear
        then (eintr, c)
        else (if on_bus_error && c.bus_error
            then (eio, record c { bus_error = false })
            else (pos 0, c)))

unfoldable pub end_wait : Bool → WaitEnd → Outcome ℤ
end_wait on_bus_error asleep = sleeping
end_wait on_bus_error (interrupted c later) = done erestartsys c later
end_wait on_bus_error (woken c later) =
    let (retval, c') = woken_result on_bus_error c in done retval c' later

unfoldable pub pio_write_wait : Bool → Bool → List Arrival → Chip → Outcome ℤ
pio_write_wait on_lacs on_atn later c =
    end_wait c.is_nec7210 (wait_until (write_condition on_lacs on_atn c.is_nec7210) later c)

-- one byte handed to the chip, under the spinlock
unfoldable pub write_data : ℕ → Chip → Chip
write_data byte c = write_byte byte cdor (record c { bus_error = false; write_ready = false })

-- a result with `*bytes_written`
unfoldable pub with_count : ℕ → Outcome ℤ → Outcome (ℤ × ℕ)
with_count bytes_written sleeping = sleeping
with_count bytes_written out_of_fuel = out_of_fuel
with_count bytes_written (done retval c later) = done (retval, bytes_written) c later

-- The loop of `pio_write`, with its variables. The pair is the result and `*bytes_written`.
unfoldable pub write_bytes : ℕ → List ℕ → ℕ → ℕ → ℕ → ℕ → List Arrival → Chip → Outcome (ℤ × ℕ)
write_bytes zero buffer max_bus_errors errors last_count bytes_written later c = out_of_fuel
write_bytes (suc fuel) buffer max_bus_errors errors last_count bytes_written later c =
    elim (drop bytes_written buffer) [
      | [] ↦ with_count bytes_written (pio_write_wait true true later c)
      | byte ∷ rest ↦ elim (pio_write_wait false false later c) [
        | sleeping ↦ sleeping
        | out_of_fuel ↦ out_of_fuel
        | done retval c' later' ↦
            let again =
              write_bytes fuel buffer max_bus_errors (suc errors) last_count last_count later' c' in
            let next =
              write_bytes fuel buffer max_bus_errors errors bytes_written (suc bytes_written) later'
                (write_data byte c') in
            if retval ==ℤ eio
            then (if ltb max_bus_errors (suc errors)
                then done (retval, last_count) c' later'
                else again)
            else (if is_neg retval then done (retval, bytes_written) c' later' else next)
      ]
    ]

unfoldable pub max_bus_errors_of : ℕ → ℕ
max_bus_errors_of length = if ltb 1000 length then length else 1000

unfoldable pub pio_write : ℕ → List ℕ → List Arrival → Chip → Outcome (ℤ × ℕ)
pio_write fuel buffer later c =
    write_bytes fuel buffer (max_bus_errors_of (length buffer)) 0 0 0 later
      (record c { bus_error = false })

-- END with the last byte
unfoldable pub write_last : ℕ → List ℕ → ℕ → List Arrival → Chip → Outcome (ℤ × ℕ)
write_last fuel buffer bytes_written later c = elim (pio_write_wait false false later c) [
  | sleeping ↦ sleeping
  | out_of_fuel ↦ out_of_fuel
  | done retval c' later' ↦
      if is_neg retval
      then done (retval, bytes_written) c' later'
      else elim (pio_write fuel (take 1 (drop bytes_written buffer)) later'
          (write_byte aux_seoi auxmr c')) [
            | sleeping ↦ sleeping
            | out_of_fuel ↦ out_of_fuel
            | done (retval', num_bytes) c'' later'' ↦
                done (retval', bytes_written + num_bytes) c'' later''
          ]
]

-- the bytes before the one that END goes with
unfoldable pub write_body : ℕ → List ℕ → List Arrival → Chip → Outcome (ℤ × ℕ)
write_body fuel body later c =
    if length body == 0 then done (pos 0, 0) c later else pio_write fuel body later c

-- The buffer is not empty if `send_eoi` is set.
unfoldable pub nec7210_write : ℕ → List ℕ → Bool → List Arrival → Chip → Outcome (ℤ × ℕ)
nec7210_write fuel buffer send_eoi later c =
    let body = if send_eoi then take (length buffer - 1) buffer else buffer in
    elim (write_body fuel body later (record c { dev_clear = false })) [
      | sleeping ↦ sleeping
      | out_of_fuel ↦ out_of_fuel
      | done (retval, count) c' later' ↦
          if is_neg retval || not send_eoi
          then done (retval, count) c' later'
          else write_last fuel buffer count later' c'
    ]
