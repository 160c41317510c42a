-- ===== src/Chips/Nec7210/Mirror/Writes.antt =====
-- linux-gpib-kernel/drivers/gpib/nec7210/nec7210.c: the software copies of the registers under
-- writing.
use linux_gpib.Prelude.{
  ℕ, zero, suc, ◌-◌, Bool, true, false, not, ◌&&◌, ◌||◌, ◌≡◌, refl, ℤ, pos, is_neg, ◌==ℤ◌, List, [],
  ◌∷◌, ◌==◌, ltb, length, take, drop, has, if◌then◌else◌, Bool-cases, inl, inr, ◌⊎◌,
}
use mathlib.Core.Path.{subst}
use linux_gpib.Uapi.Status.{timo}
use linux_gpib.Uapi.Errno.{eio}
use linux_gpib.Chips.Nec7210.{Chip, auxmr, aux_seoi, write_byte}
use linux_gpib.Chips.Nec7210.Waiting.{Arrival, WaitEnd, woken, interrupted, asleep, wait_until}
use linux_gpib.Chips.Nec7210.Transfer.{
  Outcome, done, sleeping, out_of_fuel, write_condition, woken_result, end_wait, pio_write_wait,
  write_data, with_count, write_bytes, max_bus_errors_of, pio_write, write_last, write_body,
  nec7210_write,
}
use linux_gpib.Chips.Nec7210.Resend.{Outcome-cases}
use linux_gpib.Chips.Nec7210.Mirror.{IsMirrored}
use linux_gpib.Chips.Nec7210.Mirror.Settings.{command-IsMirrored}
use linux_gpib.Chips.Nec7210.Mirror.Transfers.{
  EndsMirrored, LeavesMirrored, wait_until-EndsMirrored, data_byte-IsMirrored, if-LeavesMirrored,
}

woken_result-IsMirrored :
    (on_bus_error : Bool) (c : Chip) → IsMirrored c → IsMirrored (woken_result on_bus_error c).1
unfolding woken_result
woken_result-IsMirrored on_bus_error c h = elim (Bool-cases (has c.status timo)) [
  | inl e ↦ simp e h
  | inr e ↦ elim (Bool-cases c.dev_clear) [
    | inl e2 ↦ simp (e, e2) h
    | inr e2 ↦ elim (Bool-cases (on_bus_error && c.bus_error)) [
      | inl e3 ↦ simp (e, e2, e3) h
      | inr e3 ↦ simp (e, e2, e3) h
    ]
  ]
]

end_wait-LeavesMirrored :
    (on_bus_error : Bool) (w : WaitEnd) → EndsMirrored w → LeavesMirrored (end_wait on_bus_error w)
unfolding end_wait
end_wait-LeavesMirrored on_bus_error asleep h = tt
end_wait-LeavesMirrored on_bus_error (interrupted c later) h = h
end_wait-LeavesMirrored on_bus_error (woken c later) h = woken_result-IsMirrored on_bus_error c h

write_wait-LeavesMirrored :
    (on_lacs on_atn : Bool) (later : List Arrival) (c : Chip)
    → IsMirrored c
    → LeavesMirrored (pio_write_wait on_lacs on_atn later c)
unfolding pio_write_wait
write_wait-LeavesMirrored on_lacs on_atn later c h =
    let condition = write_condition on_lacs on_atn c.is_nec7210 in
    end_wait-LeavesMirrored c.is_nec7210 (wait_until condition later c)
      (wait_until-EndsMirrored condition later c h)

with_count-LeavesMirrored :
    (n : ℕ) (o : Outcome ℤ) → LeavesMirrored o → LeavesMirrored (with_count n o)
unfolding with_count
with_count-LeavesMirrored n sleeping h = tt
with_count-LeavesMirrored n out_of_fuel h = tt
with_count-LeavesMirrored n (done r c later) h = h

write_data-IsMirrored : (byte : ℕ) (c : Chip) → IsMirrored c → IsMirrored (write_data byte c)
unfolding write_data
write_data-IsMirrored byte c h =
    data_byte-IsMirrored byte (record c { bus_error = false; write_ready = false }) h

List-cases : (xs : List ℕ) → (xs ≡ []) ⊎ ((x : ℕ) × (rest : List ℕ) × (xs ≡ x ∷ rest))
List-cases [] = inl refl
List-cases (x ∷ rest) = inr (x, rest, refl)

write_bytes-LeavesMirrored :
    (fuel : ℕ) (buffer : List ℕ) (limit errors last_count n : ℕ) (later : List Arrival) (c : Chip)
    → IsMirrored c
    → LeavesMirrored (write_bytes fuel buffer limit errors last_count n later c)
unfolding write_bytes
write_bytes-LeavesMirrored zero buffer limit errors last_count n later c h = tt
write_bytes-LeavesMirrored (suc fuel) buffer limit errors last_count n later c h =
    elim (List-cases (drop n buffer)) [
      | inl e ↦
          simp (write_bytes, e)
            (with_count-LeavesMirrored n (pio_write_wait true true later c)
              (write_wait-LeavesMirrored true true later c h))
      | inr (byte, left, e) ↦
          let o = write_wait-LeavesMirrored false false later c h in
          elim (Outcome-cases (pio_write_wait false false later c)) [
            | inl e2 ↦ simp (write_bytes, e, e2) tt
            | inr (inl e2) ↦ simp (write_bytes, e, e2) tt
            | inr (inr (retval, c', later', e2)) ↦
                let h' : IsMirrored c' = subst LeavesMirrored e2 o in
                let given_up : Outcome (ℤ × ℕ) = done (retval, last_count) c' later' in
                let failed : Outcome (ℤ × ℕ) = done (retval, n) c' later' in
                let over = ltb limit (suc errors) in
                let again =
                  write_bytes fuel buffer limit (suc errors) last_count last_count later' c' in
                let next =
                  write_bytes fuel buffer limit errors n (suc n) later' (write_data byte c') in
                let lost = if over then given_up else again in
                let other = if is_neg retval then failed else next in
                simp (write_bytes, e, e2)
                  (if-LeavesMirrored (retval ==ℤ eio) lost other
                    (if-LeavesMirrored over given_up again h' (
                      write_bytes-LeavesMirrored fuel buffer limit (suc errors) last_count
                        last_count later' c' h'))
                    (if-LeavesMirrored (is_neg retval) failed next h' (
                      write_bytes-LeavesMirrored fuel buffer limit errors n (suc n) later'
                        (write_data byte c') (write_data-IsMirrored byte c' h'))))
          ]
    ]

pio_write-LeavesMirrored :
    (fuel : ℕ) (buffer : List ℕ) (later : List Arrival) (c : Chip)
    → IsMirrored c
    → LeavesMirrored (pio_write fuel buffer later c)
unfolding pio_write
pio_write-LeavesMirrored fuel buffer later c h =
    write_bytes-LeavesMirrored fuel buffer (max_bus_errors_of (length buffer)) 0 0 0 later
      (record c { bus_error = false }) h

write_last-LeavesMirrored :
    (fuel : ℕ) (buffer : List ℕ) (n : ℕ) (later : List Arrival) (c : Chip)
    → IsMirrored c
    → LeavesMirrored (write_last fuel buffer n later c)
unfolding write_last has
write_last-LeavesMirrored fuel buffer n later c h =
    let o = write_wait-LeavesMirrored false false later c h in
    elim (Outcome-cases (pio_write_wait false false later c)) [
      | inl e ↦ simp (write_last, e) tt
      | inr (inl e) ↦ simp (write_last, e) tt
      | inr (inr (retval, c', later', e)) ↦
          let h' : IsMirrored c' = subst LeavesMirrored e o in
          let last = take 1 (drop n buffer) in
          let c2 = write_byte aux_seoi auxmr c' in
          let o2 =
            pio_write-LeavesMirrored fuel last later' c2 (command-IsMirrored aux_seoi c' refl h') in
          elim (Bool-cases (is_neg retval)) [
            | inl neg ↦ simp (write_last, e, neg) h'
            | inr fine ↦ elim (Outcome-cases (pio_write fuel last later' c2)) [
              | inl e2 ↦ simp (write_last, e, fine, e2) tt
              | inr (inl e2) ↦ simp (write_last, e, fine, e2) tt
              | inr (inr ((r, k), c'', later'', e2)) ↦
                  simp (write_last, e, fine, e2) (subst LeavesMirrored e2 o2)
            ]
          ]
    ]

pub nec7210_write-LeavesMirrored :
    (fuel : ℕ) (buffer : List ℕ) (send_eoi : Bool) (later : List Arrival) (c : Chip)
    → IsMirrored c
    → LeavesMirrored (nec7210_write fuel buffer send_eoi later c)
unfolding nec7210_write write_body
nec7210_write-LeavesMirrored fuel buffer send_eoi later c h =
    let body = if send_eoi then take (length buffer - 1) buffer else buffer in
    let start = record c { dev_clear = false } in
    let nothing : Outcome (ℤ × ℕ) = done (pos 0, 0) start later in
    let o : LeavesMirrored (write_body fuel body later start) =
      if-LeavesMirrored (length body == 0) nothing (pio_write fuel body later start) h
        (pio_write-LeavesMirrored fuel body later start h) in
    elim (Outcome-cases (write_body fuel body later start)) [
      | inl e ↦ simp (nec7210_write, e) tt
      | inr (inl e) ↦ simp (nec7210_write, e) tt
      | inr (inr ((retval, n), c', later', e)) ↦
          let h' : IsMirrored c' = subst LeavesMirrored e o in
          let ended : Outcome (ℤ × ℕ) = done (retval, n) c' later' in
          let stops = is_neg retval || not send_eoi in
          simp (nec7210_write, e)
            (if-LeavesMirrored stops ended (write_last fuel buffer n later' c') h'
              (write_last-LeavesMirrored fuel buffer n later' c' h'))
    ]
