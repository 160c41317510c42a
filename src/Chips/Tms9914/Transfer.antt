-- ===== src/Chips/Tms9914/Transfer.antt =====
-- linux-gpib-kernel/drivers/gpib/tms9914/tms9914.c: reading and writing data. A result is followed
-- by what is stored through pointers, and by the chip.
use linux_gpib.Prelude.{
  ℕ, zero, suc, ◌+◌, ◌-◌, ◌%◌, Bool, true, false, not, ◌&&◌, ◌||◌, ℤ, pos, is_neg, List, [], ◌∷◌,
  ◌++◌, ◌==◌, ltb, if◌then◌else◌, length, take, drop, has,
}
use linux_gpib.Uapi.Errno.{eintr, etimedout, eio, erestartsys}
use linux_gpib.Uapi.Status.{timo, reos, bin}
use linux_gpib.Chips.Tms9914.{HoldoffMode, holdoff_none, holdoff_eoi, holdoff_all, Tms, write_byte}
use linux_gpib.Chips.Tms9914.Registers.{auxcr, cdor, aux_seoi}
use linux_gpib.Chips.Tms9914.Waiting.{wait_until}
use linux_gpib.Chips.Tms9914.Settings.{tms9914_set_holdoff_mode, tms9914_release_holdoff}

unfoldable pub check_for_eos : ℕ → Tms → Bool
check_for_eos byte c =
    has c.eos_flags reos
    && (if has c.eos_flags bin then c.eos == byte else c.eos % 128 == byte % 128)

-- the condition of `wait_for_read_byte`
unfoldable pub read_condition : Tms → Bool
read_condition c = c.read_ready || c.dev_clear || has c.status timo

unfoldable pub wait_for_read_byte : Tms → ℤ × Tms
wait_for_read_byte c =
    let (is_signal, c') = wait_until read_condition c in
    if is_signal
    then (erestartsys, c')
    else (if has c'.status timo
        then (etimedout, c')
        else (if c'.dev_clear then (eintr, c') else (pos 0, c')))

-- whether a byte that came with END or without it holds off the next
unfoldable pub holds : HoldoffMode → Bool → Bool
holds holdoff_none end = false
holds holdoff_eoi end = end
holds holdoff_all end = true

-- the byte, and whether END came with it
unfoldable pub tms9914_read_data_in : Tms → ℕ × Bool × Tms
tms9914_read_data_in c = (
  c.dir,
  c.received_end,
  record c {
    read_ready = false;
    received_end = false;
    holdoff_active = holds c.holdoff_mode c.received_end || c.holdoff_active;
  },
)

-- The loop, by the bytes that are still asked for: the result, `*end`, and the bytes stored.
unfoldable pub pio_read : ℕ → Tms → ℤ × Bool × List ℕ × Tms
pio_read zero c = (pos 0, false, [], c)
pio_read (suc size) c =
    let (retval, c1) = wait_for_read_byte (tms9914_release_holdoff c) in
    let (byte, end, c2) = tms9914_read_data_in c1 in
    let rest = pio_read size c2 in
    if is_neg retval
    then (retval, false, [], c1)
    else (if end || check_for_eos byte c2
        then (retval, true, byte ∷ [], c2)
        else (rest.0, rest.1, byte ∷ rest.2, rest.3))

-- the bytes but for the last
unfoldable pub read_first : ℕ → Tms → ℤ × Bool × List ℕ × Tms
read_first size c =
    let mode = if has c.eos_flags reos then holdoff_all else holdoff_eoi in
    if ltb 1 size
    then pio_read (size - 1) (tms9914_set_holdoff_mode mode c)
    else (pos 0, false, [], c)

unfoldable pub tms9914_read : ℕ → Tms → ℤ × Bool × List ℕ × Tms
tms9914_read size c =
    let (r1, end1, first, c1) = read_first size (record c { dev_clear = false }) in
    let (r2, end2, last, c2) =
      pio_read (size - length first) (tms9914_set_holdoff_mode holdoff_all c1) in
    if size == 0
    then (pos 0, false, [], c)
    else (if is_neg r1
        then (r1, end1, first, c1)
        else (if end1
            then (pos 0, true, first, c1)
            else ((if is_neg r2 then r2 else pos 0), end2, first ++ last, c2)))

-- the condition of `pio_write_wait`
unfoldable pub write_condition : Tms → Bool
write_condition c = c.write_ready || c.bus_error || c.dev_clear || has c.status timo

unfoldable pub pio_write_wait : Tms → ℤ × Tms
pio_write_wait c =
    let (is_signal, c') = wait_until write_condition c in
    if is_signal
    then (erestartsys, c')
    else (if has c'.status timo
        then (etimedout, c')
        else (if c'.bus_error
            then (eio, c')
            else (if c'.dev_clear then (eintr, c') else (pos 0, c'))))

-- one byte handed to the chip, under the spinlock
abbrev pub write_data : ℕ → Tms → Tms
write_data byte c = write_byte byte cdor (record c { write_ready = false })

-- The loop of `pio_write`: `*bytes_written`.
unfoldable pub send_bytes : List ℕ → Tms → ℕ × Tms
send_bytes [] c = (0, c)
send_bytes (byte ∷ rest) c =
    let (retval, c1) = pio_write_wait c in
    let sent = send_bytes rest (write_data byte c1) in
    if is_neg retval then (0, c1) else (suc sent.0, sent.1)

unfoldable pub pio_write : List ℕ → Tms → ℤ × ℕ × Tms
pio_write buffer c =
    let (bytes_written, c1) = send_bytes buffer c in
    let (retval, c2) = pio_write_wait c1 in
    ((if is_neg retval then retval else pos (length buffer)), bytes_written, c2)

unfoldable pub tms9914_write : List ℕ → Bool → Tms → ℤ × ℕ × Tms
tms9914_write buffer send_eoi c =
    let c0 = record c { bus_error = false; dev_clear = false } in
    let body = if send_eoi then take (length buffer - 1) buffer else buffer in
    let (r1, n1, c1) = if length body == 0 then (pos 0, 0, c0) else pio_write body c0 in
    let (r2, n2, c2) = pio_write (take 1 (drop n1 buffer)) (write_byte aux_seoi auxcr c1) in
    if length buffer == 0
    then (pos 0, 0, c)
    else (if is_neg r1 || not send_eoi then (r1, n1, c1) else (r2, n1 + n2, c2))
