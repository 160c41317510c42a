-- ===== src/Chips/Nec7210/Receive.antt =====
-- linux-gpib-kernel/drivers/gpib/nec7210/nec7210.c: reading without DMA. The loop of `pio_read` runs
-- on fuel.
pub mod Bounds
use linux_gpib.Prelude.{
  ℕ, zero, suc, ◌+◌, ◌-◌, ◌%◌, Bool, true, false, not, ◌&&◌, ◌||◌, ℤ, pos, List, [], ◌∷◌, ◌++◌,
  ◌==◌, ltb, leb, if◌then◌else◌, length, has,
}
use linux_gpib.Uapi.Errno.{eintr, etimedout, erestartsys}
use linux_gpib.Uapi.Status.{timo}
use linux_gpib.Chips.Nec7210.{Chip, auxmr, aux_fh, hr_hlda, write_byte}
use linux_gpib.Chips.Nec7210.Waiting.{Arrival, woken, interrupted, asleep, wait_until}
use linux_gpib.Chips.Nec7210.Transfer.{Outcome, done, sleeping, out_of_fuel}

unfoldable pub nec7210_set_handshake_mode : ℕ → Chip → Chip
nec7210_set_handshake_mode mode c =
    let bits = c.auxa_bits - c.auxa_bits % 4 + mode % 4 in
    if c.auxa_bits % 4 == mode % 4 then c else write_byte bits auxmr (record c { auxa_bits = bits })

-- the byte, and whether END came with it
unfoldable pub nec7210_read_data_in : Chip → ℕ × Bool × Chip
nec7210_read_data_in c =
    (c.data_in, c.received_end, record c { read_ready = false; received_end = false })

unfoldable pub nec7210_release_rfd_holdoff : Chip → Chip
nec7210_release_rfd_holdoff c =
    if c.rfd_holdoff && not c.read_ready
    then record (write_byte aux_fh auxmr c) { rfd_holdoff = false }
    else c

-- the condition of the wait in `pio_read`
unfoldable pub read_condition : Chip → Bool
read_condition c = c.read_ready || c.dev_clear || has c.status timo

-- The first byte of a read sets the handshake mode.
unfoldable pub read_byte_in : List ℕ → Chip → List ℕ × Bool × Chip
read_byte_in buffer c =
    let c1 = if length buffer == 0 then nec7210_set_handshake_mode hr_hlda c else c in
    let (byte, end, c2) = nec7210_read_data_in c1 in (buffer ++ byte ∷ [], end, c2)

-- The loop of `pio_read` with the bytes that are stored; the result has the bytes and `*end`.
unfoldable pub read_bytes : ℕ → ℕ → List ℕ → List Arrival → Chip → Outcome (ℤ × List ℕ × Bool)
read_bytes zero size buffer later c = out_of_fuel
read_bytes (suc fuel) size buffer later c =
    if leb size (length buffer)
    then done (pos 0, buffer, false) c later
    else elim (wait_until read_condition later c) [
      | asleep ↦ sleeping
      | interrupted c' later' ↦ done (erestartsys, buffer, false) c' later'
      | woken c' later' ↦
          let (more, end, taken) = read_byte_in buffer c' in
          let buffer' = if c'.read_ready then more else buffer in
          let c2 = if c'.read_ready then taken else c' in
          let c3 = if ltb (length buffer') size then nec7210_release_rfd_holdoff c2 else c2 in
          let rest = read_bytes fuel size buffer' later' c3 in
          if c'.read_ready && end
          then done (pos 0, buffer', true) c2 later'
          else (if has c'.status timo
              then done (etimedout, buffer', false) c2 later'
              else (if c'.dev_clear then done (eintr, buffer', false) c2 later' else rest))
    ]

unfoldable pub nec7210_read : ℕ → ℕ → List Arrival → Chip → Outcome (ℤ × List ℕ × Bool)
nec7210_read fuel size later c =
    if size == 0
    then done (pos 0, [], false) c later
    else read_bytes fuel size [] later
        (nec7210_release_rfd_holdoff (record c { dev_clear = false }))
