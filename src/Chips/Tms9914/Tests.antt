-- ===== src/Chips/Tms9914/Tests.antt =====
-- Runs of the code of linux-gpib-kernel/drivers/gpib/tms9914/tms9914.c at fixed inputs.
use linux_gpib.Prelude.{
  ℕ, true, false, ◌≡◌, refl, sym, ◌∙◌, is_neg, List, [], ◌∷◌, arith, has, with, without, mask,
  assign,
}
use linux_gpib.Chips.Tms9914.{
  timer, update_status_nolock, talker_of, listener_of, is_talker, is_listener,
}
use linux_gpib.Chips.Tms9914.Interrupts.{
  msa_of, record_bytes, record_spas, record_address, record_unknown, record_faults, record_messages,
  tms9914_interrupt_have_status,
}
use linux_gpib.Chips.Tms9914.Waiting.{sleep, wait_until}
use linux_gpib.Chips.Tms9914.Transfer.{
  tms9914_read, tms9914_write, pio_write, pio_write_wait, send_bytes, write_condition,
}
use linux_gpib.Chips.Tms9914.Command.{tms9914_command}
use linux_gpib.Chips.Tms9914.Reads.{IsComplete, tms9914_read-IsComplete}
use linux_gpib.Chips.Tms9914.Writes.{is_quiet}
use linux_gpib.Chips.Tms9914.Messages.{IsWhole, tms9914_write-IsWhole}
use linux_gpib.Chips.Tms9914.Listens.{IsListening, tms9914_command-IsListening}
use linux_gpib.Chips.Tms9914.Samples.{reading, writing, commanding}

tms9914_read-IsComplete_example : IsComplete 2 (tms9914_read 2 reading)
tms9914_read-IsComplete_example = tms9914_read-IsComplete 2 reading (omega arith)

abbrev hi : List ℕ
hi = 72 ∷ 105 ∷ []

writing-later : (tms9914_write hi true writing).2.later ≡ timer ∷ []
unfolding tms9914_write pio_write send_bytes pio_write_wait write_condition wait_until sleep
    tms9914_interrupt_have_status record_messages record_faults record_unknown record_address
    record_spas record_bytes msa_of update_status_nolock talker_of listener_of is_talker is_listener
    has with without mask assign
writing-later = refl

writing-fine : is_neg (tms9914_write hi true writing).0 ≡ false
unfolding tms9914_write pio_write send_bytes pio_write_wait write_condition wait_until sleep
    tms9914_interrupt_have_status record_messages record_faults record_unknown record_address
    record_spas record_bytes msa_of update_status_nolock talker_of listener_of is_talker is_listener
    has with without mask assign
writing-fine = refl

tms9914_write-IsWhole_example : IsWhole hi true writing (tms9914_write hi true writing)
unfolding is_quiet
tms9914_write-IsWhole_example =
    tms9914_write-IsWhole hi true writing (omega arith) refl writing-fine
      (λ over. let none : timer ∷ [] ≡ [] = sym writing-later ∙ over in absurd cc)

-- UNL
tms9914_command-IsListening_example : IsListening (tms9914_command (63 ∷ []) commanding).2
tms9914_command-IsListening_example = tms9914_command-IsListening (63 ∷ []) commanding refl
