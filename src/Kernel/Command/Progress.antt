-- ===== src/Kernel/Command/Progress.antt =====
-- What `command_ioctl` makes of the flag `io_in_progress`.
use linux_gpib.Prelude.{Bool, not, ◌&&◌, ℤ, is_neg}
use linux_gpib.Kernel.Read.{ReadWriteCmd}

-- the flag that a command leaves with this result
abbrev pub progress_after : ReadWriteCmd → ℤ → Bool
progress_after cmd retval = not (is_neg retval) && cmd.end
