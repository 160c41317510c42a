-- ===== src/Kernel/Tests/Dispatches.antt =====
-- The theorems on waiting and on the dispatch of ioctls at concrete boards.
use linux_gpib.Prelude.{
  ◌≡◌, refl, true, false, pos, negsuc, none, some, [], ◌∷◌, ◌++◌, has, assign, with, without, mask,
}
use linux_gpib.Kernel.Types.{
  Board, Descriptor, init_gpib_board, init_gpib_status_queue, init_gpib_descriptor,
}
use linux_gpib.Kernel.Handles.{init_gpib_file_private}
use linux_gpib.Kernel.Write.Framing.{Log, recorder}
use linux_gpib.Kernel.Wait.{
  WakeUp, WaitCmd, Waited, wait_status, wait_event, clear_reported, ibwait, queue_of,
}
use linux_gpib.Kernel.Wait.Laws.{IsWoken, ibwait_reported, ibwait_timeout}
use linux_gpib.Kernel.Ibstatus.{general_ibstatus, iblines}
use linux_gpib.Kernel.Dispatch.{ibwrt, stage_of, Caller, ibioctl}
use linux_gpib.Kernel.Dispatch.Uses.{IsRefused, ibioctl_not_owner}

-- a board that is online and locked by process 3
abbrev locked : Board Log
locked = record init_gpib_board { private_data = some []; online = true; locking_pid = 3 }

abbrev board_desc : Descriptor
board_desc = record init_gpib_descriptor { is_board = true }

-- the timer has fired
abbrev fired : WakeUp Log
fired = record {
  board = locked;
  desc = board_desc;
  queue = init_gpib_status_queue 0 (negsuc 0);
  timed_out = true;
  lock_interrupted = false;
  signal = false;
}

-- TIMO is 0x4000
abbrev for_timo : WaitCmd
for_timo = record { handle = pos 0; wait_mask = 0x4000; clear_mask = 0; set_mask = 0; ibsta = 0 }

ibwait_timeout_example :
    (r : Waited Log × Descriptor) × (ibwait recorder
        ([] ++ fired ∷ [])
        true
        for_timo
        board_desc
        locked
      ≡ some r)
unfolding has
ibwait_timeout_example =
    ibwait_timeout recorder [] [] fired true for_timo board_desc locked refl refl

-- woken by something else, before the timer has fired
abbrev early : WakeUp Log
early = record fired { timed_out = false }

abbrev waited : Waited Log
waited = clear_reported recorder none true for_timo (record {
  retval = pos 0;
  status = (wait_status recorder none fired).0;
  board = (wait_status recorder none fired).1;
})

ibwait_reported_example :
    IsWoken recorder (queue_of locked board_desc) (early ∷ fired ∷ []) 0x4000 waited.status
unfolding has assign with without mask ibwait wait_event wait_status clear_reported general_ibstatus
    queue_of iblines
ibwait_reported_example =
    ibwait_reported recorder (early ∷ fired ∷ []) true for_timo board_desc locked waited board_desc
      refl (refl, (refl, tt)) refl refl

abbrev process_7 : Caller
process_7 = record { pid = 7; minor = 0; interrupted = false; has_interface = true; got = true }

ibioctl_not_owner_example :
    IsRefused init_gpib_file_private locked (ibioctl process_7 ibwrt init_gpib_file_private locked)
unfolding stage_of
ibioctl_not_owner_example =
    ibioctl_not_owner process_7 ibwrt init_gpib_file_private locked refl refl
