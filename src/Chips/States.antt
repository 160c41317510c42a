-- ===== src/Chips/States.antt =====
-- linux-gpib-kernel/drivers/gpib/include/gpib_state_machines.h: the states of the talker and of the
-- listener that the chip libraries keep, with the tests on them.
use linux_gpib.Prelude.{Bool, true, false}

-- `enum talker_function_state`
pub data TalkerState : Type 0 where
  talker_idle : TalkerState
  talker_addressed : TalkerState
  talker_active : TalkerState
  serial_poll_active : TalkerState

-- `enum listener_function_state`
pub data ListenerState : Type 0 where
  listener_idle : ListenerState
  listener_addressed : ListenerState
  listener_active : ListenerState

unfoldable pub is_talker : TalkerState → Bool
is_talker talker_idle = false
is_talker talker_addressed = true
is_talker talker_active = true
is_talker serial_poll_active = false

unfoldable pub is_listener : ListenerState → Bool
is_listener listener_idle = false
is_listener listener_addressed = true
is_listener listener_active = true
