-- ===== src/Kernel/Tests/Files.antt =====
-- The theorems on moving a handle and on closing a file.
use linux_gpib.Prelude.{
  ◌+◌, ◌-◌, ◌<◌, ◌≡◌, refl, true, false, arith, pos, negsuc, some, if◌then◌else◌,
}
use linux_gpib.Uapi.Commands.{gpib_address_equal}
use linux_gpib.Kernel.Devices.Refs.{refs, IsDistinct}
use linux_gpib.Kernel.Handles.{slot}
use linux_gpib.Kernel.Handles.Uses.{IsCovered, uses}
use linux_gpib.Kernel.Config.{move_device}
use linux_gpib.Kernel.Config.Move.{move_device-IsCovered}
use linux_gpib.Kernel.Files.{ibclose}
use linux_gpib.Kernel.Files.Close.{ibclose_lem}
use linux_gpib.Kernel.Tests.Transfers.{
  file, online, device, online-IsDistinct, file-IsCovered, length-file,
}

online-small : refs online.device_list 7 (negsuc 0) + 1 < 0x1_0000_0000
unfolding refs gpib_address_equal
online-small = omega arith

move_device-IsCovered_example :
    let (retval, file', board') = move_device true file online 1 device 7 (negsuc 0) in
    (retval ≡ pos 0)
    × (slot file'.descriptors 1 ≡ some (record device { pad = 7; sad = negsuc 0 }))
    × IsDistinct board'.device_list
    × IsCovered file'.descriptors board'.device_list
move_device-IsCovered_example =
    move_device-IsCovered file online 1 device 7 (negsuc 0) (omega (arith, length-file)) refl refl
      online-small online-IsDistinct file-IsCovered

ibclose_lem_example :
    let (retval, board') = ibclose 0 file online in
    (retval ≡ pos 0)
    × IsDistinct board'.device_list
    × (refs board'.device_list 5 (negsuc 0)
        ≡ refs online.device_list 5 (negsuc 0) - uses file.descriptors 5 (negsuc 0))
    × (board'.autospollers ≡ 0)
    × (file.holding_mutex ≡ true → board'.user_mutex ≡ false)
    × (board'.use_count ≡ online.use_count - (if file.got_module then 1 else 0))
    × (board'.locking_pid ≡ online.locking_pid)
ibclose_lem_example =
    ibclose_lem 0 file online 0 5 (negsuc 0) (omega arith) online-IsDistinct file-IsCovered
      (omega arith)
