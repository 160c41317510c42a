-- ===== src/User/Tests.antt =====
-- The theorems on the C library at concrete inputs.
use linux_gpib.Prelude.{
  ℕ, ◌≤◌, ◌≡◌, refl, true, false, arith, pos, negsuc, none, some, List, [], ◌∷◌, ◌++◌, length, take,
  has,
}
use linux_gpib.User.Codes.{earg}
use linux_gpib.User.Addresses.{extract_pad, extract_sad, pack_address}
use linux_gpib.User.Addresses.Laws.{extract-pack_address}
use linux_gpib.User.Timeouts.{timeout_to_usec, usec_to_timeout}
use linux_gpib.User.Timeouts.Laws.{timeout_to_usec-usec_to_timeout}
use linux_gpib.User.Session.{
  BoardInfo, Driver, Session, init_descriptor_settings, init_ibconf, set_iberr,
}
use linux_gpib.User.Commands.{create_send_setup}
use linux_gpib.User.Commands.Bus.{Bus, other, receive_all, named, AreDevices}
use linux_gpib.User.Commands.Setup.{Answers, create_send_setup_lem}
use linux_gpib.User.Write.{find_eos, find_eos_from, my_ibwrt}
use linux_gpib.User.Write.Laws.{WriteContract}
use linux_gpib.User.Write.Endless.{IsWilling, my_ibwrt_endless}
use linux_gpib.User.Read.{ibeos, iblcleos}
use linux_gpib.User.Read.Laws.{iblcleos-ibeos}

extract-pack_address_example :
    (extract_pad (pack_address 5 (pos 2)) ≡ pos 5) × (extract_sad (pack_address 5 (pos 2)) ≡ pos 2)
extract-pack_address_example = extract-pack_address 5 (pos 2) (omega arith) (omega arith)

timeout_to_usec-usec_to_timeout_example :
    (250000 ≤ timeout_to_usec (usec_to_timeout 250000)) × (usec_to_timeout 250000 ≤ 17)
timeout_to_usec-usec_to_timeout_example = timeout_to_usec-usec_to_timeout 250000 (omega arith)

abbrev three : List ℕ
three = 97 ∷ 10 ∷ 98 ∷ []

abbrev controller : BoardInfo
controller = record { pad = 0; sad = negsuc 0; is_system_controller = true }

-- A board in charge that keeps what it is sent, and always reads the same three bytes and END.
abbrev keeper : Driver (List ℕ)
keeper = record {
  board_info = λ w. (pos 0, controller, w);
  status = λ w. (pos 0, 0x20, w);
  set_timeout = λ usec w. w;
  command = λ request bytes w. (
    record { result = pos 0; completed = request.requested; end = false; bytes = [] },
    w ++ bytes,
  );
  write = λ request bytes w. (
    record { result = pos 0; completed = request.requested; end = request.end; bytes = [] },
    w ++ bytes,
  );
  read = λ request w. (
    record {
      result = pos 0;
      completed = length (take request.requested three);
      end = true;
      bytes = take request.requested three;
    },
    w,
  );
  set_eos = λ eos flags w. (pos 0, w);
  set_pad = λ handle pad w. (pos 0, w);
  set_sad = λ handle sad w. (pos 0, w);
}

keeper-Answers : Answers keeper controller
keeper-Answers = record { answered = λ w. refl; as_told = λ w. refl }

keeper-WriteContract : WriteContract keeper
keeper-WriteContract = record {
  bounded = λ request bytes w. omega arith;
  whole = λ request bytes w fine. refl;
}

keeper-IsWilling : IsWilling keeper
keeper-IsWilling request bytes w = refl

-- the board's descriptor, with these flags and the newline as the end-of-string byte
abbrev session : ℕ → Session (List ℕ)
session eos_flags = record {
  conf = record init_ibconf {
    handle = pos 0;
    is_interface = true;
    settings = record init_descriptor_settings {
      pad = pos 0;
      board = pos 0;
      eos = pos 10;
      eos_flags = eos_flags;
    };
  };
  globals = record { iberr = 0; ibcnt = 0 };
  world = [];
}

-- addresses 5 and 6 with secondary address 2
abbrev devices : List ℕ
devices = 5 ∷ 0x6206 ∷ []

devices-AreDevices : AreDevices devices
unfolding extract_pad extract_sad
devices-AreDevices = (
  record { real = refl; pad = 5; pad_of = refl; pad_in = omega arith; sad_in = refl },
  (record { real = refl; pad = 6; pad_of = refl; pad_in = omega arith; sad_in = omega arith }, tt),
)

abbrev silent : Bus
silent = record { talker = none; listeners = (9, negsuc 0) ∷ []; last = other }

create_send_setup_lem_example :
    let bus' = receive_all (create_send_setup keeper (some devices) (session 0)).0 silent in
    (bus'.talker ≡ some (0, negsuc 0)) × (bus'.listeners ≡ named devices [])
create_send_setup_lem_example =
    create_send_setup_lem keeper controller devices (session 0) silent keeper-Answers (omega arith)
      refl devices-AreDevices

-- XEOS is 0x800
my_ibwrt_endless_example : my_ibwrt keeper 1000 (pos 0) 1000 three (session 0x800) ≡ none
unfolding has find_eos find_eos_from
my_ibwrt_endless_example =
    my_ibwrt_endless keeper keeper-WriteContract keeper-IsWilling 1000 (pos 0) 1000 three 1
      (session 0x800) refl refl refl

-- REOS is 0x400, and the byte is 0x8a
iblcleos-ibeos_example :
    let r = iblcleos keeper (ibeos 0x48a (session 0)) in
    (r.0 ≡ negsuc 0) × (r.1 ≡ set_iberr earg (ibeos 0x48a (session 0)))
unfolding has
iblcleos-ibeos_example = iblcleos-ibeos keeper 0x48a (session 0) refl
