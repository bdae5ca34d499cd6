-- ===== src/Tests/Setup.antt =====
-- Libraries that answer as expected, worlds and data for the tests.
use transmitter_linux.Common.{
  ◌≡◌, refl, length-take, length-append, arith, suc, ℕ, ◌+◌, ◌-◌, ◌*◌, Bool, true, false, not, ◌==◌,
  List, [], ◌∷◌, ◌++◌, none, some, get_or, replicate, length, leb, if◌then◌else◌, take,
}
use transmitter_linux.Machine.{
  World, ReadResult, M, pure, Env, replied, Tick, ReadResult, bytes_read,
}
use transmitter_linux.Bluetooth.Takes.{Answered}
use transmitter_linux.Utils.{Config}
use transmitter_linux.Odid.{Odid, UasData, Auth, Location}
use transmitter_linux.Gps.{Gpsd, Fix}
use transmitter_linux.Hostapd.Table.{Handler}
use transmitter_linux.Transmit.Args.{zero_counters}
use transmitter_linux.Transmit.Props.Silence.{KeepsSize}

-- A command and its arguments, with blanks between them.
abbrev pub join : List ℕ → List (List ℕ) → List ℕ
join text [] = text
join text (a ∷ args) = join (text ++ (32 ∷ a)) args

-- The constants of BlueZ's headers, and a controller and a hostapd that answer.
abbrev pub test_env : Env
test_env = record {
  ogf_host_ctl = 3;
  ogf_le_ctl = 8;
  ocf_reset = 3;
  ocf_le_set_random_address = 5;
  ocf_le_set_advertising_parameters = 6;
  ocf_le_set_advertising_data = 8;
  ocf_le_set_advertise_enable = 10;
  ocf_le_read_local_supported_features = 3;
  evt_cmd_complete = 14;
  hci_max_event_size = 260;
  hci_event_hdr_size = 2;
  evt_cmd_complete_size = 3;
  opcode = λ ogf ocf. ogf * 1024 + ocf;
  hdr_evt = λ p. get_or p 0 0;
  cc_opcode = λ p. get_or p 1 0 + 256 * get_or p 2 0;
  hci_send_cmd = λ out e. true;
  hci_devid = some 0;
  hci_get_route = none;
  hci_open_dev = λ id. some 3;
  hci_filter_set = true;
  rand = λ n. n;
  wpa_ctrl_request = λ out cmd. replied [];
  write_cmd =
      λ size cmd args. if leb size (length (join cmd args)) then none else some (join cmd args);
  pack_max_messages = 9;
}

abbrev pub test_other : Handler → List (List ℕ) → M Bool
test_other h args = pure true

-- The event of a completed reset: the packet type, the event, its length, the number of commands
-- that may follow, the opcode, and the status.
abbrev pub reset_event : List ℕ
reset_event = 4 ∷ 14 ∷ 4 ∷ 1 ∷ 3 ∷ 12 ∷ 0 ∷ []

-- An event with eleven bytes of return parameters.
abbrev pub long_event : List ℕ
long_event = (4 ∷ 14 ∷ 14 ∷ 1 ∷ 3 ∷ 12 ∷ []) ++ replicate 11 0

-- The event of a completed command with this opcode, without an error.
abbrev pub answer : ℕ → ℕ → ReadResult
answer low high = bytes_read (4 ∷ 14 ∷ 4 ∷ 1 ∷ low ∷ high ∷ 0 ∷ [])

abbrev pub test_world : World
test_world = record {
  reads = bytes_read reset_event ∷ [];
  out = [];
  device_descriptor = 3;
  connected = true;
  semaphore = 0;
  cli_quit = false;
  schedule = [];
}

-- A controller that answers each command of `init_bluetooth` for Bluetooth 5.
abbrev pub init_world : World
init_world = record test_world {
  reads =
      answer 3 12
      ∷ answer 10 32
      ∷ answer 57 32
      ∷ answer 60 32
      ∷ answer 60 32
      ∷ answer 3 32
      ∷ answer 3 12
      ∷ answer 54 32
      ∷ answer 53 32
      ∷ answer 57 32
      ∷ [];
}

-- One run of the other thread, which finds no hostapd.
abbrev pub idle_tick : Tick
idle_tick = record { reply = replied []; reopens = false }

abbrev pub idle_world : World
idle_world = record test_world { connected = false; schedule = (idle_tick ∷ []) ∷ [] ∷ [] }

-- Bluetooth 5 with Wi-Fi beacons and packs.
abbrev pub pack_config : Config
pack_config = record {
  use_beacon = true;
  use_btl = false;
  use_bt4 = false;
  use_bt5 = true;
  use_gps = false;
  handle_bt4 = 0;
  handle_bt5 = 1;
  use_packs = true;
  msg_counters = record zero_counters { packed = 250 };
}

abbrev pub gps_config : Config
gps_config = record pack_config { use_beacon = false; use_bt5 = false; use_gps = true }

abbrev pub test_message : List ℕ
test_message = 2 ∷ 18 ∷ replicate 23 49

abbrev pub test_pack : List ℕ
test_pack = (240 ∷ 25 ∷ 2 ∷ []) ++ replicate 225 7

-- Natural numbers for the floating point type, with 999 for what is not finite.
abbrev finite : ℕ → Bool
finite x = not (x == 999)

abbrev pub test_location : Location ℕ
test_location = record {
  status = 2;
  direction = 90;
  speed_horizontal = 5;
  speed_vertical = 1;
  latitude = 52;
  longitude = 5;
  altitude_baro = 20;
  altitude_geo = 21;
  height_type = 1;
  height = 10;
  horiz_accuracy = 11;
  vert_accuracy = 5;
  baro_accuracy = 3;
  speed_accuracy = 2;
  ts_accuracy = 1;
  time_stamp = 360;
}

abbrev test_auth : Auth
test_auth = record {
  auth_type = 1;
  data_page = 0;
  last_page_index = 2;
  length_field = 63;
  timestamp = 28000000;
  auth_data = replicate 17 50;
}

abbrev pub test_data : UasData ℕ
test_data = record {
  basic_id_zero = record { ua_type = 2; id_type = 1; uas_id = replicate 20 51 };
  basic_id_one = record { ua_type = 2; id_type = 4; uas_id = replicate 20 52 };
  location = test_location;
  auth_0 = test_auth;
  auth_1 = record test_auth { data_page = 1 };
  auth_2 = record test_auth { data_page = 2 };
  self_id = record { desc_type = 0; desc = replicate 23 53 };
  system = record {
    operator_location_type = 0;
    classification_type = 1;
    operator_latitude = 52;
    operator_longitude = 5;
    area_count = 1;
    area_radius = 0;
    area_ceiling = 0;
    area_floor = 0;
    category_eu = 1;
    class_eu = 1;
    operator_altitude_geo = 20;
    timestamp = 28000000;
  };
  operator_id = record { operator_id_type = 0; operator_id = replicate 20 54 };
}

-- A message: its kind in the upper half of the first byte, then text.
abbrev message : ℕ → List ℕ → List ℕ
message kind text = (kind * 16 + 2) ∷ take 24 (text ++ replicate 24 0)

abbrev concat : List (List ℕ) → List ℕ
concat [] = []
concat (m ∷ rest) = m ++ concat rest

abbrev pub test_odid : Odid ℕ
test_odid = record {
  add = λ x y. x + y;
  sub = λ x y. x - y;
  to_float = λ x. x;
  is_finite = finite;
  decimal = λ minus digits places. digits;
  create_horizontal_accuracy = λ x. x;
  create_vertical_accuracy = λ x. x;
  create_speed_accuracy = λ x. x;
  create_timestamp_accuracy = λ x. x;
  init_uas_data = test_data;
  encode_basic_id = λ d m. (true, message 0 d.uas_id);
  encode_location = λ d m. (true, message 1 []);
  encode_auth = λ d m. (true, message 2 d.auth_data);
  encode_self_id = λ d m. (true, message 3 d.desc);
  encode_system = λ d m. (true, message 4 []);
  encode_operator_id = λ d m. (true, message 5 d.operator_id);
  encode_message_pack =
      λ p m. (true, 242 ∷ p.single_message_size ∷ p.msg_pack_size ∷ concat p.messages);
  pack_size = λ m. get_or m 2 0;
  uatype_helicopter_or_multirotor = 2;
  idtype_serial_number = 1;
  idtype_specific_session_id = 4;
  auth_uas_id_signature = 1;
  desc_type_text = 0;
  operator_location_type_takeoff = 0;
  classification_type_eu = 1;
  category_eu_open = 1;
  class_eu_class_1 = 1;
  operator_id_kind = 0;
  status_airborne = 2;
  height_ref_over_ground = 1;
}

abbrev pub test_gpsd : Gpsd
test_gpsd = record {
  mode_2d = 2;
  mode_3d = 3;
  watch_enable = 1;
  watch_device = 2048;
  source_device = none;
  opens = false;
}

abbrev pub test_fix : ℕ → Fix ℕ
test_fix mode = record {
  mode = mode;
  latitude = 53;
  longitude = 6;
  track = 180;
  alt_msl = 40;
  altitude = 41;
  speed = 999;
  climb = 2;
  eph = 3;
  epy = 4;
  eps = 1;
}

-- One more answer of seven bytes in front of the others.
pub answered :
    (low high n : ℕ) (more rest : List ReadResult)
    → Answered test_env n more rest
    → Answered test_env (suc n) (answer low high ∷ more) rest
answered low high n more rest later = (
  [],
  4 ∷ 14 ∷ 4 ∷ 1 ∷ low ∷ high ∷ 0 ∷ [],
  more,
  refl,
  tt,
  omega arith,
  omega arith,
  omega arith,
  later,
)

-- Bluetooth legacy advertising, and a controller that answers each of its commands.
abbrev pub btl_config : Config
btl_config = record pack_config {
  use_beacon = false;
  use_btl = true;
  use_bt5 = false;
  use_packs = false;
}

abbrev pub btl_world : World
btl_world = record test_world {
  reads =
      replicate 9 (answer 8 32) ++ (answer 10 32 ∷ answer 57 32 ∷ answer 60 32 ∷ answer 60 32 ∷ []);
}

length-message : (kind : ℕ) (text : List ℕ) → length (message kind text) ≡ 25
length-message kind text =
    omega (arith, length-take 24 (text ++ replicate 24 0), length-append text (replicate 24 0))

pub test_odid-KeepsSize : KeepsSize test_odid
test_odid-KeepsSize = record {
  basic_id = λ d m size. length-message 0 d.uas_id;
  location = λ d m size. refl;
  auth = λ d m size. length-message 2 d.auth_data;
  self_id = λ d m size. length-message 3 d.desc;
  system = λ d m size. refl;
  operator_id = λ d m size. length-message 5 d.operator_id;
}
