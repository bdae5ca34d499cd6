-- ===== src/Machine/Defs.antt =====
-- Effects, the state of the process, and the monad of the functions that act on it.
use transmitter_linux.Common.{ℕ, Bool, true, false, Option, List, ◌++◌, [], ◌∷◌}

-- `errno` as far as the sources tell its values apart.
pub data Errno : Type 0 where
  eagain eintr other_errno : Errno

-- What one `read` of the HCI socket returns: -1 with an `errno`, or the bytes read.
pub data ReadResult : Type 0 where
  read_error : Errno → ReadResult
  bytes_read : List ℕ → ReadResult

-- What `wpa_ctrl_request` returns: 0 with the reply, -2, or another negative number.
pub data Reply : Type 0 where
  replied : List ℕ → Reply
  timed_out : Reply
  request_failed : Reply

-- The messages of the encoders' error lines.
pub data Part : Type 0 where
  basic_id_part location_part auth_0_part auth_1_part auth_2_part : Part
  self_id_part system_part operator_id_part pack_part : Part

-- What the program prints.
pub data Note : Type 0 where
  usage beacon_reminder beacon_single_warning api_conflict bt4_pack_conflict : Note
  bt4_bt5_warning bt5_single_warning gps_warning : Note
  encode_failed : Part → Note
  open_failed filter_failed event_read_failed : Note
  bad_opcode : ℕ → ℕ → Note
  command_error : ℕ → ℕ → Note
  unknown_event : ℕ → Note
  tx_power : ℕ → Note
  feature_bytes : List ℕ → Note
  feature : List ℕ → Note
  unknown_features : ℕ → Note
  not_connected command_timed_out command_failed : Note
  reply_text : List ℕ → Note
  bad_arguments too_long : Note
  ambiguous_command : List (List ℕ) → Note
  unknown_command : List ℕ → Note
  result_of : List ℕ → Note
  connection_lost reconnected could_not_connect connection_established not_attached : Note
  help_text : List ℕ → Note
  license_text : Note
  station_line : List ℕ → Note
  gps_unavailable transmitting : Note
  wait_retry wait_exhausted gps_read_retry gps_read_exhausted : Note

-- What the program does to the world outside of its memory.
pub data Effect : Type 0 where
  hci_command : ℕ → ℕ → ℕ → List ℕ → Effect
  hci_closed : ℕ → Effect
  ctrl_request : List ℕ → Effect
  printed : Note → Effect
  slept_us : ℕ → Effect
  shell : List ℕ → Effect
  gps_streamed : ℕ → Option (List ℕ) → Effect
  gps_closed : Effect

-- One run of `hostapd_cli_ping` on the thread of `ap_interface_init`: what its request returns,
-- and whether its `hostapd_cli_reconnect` (if it comes to that) succeeds.
pub record Tick : Type 0 where
  pub reply : Reply
  pub reopens : Bool

pub record World : Type 0 where
  pub reads : List ReadResult  -- what the coming reads of the HCI socket return
  pub out : List Effect  -- what has been done, oldest first
  pub device_descriptor : ℕ
  pub connected : Bool  -- `ctrl_conn != NULL`
  pub semaphore : ℕ
  pub cli_quit : Bool  -- `hostapd_cli_quit`
  pub schedule : List (List Tick)  -- the runs of the other thread before each coming switch

-- How a call ends: it returns, the process exits, a system call never returns, or C's behaviour
-- is undefined (a write past a buffer, an overflow of `int`, a join of no thread).
pub data Outcome (A : Type 0) : Type 0 where
  done : A → World → Outcome A
  exited : ℕ → World → Outcome A
  blocked : World → Outcome A
  fault : World → Outcome A

abbrev pub M : Type 0 → Type 0
M A = World → Outcome A

infixl 5 ◌>>=◌ ◌>>◌
abbrev pub ◌>>=◌ : {A B : Type 0} → M A → (A → M B) → M B
◌>>=◌ m f w = elim (m w) [
  | done a w' ↦ f a w'
  | exited code w' ↦ exited code w'
  | blocked w' ↦ blocked w'
  | fault w' ↦ fault w'
]

abbrev pub ◌>>◌ : {B : Type 0} → M (Unit {0}) → M B → M B
m >> k = m >>= λ _. k

abbrev pub pure : {A : Type 0} → A → M A
pure a w = done a w

abbrev pub skip : M (Unit {0})
skip = pure tt

-- `if (b) m;`
abbrev pub when : Bool → M (Unit {0}) → M (Unit {0})
when true m = m
when false m = skip

abbrev pub emit : Effect → M (Unit {0})
emit e w = done tt (record w { out = w.out ++ (e ∷ []) })

abbrev pub say : Note → M (Unit {0})
say n = emit (printed n)

abbrev pub exit : {A : Type 0} → ℕ → M A
exit code w = exited code w

abbrev pub undefined : {A : Type 0} → M A
undefined w = fault w

abbrev pub exit_success : ℕ
exit_success = 0

abbrev pub exit_failure : ℕ
exit_failure = 1

-- The libraries, with the constants of their headers.
pub record Env : Type 0 where
  pub ogf_host_ctl : ℕ
  pub ogf_le_ctl : ℕ
  pub ocf_reset : ℕ
  pub ocf_le_set_random_address : ℕ
  pub ocf_le_set_advertising_parameters : ℕ
  pub ocf_le_set_advertising_data : ℕ
  pub ocf_le_set_advertise_enable : ℕ
  pub ocf_le_read_local_supported_features : ℕ
  pub evt_cmd_complete : ℕ
  pub hci_max_event_size : ℕ
  pub hci_event_hdr_size : ℕ
  pub evt_cmd_complete_size : ℕ
  pub opcode : ℕ → ℕ → ℕ  -- `htobs(cmd_opcode_pack(ogf, ocf))`
  pub hdr_evt : List ℕ → ℕ  -- `((hci_event_hdr *) p)->evt`
  pub cc_opcode : List ℕ → ℕ  -- `((evt_cmd_complete *) p)->opcode`
  pub hci_send_cmd : List Effect → Effect → Bool  -- does it return 0, after what was done
  pub hci_devid : Option ℕ  -- `hci_devid("hci0")`; a negative number is `none`
  pub hci_get_route : Option ℕ
  pub hci_open_dev : Option ℕ → Option ℕ
  pub hci_filter_set : Bool  -- `setsockopt` succeeds
  pub rand : ℕ → ℕ  -- the n-th value of `rand` after `srand`
  pub wpa_ctrl_request : List Effect → List ℕ → Reply
  -- `write_cmd` of hostapd's sources: the command and its arguments in a buffer of a size.
  pub write_cmd : ℕ → List ℕ → List (List ℕ) → Option (List ℕ)
  pub pack_max_messages : ℕ  -- `ODID_PACK_MAX_MESSAGES`
