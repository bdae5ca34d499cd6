-- ===== src/Hostapd/Events.antt =====
-- hostapd's events: what ap_interface.c does with the messages that hostapd sends unasked.
use transmitter_linux.Common.{
  ℕ, ◌+◌, ◌-◌, Bool, true, false, ◌==◌, ◌&&◌, Option, none, some, List, [], ◌∷◌, ◌++◌,
  if◌then◌else◌, codes, length, take,
}
use transmitter_linux.Hostapd.Help.{starts}

-- `os_strchr`: the text from the first such character on.
unfoldable pub from_char : ℕ → List ℕ → Option (List ℕ)
from_char c [] = none
from_char c (t ∷ text) = let later = from_char c text in if t == c then some (t ∷ text) else later

-- What an event does to the list `stations`: `cli_txt_list_add`, `cli_txt_list_del_addr`, nothing.
pub data StationEvent : Type 0 where
  add_station : List ℕ → StationEvent
  del_station : List ℕ → StationEvent
  no_event : StationEvent

-- AP_STA_CONNECTED and AP_STA_DISCONNECTED of hostapd's headers.
pub record EventNames : Type 0 where
  pub ap_sta_connected : List ℕ
  pub ap_sta_disconnected : List ℕ

-- The text behind the first character.
abbrev pub behind : List ℕ → List ℕ
behind [] = []
behind (c ∷ text) = text

-- What follows the first blank, given to the list.
abbrev pub with_station : (List ℕ → StationEvent) → Option (List ℕ) → StationEvent
with_station event none = no_event
with_station event (some s) = event (behind s)

module _ (names : EventNames) where
  abbrev pub station_event : List ℕ → StationEvent
  station_event start =
      if starts start names.ap_sta_connected
      then with_station add_station (from_char 32 start)
      else if starts start names.ap_sta_disconnected
      then with_station del_station (from_char 32 start)
      else no_event

  unfoldable pub cli_event : List ℕ → StationEvent
  unfolding starts from_char
  cli_event str = elim (from_char 62 str) [
    | none ↦ no_event
    | some start ↦ station_event (behind start)
  ]

-- The text that `hostapd_cli_action_process` hands to the program: an event without its level.
unfoldable pub action_text : List ℕ → List ℕ
unfolding from_char
action_text [] = []
action_text (c ∷ msg) =
    if c == 60
    then (elim (from_char 62 (c ∷ msg)) [ none ↦ c ∷ msg | some pos ↦ behind pos ])
    else c ∷ msg

-- `hostapd_cli_exec`: the program and its argument, which `os_snprintf` cuts to the size of the
-- buffer, if there is memory for it.
unfoldable pub hostapd_cli_exec : (ℕ → Bool) → List ℕ → List ℕ → List ℕ → List (List ℕ × List ℕ)
hostapd_cli_exec allocates program arg1 arg2 =
    let len = length arg1 + length arg2 + 2 in
    if allocates len then (program, take (len - 1) (arg1 ++ (codes " " ++ arg2))) ∷ [] else []

-- `action_file`, `ctrl_ifname`, and for which sizes there is memory.
pub record Action : Type 0 where
  pub action_file : List ℕ
  pub ctrl_ifname : List ℕ
  pub allocates : ℕ → Bool

unfoldable pub hostapd_cli_action_process : Action → List ℕ → List (List ℕ × List ℕ)
unfolding action_text hostapd_cli_exec
hostapd_cli_action_process a msg =
    hostapd_cli_exec a.allocates a.action_file a.ctrl_ifname (action_text msg)

-- What came of the pending messages: what happens to the list of stations, the lines printed, the
-- programs run, and whether the loop ended by a failure.
pub record Received : Type 0 where
  pub events : List StationEvent
  pub lines : List (List ℕ)
  pub runs : List (List ℕ × List ℕ)
  pub failed : Bool

nothing_received : Received
nothing_received = record { events = []; lines = []; runs = []; failed = false }

module _ (names : EventNames) where
  -- The body of the loop for one message, with `in_read` and `first`, before what follows it.
  abbrev receive_event : Bool → List ℕ → Received → Received
  receive_event blank buf rest = record rest {
    events = cli_event names buf ∷ rest.events;
    lines = (if blank then codes "\n" ∷ [] else []) ++ ((buf ++ codes "\n") ∷ rest.lines);
  }

  abbrev receive_action : Action → List ℕ → Received → Received
  receive_action a buf rest = record rest { runs = hostapd_cli_action_process a buf ++ rest.runs }

  -- The loop, for what the coming receives return (`none` where `wpa_ctrl_recv` fails);
  -- `action_monitor` is the action, if there is one.
  unfoldable pub recv_loop : Bool → Option Action → Bool → List (Option (List ℕ)) → Received
  unfolding nothing_received
  recv_loop in_read action first [] = nothing_received
  recv_loop in_read action first (none ∷ rest) = record nothing_received {
    lines = codes "Could not read pending message.\n" ∷ [];
    failed = true;
  }
  recv_loop in_read none first (some buf ∷ rest) =
      receive_event (in_read && first) buf (recv_loop in_read none false rest)
  recv_loop in_read (some a) first (some buf ∷ rest) =
      receive_action a buf (recv_loop in_read (some a) first rest)

  -- Without a connection nothing is read.
  unfoldable pub hostapd_cli_recv_pending :
      Bool → Bool → Option Action → List (Option (List ℕ)) → Received
  unfolding recv_loop nothing_received
  hostapd_cli_recv_pending false in_read action pending = nothing_received
  hostapd_cli_recv_pending true in_read action pending = recv_loop in_read action true pending

  -- `hostapd_cli_receive`, which the event loop calls when the socket can be read.
  unfoldable pub hostapd_cli_receive : Bool → List (Option (List ℕ)) → Received
  unfolding hostapd_cli_recv_pending
  hostapd_cli_receive ctrl_conn pending = hostapd_cli_recv_pending ctrl_conn false none pending

  -- `hostapd_cli_msg_cb`, for a message that arrives while a reply is awaited.
  unfoldable pub hostapd_cli_msg_cb : List ℕ → StationEvent × List ℕ
  hostapd_cli_msg_cb msg = (cli_event names msg, msg ++ codes "\n")
