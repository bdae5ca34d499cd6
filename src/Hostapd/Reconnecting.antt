-- ===== src/Hostapd/Reconnecting.antt =====
-- The states that the thread of `ap_interface_init` brings its connection to.
use mathlib.Core.Path.{subst}
use transmitter_linux.Common.{
  ℕ, ◌+◌, ◌≡◌, refl, sym, ◌∙◌, ap, Bool, true, false, ◌&&◌, not, Option, none, some, List, [], ◌∷◌,
  length, arith, if◌then◌else◌,
}
use transmitter_linux.Hostapd.Connection.{
  Connection, Library, hostapd_cli_close_connection, hostapd_cli_open_connection,
  unregister_event_handler, attach, hostapd_cli_reconnect, hostapd_cli_cmd_interface,
  report_failure, printed_no_connection, ping_connection, end_thread,
}
use transmitter_linux.Hostapd.Protocol.{
  Follows, nothing, next, idle, status, WellFormed, Closed, Fresh,
  unregister_event_handler-WellFormed, hostapd_cli_close_connection-Closed,
  hostapd_cli_open_connection-Fresh, attach-WellFormed,
}

-- The variables as they are initialised; `interactive` is set before the first reconnection, and
-- the name may be known by then.
abbrev pub initial : Bool → Option (List ℕ) → Connection
initial inter name = record {
  ctrl_conn = false;
  hostapd_cli_attached = false;
  event_handler_registered = false;
  ctrl_ifname = name;
  interactive = inter;
  calls = [];
}

-- From the initial state by reconnections, pings and `interface` commands.
pub data Reaches (lib : Library) : Connection → Type 0 where
  started : (inter : Bool) (name : Option (List ℕ)) → Reaches lib (initial inter name)
  reconnected :
      {c : Connection} (name : Option (List ℕ))
      → Reaches lib c
      → Reaches lib (hostapd_cli_reconnect lib name c).1
  pinged :
      {c : Connection} (answered : Bool)
      → Reaches lib c
      → Reaches lib (ping_connection lib answered c)
  commanded :
      {c : Connection} (args : List (List ℕ))
      → Reaches lib c
      → Reaches lib (hostapd_cli_cmd_interface lib args c)

-- A reconnection has left a well-formed connection, and says whether there is one.
record Reconnected (r : Bool × Connection) : Type 0 where
  well_formed : WellFormed r.1
  says : r.0 ≡ r.1.ctrl_conn

rename :
    (c : Connection) (name : Option (List ℕ)) → Closed c → Closed (record c { ctrl_ifname = name })
rename c name h = record {
  well_formed = record {
    follows = h.well_formed.follows;
    attached_open = h.well_formed.attached_open;
    registered_attached = h.well_formed.registered_attached;
    registered_interactive = h.well_formed.registered_interactive;
  };
  closed = h.closed;
}

module _ (lib : Library) where
  after_open :
      (o : Connection)
      → Fresh o
      → (b : Bool) → o.ctrl_conn ≡ b
      → Reconnected (if not b then (false, o) else (true, attach lib o))
  after_open o fresh true e =
      let (wf, on) = attach-WellFormed lib o fresh e in record { well_formed = wf; says = sym on }
  after_open o fresh false e = record { well_formed = fresh.well_formed; says = sym e }

  either :
      (b : Bool) {r s : Bool × Connection}
      → Reconnected r
      → Reconnected s
      → Reconnected (if b then r else s)
  either true p q = p
  either false p q = q

  hostapd_cli_reconnect-Reconnected :
      (name : Option (List ℕ)) (c : Connection)
      → WellFormed c
      → Reconnected (hostapd_cli_reconnect lib name c)
  unfolding hostapd_cli_reconnect
  hostapd_cli_reconnect-Reconnected none c wf =
      let h = hostapd_cli_close_connection-Closed lib c wf in
      record { well_formed = h.well_formed; says = sym h.closed }
  hostapd_cli_reconnect-Reconnected (some ifname) c wf =
      let h = hostapd_cli_close_connection-Closed lib c wf in
      let closed = hostapd_cli_close_connection lib c in
      let o =
        hostapd_cli_open_connection lib ifname (record closed { ctrl_ifname = some ifname }) in
      either (not (lib.allocates closed.calls (length ifname + 1)))
        (record { well_formed = (rename closed none h).well_formed; says = sym h.closed })
        (after_open o
          (hostapd_cli_open_connection-Fresh lib ifname
            (record closed { ctrl_ifname = some ifname }) (rename closed (some ifname) h))
          o.ctrl_conn refl)

  choose-WellFormed :
      (b : Bool) {c d : Connection} → WellFormed c → WellFormed d → WellFormed (if b then c else d)
  choose-WellFormed true p q = p
  choose-WellFormed false p q = q

  ping_connection-WellFormed :
      (answered : Bool) (c : Connection)
      → WellFormed c
      → WellFormed (ping_connection lib answered c)
  unfolding ping_connection
  ping_connection-WellFormed answered c wf =
      let c' = if c.ctrl_conn && not answered then hostapd_cli_close_connection lib c else c in
      let wf' : WellFormed c' =
        choose-WellFormed (c.ctrl_conn && not answered)
          (hostapd_cli_close_connection-Closed lib c wf).well_formed wf in
      choose-WellFormed (not c'.ctrl_conn)
        (hostapd_cli_reconnect-Reconnected c'.ctrl_ifname c' wf').well_formed wf'

  report_failure-WellFormed :
      (r : Bool × Connection) → WellFormed r.1 → WellFormed (report_failure lib r)
  unfolding report_failure
  report_failure-WellFormed (true, c) wf = wf
  report_failure-WellFormed (false, c) wf = record {
    follows = next (printed_no_connection c.ctrl_ifname) refl wf.follows;
    attached_open = wf.attached_open;
    registered_attached = wf.registered_attached;
    registered_interactive = wf.registered_interactive;
  }

  Reaches-WellFormed : {c : Connection} → Reaches lib c → WellFormed c
  unfolding hostapd_cli_cmd_interface
  Reaches-WellFormed (started inter name) = record {
    follows = nothing;
    attached_open = refl;
    registered_attached = refl;
    registered_interactive = refl;
  }
  Reaches-WellFormed (reconnected {c} name r) =
      (hostapd_cli_reconnect-Reconnected name c (Reaches-WellFormed r)).well_formed
  Reaches-WellFormed (pinged {c} answered r) =
      ping_connection-WellFormed answered c (Reaches-WellFormed r)
  Reaches-WellFormed (commanded [] r) = Reaches-WellFormed r
  Reaches-WellFormed (commanded {c} (ifname ∷ rest) r) =
      report_failure-WellFormed (hostapd_cli_reconnect lib (some ifname) c)
        (hostapd_cli_reconnect-Reconnected (some ifname) c (Reaches-WellFormed r)).well_formed

  Closed-status : (c : Connection) → Closed c → status c ≡ idle
  Closed-status c h =
      let att : c.hostapd_cli_attached ≡ false =
        ground (arith, h.closed, h.well_formed.attached_open) in
      let reg : c.event_handler_registered ≡ false =
        ground (arith, att, h.well_formed.registered_attached) in
      ap (λ b. record (status c) { open_conn = b }) h.closed
      ∙ ap (λ b. record (status c) { open_conn = false; attached = b }) att
      ∙ ap (λ b. record idle { registered = b }) reg

  -- In every state that reconnections, pings and `interface` commands lead to from the initial
  -- one, whatever the libraries return and whether memory can be allocated: the calls of wpa_ctrl
  -- and eloop so far came in a legal order (one connection at a time, which is unregistered and
  -- detached before it is closed), and `ctrl_conn`, `hostapd_cli_attached` and
  -- `event_handler_registered` say what they have led to. A further reconnection returns 0
  -- exactly if it leaves a connection, and the end of the thread makes legal calls that leave
  -- nothing open, attached or registered.
  pub Reaches-Follows :
      (c : Connection) (name : Option (List ℕ))
      → Reaches lib c
      → Follows c.calls (status c)
        × ((hostapd_cli_reconnect lib name c).0 ≡ (hostapd_cli_reconnect lib name c).1.ctrl_conn)
        × Follows (end_thread lib c).calls idle
  unfolding end_thread
  Reaches-Follows c name reached =
      let wf = Reaches-WellFormed reached in
      let unregistered = unregister_event_handler lib c in
      let closed =
        hostapd_cli_close_connection-Closed lib unregistered
          (unregister_event_handler-WellFormed lib c wf) in
      (
        wf.follows,
        (hostapd_cli_reconnect-Reconnected name c wf).says,
        subst (Follows (hostapd_cli_close_connection lib unregistered).calls)
            (Closed-status (hostapd_cli_close_connection lib unregistered) closed)
            closed.well_formed.follows,
      )
