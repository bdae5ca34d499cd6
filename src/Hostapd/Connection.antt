-- ===== src/Hostapd/Connection.antt =====
-- The control connection of ap_interface.c as the thread of `ap_interface_init` opens and closes it:
-- the static variables, and the calls of wpa_ctrl and eloop that belong to them.
use transmitter_linux.Common.{
  ℕ, ◌+◌, Bool, true, false, Option, none, some, List, [], ◌∷◌, ◌++◌, ◌&&◌, not, codes, length,
  if◌then◌else◌,
}

-- A call of the libraries, or the line that says that there is no connection, with what it returns where that matters.
pub data Call : Type 0 where
  wpa_ctrl_open2 : List ℕ → Bool → Call
  wpa_ctrl_close : Call
  wpa_ctrl_attach : Bool → Call
  wpa_ctrl_detach : Call
  eloop_register_read_sock : Bool → Call
  eloop_unregister_read_sock : Call
  refreshed_stations : Call
  printed_no_connection : Option (List ℕ) → Call  -- the line with `ctrl_ifname`, null or not

-- The variables; `client_socket_dir` and `action_file` are null throughout.
pub record Connection : Type 0 where
  pub ctrl_conn : Bool  -- `ctrl_conn != NULL`
  pub hostapd_cli_attached : Bool
  pub event_handler_registered : Bool
  pub ctrl_ifname : Option (List ℕ)
  pub interactive : Bool
  pub calls : List Call  -- the newest first

-- Which calls succeed, after those before them, and whether so many bytes can be allocated.
pub record Library : Type 0 where
  pub opens : List Call → List ℕ → Bool
  pub attaches : List Call → Bool
  pub registers : List Call → Bool
  pub allocates : List Call → ℕ → Bool

abbrev pub ctrl_iface_dir : List ℕ
ctrl_iface_dir = codes "/var/run/hostapd"

abbrev call : Call → Connection → Connection
call e c = record c { calls = e ∷ c.calls }

module _ (lib : Library) where
  unfoldable pub register_event_handler : Connection → Connection
  register_event_handler c =
      let result = lib.registers c.calls in
      if not c.ctrl_conn
      then c
      else if c.interactive
      then call (eloop_register_read_sock result) (record c { event_handler_registered = result })
      else c

  unfoldable pub unregister_event_handler : Connection → Connection
  unregister_event_handler c =
      if not c.ctrl_conn
      then c
      else if c.interactive && c.event_handler_registered
      then call eloop_unregister_read_sock (record c { event_handler_registered = false })
      else c

  -- `ctrl_conn = hostapd_cli_open_connection(ifname)`
  unfoldable pub hostapd_cli_open_connection : List ℕ → Connection → Connection
  hostapd_cli_open_connection ifname c =
      let cfile = ctrl_iface_dir ++ (codes "/" ++ ifname) in
      let result = lib.opens c.calls cfile in
      if not (lib.allocates c.calls (length ctrl_iface_dir + length ifname + 2))
      then record c { ctrl_conn = false }
      else call (wpa_ctrl_open2 cfile result) (record c { ctrl_conn = result })

  unfoldable pub detach : Connection → Connection
  detach c =
      if c.hostapd_cli_attached
      then call wpa_ctrl_detach (record c { hostapd_cli_attached = false })
      else c

  unfoldable pub hostapd_cli_close_connection : Connection → Connection
  unfolding unregister_event_handler detach
  hostapd_cli_close_connection c =
      if not c.ctrl_conn
      then c
      else call wpa_ctrl_close (record (detach (unregister_event_handler c)) { ctrl_conn = false })

  -- What follows a successful open: nothing is attached without `interactive`.
  unfoldable pub attach : Connection → Connection
  unfolding register_event_handler
  attach c =
      let result = lib.attaches c.calls in
      let c' = call (wpa_ctrl_attach result) c in
      if not c.interactive
      then c
      else if result
      then call refreshed_stations
          (register_event_handler (record c' { hostapd_cli_attached = true }))
      else c'

  -- `hostapd_cli_reconnect`; the result says whether it returns 0. The name may be that of
  -- `ctrl_ifname` itself, which is copied before it is freed.
  unfoldable pub hostapd_cli_reconnect : Option (List ℕ) → Connection → Bool × Connection
  unfolding hostapd_cli_close_connection hostapd_cli_open_connection attach
  hostapd_cli_reconnect none c = (false, hostapd_cli_close_connection c)
  hostapd_cli_reconnect (some ifname) c =
      let closed = hostapd_cli_close_connection c in
      let named = record closed { ctrl_ifname = some ifname } in
      let opened = hostapd_cli_open_connection ifname named in
      if not (lib.allocates closed.calls (length ifname + 1))
      then (false, record closed { ctrl_ifname = none })
      else if not opened.ctrl_conn
      then (false, opened)
      else (true, attach opened)

  -- The line of `hostapd_cli_cmd_interface` where `hostapd_cli_reconnect` does not return 0.
  unfoldable pub report_failure : Bool × Connection → Connection
  report_failure (true, c) = c
  report_failure (false, c) = call (printed_no_connection c.ctrl_ifname) c

  -- `hostapd_cli_cmd_interface`; without an argument it lists the directory.
  unfoldable pub hostapd_cli_cmd_interface : List (List ℕ) → Connection → Connection
  unfolding hostapd_cli_reconnect report_failure
  hostapd_cli_cmd_interface [] c = c
  hostapd_cli_cmd_interface (ifname ∷ rest) c =
      report_failure (hostapd_cli_reconnect (some ifname) c)

  -- What `hostapd_cli_ping` does to the connection, after its ping was answered or not.
  unfoldable pub ping_connection : Bool → Connection → Connection
  unfolding hostapd_cli_close_connection hostapd_cli_reconnect
  ping_connection answered c =
      let c' = if c.ctrl_conn && not answered then hostapd_cli_close_connection c else c in
      if not c'.ctrl_conn then (hostapd_cli_reconnect c'.ctrl_ifname c').1 else c'

  -- The end of the thread: `unregister_event_handler` and the close of `hostapd_cli_cleanup`.
  unfoldable pub end_thread : Connection → Connection
  unfolding unregister_event_handler hostapd_cli_close_connection
  end_thread c = hostapd_cli_close_connection (unregister_event_handler c)
