-- ===== src/Hostapd/Protocol.antt =====
-- The order in which the connection's calls may come, and that the code keeps to it.
use transmitter_linux.Common.{
  ℕ, ◌+◌, ◌≡◌, refl, Bool, true, false, Option, List, [], ◌∷◌, ◌++◌, ◌&&◌, not, codes, length,
  arith, Bool-cases, inl, inr,
}
use transmitter_linux.Hostapd.Connection.{
  Call, wpa_ctrl_open2, wpa_ctrl_close, wpa_ctrl_attach, wpa_ctrl_detach, eloop_register_read_sock,
  eloop_unregister_read_sock, refreshed_stations, printed_no_connection, Connection, Library,
  ctrl_iface_dir, register_event_handler, unregister_event_handler, hostapd_cli_open_connection,
  detach, hostapd_cli_close_connection, attach,
}

-- What hostapd and the event loop know of the connection.
pub record Status : Type 0 where
  pub open_conn : Bool
  pub attached : Bool
  pub registered : Bool

abbrev pub idle : Status
idle = record { open_conn = false; attached = false; registered = false }

-- When a call may come: one connection at a time, which is detached and unregistered before it is
-- closed, and unregistered before it is detached.
abbrev pub legal : Call → Status → Bool
legal (wpa_ctrl_open2 cfile ok) s = not s.open_conn
legal wpa_ctrl_close s = s.open_conn && (not s.attached && not s.registered)
legal (wpa_ctrl_attach ok) s = s.open_conn && not s.attached
legal wpa_ctrl_detach s = s.attached && not s.registered
legal (eloop_register_read_sock ok) s = s.attached && not s.registered
legal eloop_unregister_read_sock s = s.registered
legal refreshed_stations s = s.open_conn
legal (printed_no_connection name) s = true

abbrev pub after : Call → Status → Status
after (wpa_ctrl_open2 cfile ok) s = record s { open_conn = ok }
after wpa_ctrl_close s = record s { open_conn = false }
after (wpa_ctrl_attach ok) s = record s { attached = ok }
after wpa_ctrl_detach s = record s { attached = false }
after (eloop_register_read_sock ok) s = record s { registered = ok }
after eloop_unregister_read_sock s = record s { registered = false }
after refreshed_stations s = s
after (printed_no_connection name) s = s

-- The calls, the newest first, came in a legal order and have led to this status.
pub data Follows : List Call → Status → Type 0 where
  nothing : Follows [] idle
  next :
      {es : List Call} {s : Status} (e : Call)
      → legal e s ≡ true
      → Follows es s
      → Follows (e ∷ es) (after e s)

abbrev pub status : Connection → Status
status c = record {
  open_conn = c.ctrl_conn;
  attached = c.hostapd_cli_attached;
  registered = c.event_handler_registered;
}

-- The calls so far were legal and the variables say what they have led to; what is registered is
-- attached and interactive, and what is attached is connected.
pub record WellFormed (c : Connection) : Type 0 where
  pub follows : Follows c.calls (status c)
  pub attached_open : (c.hostapd_cli_attached && not c.ctrl_conn) ≡ false
  pub registered_attached : (c.event_handler_registered && not c.hostapd_cli_attached) ≡ false
  pub registered_interactive : (c.event_handler_registered && not c.interactive) ≡ false

abbrev connection : Bool → Bool → Bool → Option (List ℕ) → Bool → List Call → Connection
connection conn att reg name inter calls = record {
  ctrl_conn = conn;
  hostapd_cli_attached = att;
  event_handler_registered = reg;
  ctrl_ifname = name;
  interactive = inter;
  calls = calls;
}

unregister_fields :
    (conn att reg inter : Bool) (name : Option (List ℕ)) (calls : List Call) (lib : Library)
    → WellFormed (connection conn att reg name inter calls)
    → let c' = unregister_event_handler lib (connection conn att reg name inter calls) in
      WellFormed c' × (c'.event_handler_registered ≡ false)
unfolding unregister_event_handler
unregister_fields false att reg inter name calls lib wf =
    (wf, ground (arith, wf.attached_open, wf.registered_attached))
unregister_fields true att reg false name calls lib wf =
    (wf, ground (arith, wf.registered_interactive))
unregister_fields true att false true name calls lib wf = (wf, refl)
unregister_fields true att true true name calls lib wf = (
  record {
    follows = next eloop_unregister_read_sock refl wf.follows;
    attached_open = wf.attached_open;
    registered_attached = refl;
    registered_interactive = refl;
  },
  refl,
)

-- The connection is closed, so that nothing is attached or registered either.
pub record Closed (c : Connection) : Type 0 where
  pub well_formed : WellFormed c
  pub closed : c.ctrl_conn ≡ false

shut :
    (inter : Bool) (name : Option (List ℕ)) {calls : List Call}
    → Follows calls idle
    → Closed (connection false false false name inter calls)
shut inter name f = record {
  well_formed = record {
    follows = f;
    attached_open = refl;
    registered_attached = refl;
    registered_interactive = refl;
  };
  closed = refl;
}

close_fields :
    (conn att reg inter : Bool) (name : Option (List ℕ)) (calls : List Call) (lib : Library)
    → WellFormed (connection conn att reg name inter calls)
    → Closed (hostapd_cli_close_connection lib (connection conn att reg name inter calls))
unfolding hostapd_cli_close_connection unregister_event_handler detach
close_fields false att reg inter name calls lib wf = record { well_formed = wf; closed = refl }
close_fields true false true inter name calls lib wf =
    absurd (ground (arith, wf.registered_attached))
close_fields true true true false name calls lib wf =
    absurd (ground (arith, wf.registered_interactive))
close_fields true true true true name calls lib wf = shut true name (
    next wpa_ctrl_close refl
      (next wpa_ctrl_detach refl (next eloop_unregister_read_sock refl wf.follows)))
close_fields true true false false name calls lib wf =
    shut false name (next wpa_ctrl_close refl (next wpa_ctrl_detach refl wf.follows))
close_fields true true false true name calls lib wf =
    shut true name (next wpa_ctrl_close refl (next wpa_ctrl_detach refl wf.follows))
close_fields true false false false name calls lib wf =
    shut false name (next wpa_ctrl_close refl wf.follows)
close_fields true false false true name calls lib wf =
    shut true name (next wpa_ctrl_close refl wf.follows)

-- The connection is neither attached nor registered.
pub record Fresh (c : Connection) : Type 0 where
  pub well_formed : WellFormed c
  pub unattached : c.hostapd_cli_attached ≡ false
  pub unregistered : c.event_handler_registered ≡ false

open_fields :
    (conn att reg inter : Bool) (name : Option (List ℕ)) (calls : List Call) (lib : Library)
    (ifname : List ℕ)
    → Closed (connection conn att reg name inter calls)
    → Fresh (hostapd_cli_open_connection lib ifname (connection conn att reg name inter calls))
unfolding hostapd_cli_open_connection
open_fields true att reg inter name calls lib ifname h = absurd (ground (arith, h.closed))
open_fields false true reg inter name calls lib ifname h =
    absurd (ground (arith, h.well_formed.attached_open))
open_fields false false true inter name calls lib ifname h =
    absurd (ground (arith, h.well_formed.registered_attached))
open_fields false false false inter name calls lib ifname h =
    elim (Bool-cases (lib.allocates calls (length ctrl_iface_dir + length ifname + 2))) [
      | inl e ↦ rw e (record {
        well_formed = record {
          follows =
              next (wpa_ctrl_open2 (ctrl_iface_dir ++ (codes "/" ++ ifname)) _) refl
                h.well_formed.follows;
          attached_open = refl;
          registered_attached = refl;
          registered_interactive = refl;
        };
        unattached = refl;
        unregistered = refl;
      })
      | inr e ↦
          rw e (record { well_formed = h.well_formed; unattached = refl; unregistered = refl })
    ]

attach_fields :
    (conn att reg inter : Bool) (name : Option (List ℕ)) (calls : List Call) (lib : Library)
    → Fresh (connection conn att reg name inter calls)
    → conn ≡ true
    → WellFormed (attach lib (connection conn att reg name inter calls))
      × ((attach lib (connection conn att reg name inter calls)).ctrl_conn ≡ true)
unfolding attach register_event_handler
attach_fields false att reg inter name calls lib h on = absurd (ground (arith, on))
attach_fields true true reg inter name calls lib h on = absurd (ground (arith, h.unattached))
attach_fields true false true inter name calls lib h on = absurd (ground (arith, h.unregistered))
attach_fields true false false false name calls lib h on = (h.well_formed, refl)
attach_fields true false false true name calls lib h on = elim (Bool-cases (lib.attaches calls)) [
  | inl e ↦ rw e (
    record {
      follows = next refreshed_stations refl (
          next (eloop_register_read_sock _) refl
            (next (wpa_ctrl_attach true) refl h.well_formed.follows));
      attached_open = refl;
      registered_attached = ground arith;
      registered_interactive = ground arith;
    },
    refl,
  )
  | inr e ↦ rw e (
    record {
      follows = next (wpa_ctrl_attach false) refl h.well_formed.follows;
      attached_open = refl;
      registered_attached = refl;
      registered_interactive = refl;
    },
    refl,
  )
]

-- The same, of the connection as a record.
module _ (lib : Library) where
  pub unregister_event_handler-WellFormed :
      (c : Connection) → WellFormed c → WellFormed (unregister_event_handler lib c)
  unregister_event_handler-WellFormed c wf =
      (unregister_fields c.ctrl_conn c.hostapd_cli_attached c.event_handler_registered c.interactive
        c.ctrl_ifname c.calls lib wf).0

  pub hostapd_cli_close_connection-Closed :
      (c : Connection) → WellFormed c → Closed (hostapd_cli_close_connection lib c)
  hostapd_cli_close_connection-Closed c wf =
      close_fields c.ctrl_conn c.hostapd_cli_attached c.event_handler_registered c.interactive
        c.ctrl_ifname c.calls lib wf

  pub hostapd_cli_open_connection-Fresh :
      (ifname : List ℕ) (c : Connection)
      → Closed c
      → Fresh (hostapd_cli_open_connection lib ifname c)
  hostapd_cli_open_connection-Fresh ifname c closed =
      open_fields c.ctrl_conn c.hostapd_cli_attached c.event_handler_registered c.interactive
        c.ctrl_ifname c.calls lib ifname closed

  pub attach-WellFormed :
      (c : Connection)
      → Fresh c
      → c.ctrl_conn ≡ true
      → WellFormed (attach lib c) × ((attach lib c).ctrl_conn ≡ true)
  attach-WellFormed c fresh on =
      attach_fields c.ctrl_conn c.hostapd_cli_attached c.event_handler_registered c.interactive
        c.ctrl_ifname c.calls lib fresh on
