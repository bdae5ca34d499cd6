-- ===== src/Bluetooth/Controller.antt =====
-- The Bluetooth controller that bluetooth.c commands, which is not part of the sources: an
-- interface with the effect that the Bluetooth Core Specification (Vol 4, Part E, 7.8) gives to
-- commands with legal parameters, on a controller that has both groups of advertising commands.
-- The two groups exclude each other from one reset to the next. In one place the code leaves the
-- specification: its command that enables one advertising set has two bytes more than the 6 that
-- the specification asks for. The specification has a controller refuse that with the error 0x12;
-- some hardware takes the bytes that it counts. `takes_surplus` says which of the two it is.
use transmitter_linux.Common.{
  ℕ, ◌+◌, ◌*◌, ◌≤◌, ◌≡◌, refl, Bool, true, false, not, leb, ◌&&◌, ◌||◌, ◌==◌, Option, none, some,
  List, [], ◌∷◌, map, length, if◌then◌else◌,
}
use transmitter_linux.Machine.{
  Effect, Env, hci_command, hci_closed, ctrl_request, printed, slept_us, shell, gps_streamed,
  gps_closed,
}
use transmitter_linux.Bluetooth.Trace.Acts.{HciCommand, hci}
use transmitter_linux.Bluetooth.Trace.Init.{le, reset}
pub mod Obeying
pub mod Views
pub mod Payload
pub mod Advertising

-- Legacy advertising: the parameters, the random address, the advertising data, and whether it is
-- switched on.
pub record Legacy : Type 0 where
  pub parameters : Option (List ℕ)
  pub address : Option (List ℕ)
  pub payload : Option (List ℕ)
  pub on : Bool

-- An advertising set: its handle, the parameters behind the handle, and the same.
pub record AdvSet : Type 0 where
  pub handle : ℕ
  pub parameters : List ℕ
  pub address : Option (List ℕ)
  pub payload : Option (List ℕ)
  pub on : Bool

-- What a controller holds: nothing since its reset, or what one group of commands has made.
pub data View : Type 0 where
  unused : View
  legacy : Legacy → View
  extended : List AdvSet → View

-- A change of the sets with a handle.
abbrev pub at_handle : ℕ → (AdvSet → AdvSet) → List AdvSet → List AdvSet
at_handle h f [] = []
at_handle h f (x ∷ sets) = (if x.handle == h then f x else x) ∷ at_handle h f sets

-- The sets but those with a handle.
abbrev pub without : ℕ → List AdvSet → List AdvSet
without h [] = []
without h (x ∷ sets) = let rest = without h sets in if x.handle == h then rest else x ∷ rest

abbrev pub AllOff : List AdvSet → Type 0
AllOff [] = Unit
AllOff (x ∷ sets) = (x.on ≡ false) × AllOff sets

abbrev pub switched_off : AdvSet → AdvSet
switched_off x = record x { on = false }

abbrev pub addressed : List ℕ → AdvSet → AdvSet
addressed a x = record x { address = some a }

abbrev pub loaded : List ℕ → AdvSet → AdvSet
loaded d x = record x { payload = some d }

abbrev pub new_set : ℕ → List ℕ → AdvSet
new_set h p = record { handle = h; parameters = p; address = none; payload = none; on = false }

abbrev pub with_parameters : List ℕ → Legacy
with_parameters p = record { parameters = some p; address = none; payload = none; on = false }

-- Parameters of legacy advertising that is neither connectable nor scannable: the interval within
-- the limits of the specification, a random address of its own, all peers, and all channels.
abbrev pub legal_legacy : List ℕ → Bool
legal_legacy
      (lo0 ∷ lo1 ∷ hi0 ∷ hi1 ∷ kind ∷ own ∷ peer ∷ a0 ∷ a1 ∷ a2 ∷ a3 ∷ a4 ∷ a5 ∷ channels ∷ policy
        ∷ []) =
    leb 0x20 (lo0 + 256 * lo1)
    && (leb (lo0 + 256 * lo1) (hi0 + 256 * hi1)
        && (leb (hi0 + 256 * hi1) 0x4000
            && (kind == 3 && (own == 1 && (peer == 0 && (channels == 7 && policy == 0))))))
legal_legacy _ = false

abbrev little_endian : ℕ → ℕ → ℕ → ℕ
little_endian b0 b1 b2 = b0 + 256 * b1 + 65536 * b2

-- The same behind the handle for the extended commands: the properties are those of a legacy
-- PDU on 1M, or of an extended one with the coding of LE Coded on both channels.
abbrev pub legal_extended : List ℕ → Bool
legal_extended
      (p0 ∷ p1 ∷ lo0 ∷ lo1 ∷ lo2 ∷ hi0 ∷ hi1 ∷ hi2 ∷ channels ∷ own ∷ peer ∷ a0 ∷ a1 ∷ a2 ∷ a3 ∷ a4
        ∷ a5 ∷ policy ∷ power ∷ primary ∷ skip ∷ secondary ∷ sid ∷ notify ∷ []) =
    leb 0x20 (little_endian lo0 lo1 lo2)
    && (leb (little_endian lo0 lo1 lo2) (little_endian hi0 hi1 hi2)
        && (leb (little_endian hi0 hi1 hi2) 0xFFFFFF
            && (channels == 7
                && (own == 1
                    && (peer == 0
                        && (policy == 0
                            && (power == 0x7F
                                && (p1 == 0
                                    && (((p0 == 0x10 && (primary == 1 && secondary == 1))
                                          || (p0 == 0 && (primary == 3 && secondary == 3)))
                                        && (leb sid 15 && notify == 0))))))))))
legal_extended _ = false

module _ (env : Env) where
  pub record Controller : Type 1 where
    pub State : Type 0
    pub apply : HciCommand → State → State
    pub view : State → View
    pub reset_clears : (s : State) → view (apply (reset env) s) ≡ unused
    pub takes_surplus : Bool
    pub legacy_parameters :
        (s : State) (p : List ℕ)
        → view s ≡ unused
        → legal_legacy p ≡ true
        → view (apply (le env env.ocf_le_set_advertising_parameters p) s)
          ≡ legacy (with_parameters p)
    pub legacy_address :
        (s : State) (l : Legacy) (a : List ℕ)
        → view s ≡ legacy l
        → l.on ≡ false
        → length a ≡ 6
        → view (apply (le env env.ocf_le_set_random_address a) s)
          ≡ legacy (record l { address = some a })
    -- Advertising with a random address starts once there are parameters and an address.
    pub legacy_enable :
        (s : State) (l : Legacy) (p a : List ℕ)
        → view s ≡ legacy l
        → l.parameters ≡ some p
        → l.address ≡ some a
        → view (apply (le env env.ocf_le_set_advertise_enable (1 ∷ [])) s)
          ≡ legacy (record l { on = true })
    pub legacy_disable :
        (s : State) (l : Legacy)
        → view s ≡ legacy l
        → view (apply (le env env.ocf_le_set_advertise_enable (0 ∷ [])) s)
          ≡ legacy (record l { on = false })
    pub legacy_data :
        (s : State) (l : Legacy) (d : List ℕ)
        → view s ≡ legacy l
        → length d ≡ 31
        → view (apply (le env env.ocf_le_set_advertising_data (length d ∷ d)) s)
          ≡ legacy (record l { payload = some d })
    pub legacy_enable_refused :
        (s : State) (sets : List AdvSet) (p : List ℕ)
        → view s ≡ extended sets
        → view (apply (le env env.ocf_le_set_advertise_enable p) s) ≡ extended sets
    pub legacy_data_refused :
        (s : State) (sets : List AdvSet) (p : List ℕ)
        → view s ≡ extended sets
        → view (apply (le env env.ocf_le_set_advertising_data p) s) ≡ extended sets
    pub set_parameters :
        (s : State) (h : ℕ) (p : List ℕ)
        → view s ≡ unused
        → h ≤ 0xEF
        → legal_extended p ≡ true
        → view (apply (le env 0x36 (h ∷ p)) s) ≡ extended (new_set h p ∷ [])
    pub set_address :
        (s : State) (sets : List AdvSet) (h : ℕ) (a : List ℕ)
        → view s ≡ extended sets
        → AllOff sets
        → length a ≡ 6
        → view (apply (le env 0x35 (h ∷ a)) s) ≡ extended (at_handle h (addressed a) sets)
    pub set_data :
        (s : State) (sets : List AdvSet) (h : ℕ) (d : List ℕ)
        → view s ≡ extended sets
        → length d ≡ 31
        → view (apply (le env 0x37 (h ∷ 3 ∷ 1 ∷ length d ∷ d)) s)
          ≡ extended (at_handle h (loaded d) sets)
    -- The command of 8 bytes that enables the one set.
    pub surplus_enable :
        (s : State) (x : AdvSet) (a : List ℕ)
        → view s ≡ extended (x ∷ [])
        → x.address ≡ some a
        → x.on ≡ false
        → view (apply (le env 0x39 (1 ∷ 1 ∷ x.handle ∷ 0 ∷ 0 ∷ 0 ∷ 0 ∷ 0 ∷ [])) s)
          ≡ extended (record x { on = takes_surplus } ∷ [])
    pub disable_all :
        (s : State) (sets : List AdvSet)
        → view s ≡ extended sets
        → view (apply (le env 0x39 (0 ∷ 0 ∷ [])) s) ≡ extended (map switched_off sets)
    pub remove_set :
        (s : State) (sets : List AdvSet) (h : ℕ)
        → view s ≡ extended sets
        → AllOff sets
        → view (apply (le env 0x3C (h ∷ [])) s) ≡ extended (without h sets)
    pub enable_refused :
        (s : State) (l : Legacy) (p : List ℕ)
        → view s ≡ legacy l
        → view (apply (le env 0x39 p) s) ≡ legacy l
    pub remove_refused :
        (s : State) (l : Legacy) (p : List ℕ)
        → view s ≡ legacy l
        → view (apply (le env 0x3C p) s) ≡ legacy l

module _ (env : Env) (c : Controller env) where
  open c use {State, apply}

  -- A controller that is sent commands, one after the other.
  abbrev pub run : List HciCommand → State → State
  run [] s = s
  run (k ∷ ks) s = run ks (apply k s)

  -- A controller through what the program has done, of which it sees the commands.
  abbrev pub obey : List Effect → State → State
  obey [] s = s
  obey (hci_command dd g k p ∷ es) s = obey es (apply (hci g k p) s)
  obey (hci_closed dd ∷ es) s = obey es s
  obey (ctrl_request cmd ∷ es) s = obey es s
  obey (printed n ∷ es) s = obey es s
  obey (slept_us n ∷ es) s = obey es s
  obey (shell cmd ∷ es) s = obey es s
  obey (gps_streamed flags device ∷ es) s = obey es s
  obey (gps_closed ∷ es) s = obey es s
