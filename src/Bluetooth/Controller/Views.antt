-- ===== src/Bluetooth/Controller/Views.antt =====
-- Where the command sequences of bluetooth.c leave a controller.
use mathlib.Core.Bool.{true≢false}
use transmitter_linux.Common.{
  ℕ, ◌≤◌, ◌≡◌, refl, sym, ap, ◌∙◌, Bool, true, false, ◌&&◌, ◌||◌, not, ◌==◌, Option, none, some,
  List, [], ◌∷◌, drop, if◌then◌else◌, arith,
}
use transmitter_linux.Machine.{Env}
use transmitter_linux.Utils.{Config}
use transmitter_linux.Bluetooth.Buffers.{
  random_address_buf, advertising_parameters_buf, extended_advertising_parameters_buf,
  advertising_set_random_address_buf, extended_advertising_enable_buf,
}
use transmitter_linux.Bluetooth.Hci.{generate_random_mac_address}
use transmitter_linux.Bluetooth.Trace.Init.{
  le, reset, btl_commands, extended_commands, init_commands,
}
use transmitter_linux.Bluetooth.Controller.{
  Legacy, AdvSet, View, legacy, extended, at_handle, addressed, new_set, with_parameters,
  legal_extended, Controller, run,
}

-- The one set of a kind of extended advertising, with its payload.
abbrev pub the_set : ℕ → ℕ → Bool → List ℕ → Option (List ℕ) → Bool → AdvSet
the_set handle interval_ms long_range mac payload on = record {
  handle = handle;
  parameters = drop 1 (extended_advertising_parameters_buf handle interval_ms long_range);
  address = some mac;
  payload = payload;
  on = on;
}

abbrev pub the_legacy : List ℕ → Option (List ℕ) → Bool → Legacy
the_legacy mac payload on = record {
  parameters = some (advertising_parameters_buf 100);
  address = some mac;
  payload = payload;
  on = on;
}

-- What a controller holds for the chosen kinds: the set that was set up last, which is on if the
-- controller takes the surplus bytes of the command for it, or else legacy advertising, which is on.
abbrev pub advertised : Bool → Config → List ℕ → Option (List ℕ) → View
advertised takes config mac payload =
    if config.use_bt5
    then extended (the_set config.handle_bt5 950 true mac payload takes ∷ [])
    else if config.use_bt4
    then extended (the_set config.handle_bt4 300 false mac payload takes ∷ [])
    else legacy (the_legacy mac payload true)

-- One kind is chosen, or legacy advertising with one other.
abbrev pub apart : Config → Bool
apart config = not (config.use_bt4 && config.use_bt5)

abbrev pub some_kind : Config → Bool
some_kind config = config.use_btl || (config.use_bt4 || config.use_bt5)

abbrev pub kinds : Bool → Bool → Bool → Config → Config
kinds btl bt4 bt5 config = record config { use_btl = btl; use_bt4 = bt4; use_bt5 = bt5 }

pub at_handle-same : (x : AdvSet) (f : AdvSet → AdvSet) → at_handle x.handle f (x ∷ []) ≡ f x ∷ []
at_handle-same x f = let same : (x.handle == x.handle) ≡ true = ground arith in rw same refl

module _ (env : Env) (c : Controller env) where
  open c use {State, apply, view}

  abbrev pub mac : List ℕ
  mac = generate_random_mac_address env

  ends_legacy :
      (s : State) → view (run env c (btl_commands env mac) s) ≡ legacy (the_legacy mac none false)
  unfolding generate_random_mac_address random_address_buf advertising_parameters_buf
  ends_legacy s =
      c.legacy_address _ (with_parameters (advertising_parameters_buf 100)) mac
        (c.legacy_parameters _ (advertising_parameters_buf 100) (c.reset_clears s) refl) refl refl

  set_up :
      (h : ℕ) (p : List ℕ) (s : State)
      → h ≤ 0xEF
      → legal_extended p ≡ true
      → view (run env c (reset env ∷ le env 0x36 (h ∷ p) ∷ le env 0x35 (h ∷ mac) ∷ []) s)
        ≡ extended (addressed mac (new_set h p) ∷ [])
  unfolding generate_random_mac_address
  set_up h p s fits legal =
      c.set_address _ (new_set h p ∷ []) h mac
        (c.set_parameters _ h p (c.reset_clears s) fits legal) (refl, tt) refl
      ∙ ap extended (at_handle-same (new_set h p) (addressed mac))

  ends_extended :
      (h interval_ms : ℕ) (long_range : Bool) (s : State)
      → h ≤ 0xEF
      → legal_extended (drop 1 (extended_advertising_parameters_buf h interval_ms long_range))
        ≡ true
      → view (run env c (extended_commands env h interval_ms long_range mac) s)
        ≡ extended (the_set h interval_ms long_range mac none false ∷ [])
  unfolding generate_random_mac_address advertising_set_random_address_buf
      extended_advertising_parameters_buf
  ends_extended h interval_ms false s fits legal =
      set_up h (drop 1 (extended_advertising_parameters_buf h interval_ms false)) s fits legal
  ends_extended h interval_ms true s fits legal =
      set_up h (drop 1 (extended_advertising_parameters_buf h interval_ms true)) s fits legal

  -- The legacy switch while there is a set.
  refused :
      (b : Bool) (x : AdvSet) (s : State)
      → view s ≡ extended (x ∷ [])
      → view (run env c (if b then le env env.ocf_le_set_advertise_enable (1 ∷ []) ∷ [] else []) s)
        ≡ extended (x ∷ [])
  refused true x s e = c.legacy_enable_refused s (x ∷ []) (1 ∷ []) e
  refused false x s e = e

  enabled :
      (h interval_ms : ℕ) (long_range : Bool) (s : State)
      → view s ≡ extended (the_set h interval_ms long_range mac none false ∷ [])
      → view (apply (le env 0x39 (1 ∷ 1 ∷ h ∷ 0 ∷ 0 ∷ 0 ∷ 0 ∷ 0 ∷ [])) s)
        ≡ extended (the_set h interval_ms long_range mac none c.takes_surplus ∷ [])
  enabled h interval_ms long_range s e =
      c.surplus_enable s (the_set h interval_ms long_range mac none false) mac e refl refl

  -- The last part of `init_commands`, which is the same for every state before it.
  init_kinds :
      (btl bt4 bt5 : Bool) (config : Config) (s : State)
      → apart (kinds btl bt4 bt5 config) ≡ true
      → some_kind (kinds btl bt4 bt5 config) ≡ true
      → config.handle_bt4 ≤ 0xEF
      → config.handle_bt5 ≤ 0xEF
      → view (run env c (init_commands env (kinds btl bt4 bt5 config) mac) s)
        ≡ advertised c.takes_surplus (kinds btl bt4 bt5 config) mac none
  unfolding extended_advertising_enable_buf extended_advertising_parameters_buf
  init_kinds btl true true config s p q fits4 fits5 = absurd (true≢false (sym p))
  init_kinds false false false config s p q fits4 fits5 = absurd (true≢false (sym q))
  init_kinds true false false config s p q fits4 fits5 =
      c.legacy_enable _ (the_legacy mac none false) (advertising_parameters_buf 100) mac
        (ends_legacy _) refl refl
  init_kinds false true false config s p q fits4 fits5 =
      enabled config.handle_bt4 300 false _ (ends_extended config.handle_bt4 300 false _ fits4 refl)
  init_kinds false false true config s p q fits4 fits5 =
      enabled config.handle_bt5 950 true _ (ends_extended config.handle_bt5 950 true _ fits5 refl)
  init_kinds true true false config s p q fits4 fits5 = enabled config.handle_bt4 300 false _ (
      refused true (the_set config.handle_bt4 300 false mac none false) _
        (ends_extended config.handle_bt4 300 false _ fits4 refl))
  init_kinds true false true config s p q fits4 fits5 = enabled config.handle_bt5 950 true _ (
      refused true (the_set config.handle_bt5 950 true mac none false) _
        (ends_extended config.handle_bt5 950 true _ fits5 refl))

  pub init_commands_lem :
      (config : Config) (s : State)
      → apart config ≡ true
      → some_kind config ≡ true
      → config.handle_bt4 ≤ 0xEF
      → config.handle_bt5 ≤ 0xEF
      → view (run env c (init_commands env config mac) s)
        ≡ advertised c.takes_surplus config mac none
  init_commands_lem config s p q fits4 fits5 =
      init_kinds config.use_btl config.use_bt4 config.use_bt5 config s p q fits4 fits5
