-- ===== src/Bluetooth/Controller/Payload.antt =====
-- What a controller holds after a message was sent, and after advertising was stopped.
use mathlib.Core.Bool.{true≢false}
use mathlib.Core.Path.{subst}
use transmitter_linux.Common.{
  ℕ, ◌≡◌, refl, sym, ap, ◌∙◌, ◌⊎◌, inl, inr, Bool, true, false, ◌==◌, Option, some, List, [], ◌∷◌,
  ◌++◌, length, if◌then◌else◌, arith, Bool-cases,
}
use transmitter_linux.Machine.{Env}
use transmitter_linux.Utils.{Config}
use transmitter_linux.Bluetooth.Buffers.{
  message_size, advertising_data_buf, extended_advertising_data_buf,
}
use transmitter_linux.Bluetooth.Layout.{data_bufs_lem}
use transmitter_linux.Bluetooth.Trace.Acts.{HciCommand}
use transmitter_linux.Bluetooth.Trace.Init.{le, stop_commands, message_commands}
use transmitter_linux.Bluetooth.Controller.{
  Legacy, AdvSet, View, unused, legacy, extended, loaded, switched_off, without, AllOff, Controller,
  run,
}
use transmitter_linux.Bluetooth.Controller.Views.{
  the_set, the_legacy, advertised, apart, some_kind, kinds, at_handle-same,
}

-- The service data of a message: the length 30, the AD type 0x16, the UUID 0xFFFA, the code of
-- Open Drone ID, the counter, and the message.
abbrev pub service_data : ℕ → List ℕ → List ℕ
service_data counter encoded = (30 ∷ 0x16 ∷ 0xFA ∷ 0xFF ∷ 0x0D ∷ counter ∷ []) ++ encoded

-- Nothing is advertised, and no set is left.
abbrev pub Silent : View → Type 0
Silent unused = Unit
Silent (legacy l) = l.on ≡ false
Silent (extended sets) = sets ≡ []

AllOff-without : (h : ℕ) (sets : List AdvSet) → AllOff sets → AllOff (without h sets)
AllOff-without h [] off = tt
AllOff-without h (x ∷ sets) off = elim (Bool-cases (x.handle == h)) [
  | inl e ↦ rw e (AllOff-without h sets off.1)
  | inr e ↦ rw e (off.0, AllOff-without h sets off.1)
]

without-both :
    (g h : ℕ) (x : AdvSet) → (x.handle ≡ g) ⊎ (x.handle ≡ h) → without h (without g (x ∷ [])) ≡ []
without-both g h x e = elim (Bool-cases (x.handle == g)) [
  | inl p ↦ rw p refl
  | inr p ↦ let q : (x.handle == h) ≡ true = ground arith in rw (p, q) refl
]

module _ (env : Env) (c : Controller env) where
  open c use {State, apply, view}

  -- The commands of a message for the three kinds of advertising.
  abbrev pub data_commands : List ℕ → ℕ → Config → List HciCommand
  data_commands encoded counter config =
      (if config.use_btl
        then le env env.ocf_le_set_advertising_data (advertising_data_buf encoded counter) ∷ []
        else [])
      ++ message_commands env encoded counter config

  module _ (encoded : List ℕ) (counter : ℕ) (size : length encoded ≡ message_size) where
    length-service_data : length (service_data counter encoded) ≡ 31
    length-service_data = omega (arith, size)

    legacy_loaded :
        (l : Legacy) (s : State)
        → view s ≡ legacy l
        → view (
            apply (le env env.ocf_le_set_advertising_data (advertising_data_buf encoded counter)) s)
          ≡ legacy (record l { payload = some (service_data counter encoded) })
    legacy_loaded l s e =
        let d = service_data counter encoded in
        let bytes : advertising_data_buf encoded counter ≡ length d ∷ d =
          (data_bufs_lem 0 encoded counter size).0 ∙ ap (λ n. n ∷ d) (sym length-service_data) in
        ap (λ b. view (apply (le env env.ocf_le_set_advertising_data b) s)) bytes
        ∙ c.legacy_data s l d e length-service_data

    set_loaded :
        (x : AdvSet) (s : State)
        → view s ≡ extended (x ∷ [])
        → view (apply (le env 0x37 (extended_advertising_data_buf x.handle encoded counter)) s)
          ≡ extended (loaded (service_data counter encoded) x ∷ [])
    set_loaded x s e =
        let d = service_data counter encoded in
        let bytes : extended_advertising_data_buf x.handle encoded counter
            ≡ x.handle ∷ 3 ∷ 1 ∷ length d ∷ d =
          (data_bufs_lem x.handle encoded counter size).1
          ∙ ap (λ n. x.handle ∷ 3 ∷ 1 ∷ n ∷ d) (sym length-service_data) in
        ap (λ b. view (apply (le env 0x37 b) s)) bytes
        ∙ c.set_data s (x ∷ []) x.handle d e length-service_data
        ∙ ap extended (at_handle-same x (loaded d))

    -- The data that is not for the kind on the air is refused.
    unheard :
        (b : Bool) (x : AdvSet) (s : State)
        → view s ≡ extended (x ∷ [])
        → view (
            run env c
              (if b
                then le env env.ocf_le_set_advertising_data (advertising_data_buf encoded counter)
                  ∷ []
                else [])
              s)
          ≡ extended (x ∷ [])
    unheard true x s e = c.legacy_data_refused s (x ∷ []) (advertising_data_buf encoded counter) e
    unheard false x s e = e

    data_kinds :
        (btl bt4 bt5 : Bool) (config : Config) (mac : List ℕ) (payload : Option (List ℕ))
        (s : State)
        → apart (kinds btl bt4 bt5 config) ≡ true
        → some_kind (kinds btl bt4 bt5 config) ≡ true
        → view s ≡ advertised c.takes_surplus (kinds btl bt4 bt5 config) mac payload
        → view (run env c (data_commands encoded counter (kinds btl bt4 bt5 config)) s)
          ≡ advertised c.takes_surplus
              (kinds btl bt4 bt5 config)
              mac
              (some (service_data counter encoded))
    data_kinds btl true true config mac payload s p q e = absurd (true≢false (sym p))
    data_kinds false false false config mac payload s p q e = absurd (true≢false (sym q))
    data_kinds true false false config mac payload s p q e =
        legacy_loaded (the_legacy mac payload true) s e
    data_kinds false true false config mac payload s p q e =
        set_loaded (the_set config.handle_bt4 300 false mac payload c.takes_surplus) s e
    data_kinds false false true config mac payload s p q e =
        set_loaded (the_set config.handle_bt5 950 true mac payload c.takes_surplus) s e
    data_kinds true true false config mac payload s p q e =
        let x = the_set config.handle_bt4 300 false mac payload c.takes_surplus in
        set_loaded x _ (unheard true x s e)
    data_kinds true false true config mac payload s p q e =
        let x = the_set config.handle_bt5 950 true mac payload c.takes_surplus in
        set_loaded x _ (unheard true x s e)

    pub data_commands_lem :
        (config : Config) (mac : List ℕ) (payload : Option (List ℕ)) (s : State)
        → apart config ≡ true
        → some_kind config ≡ true
        → view s ≡ advertised c.takes_surplus config mac payload
        → view (run env c (data_commands encoded counter config) s)
          ≡ advertised c.takes_surplus config mac (some (service_data counter encoded))
    data_commands_lem config mac payload s p q e =
        data_kinds config.use_btl config.use_bt4 config.use_bt5 config mac payload s p q e

  stopped_set :
      (config : Config) (x : AdvSet) (s : State)
      → (x.handle ≡ config.handle_bt4) ⊎ (x.handle ≡ config.handle_bt5)
      → view s ≡ extended (x ∷ [])
      → Silent (view (run env c (stop_commands env config) s))
  stopped_set config x s handle e =
      let off = switched_off x ∷ [] in
      let refused = c.legacy_enable_refused s (x ∷ []) (0 ∷ []) e in
      let disabled = c.disable_all _ (x ∷ []) refused in
      let first = c.remove_set _ off config.handle_bt4 disabled (refl, tt) in
      let second =
        c.remove_set _ (without config.handle_bt4 off) config.handle_bt5 first
          (AllOff-without config.handle_bt4 off (refl, tt)) in
      subst Silent (sym second)
        (without-both config.handle_bt4 config.handle_bt5 (switched_off x) handle)

  stopped_legacy :
      (config : Config) (l : Legacy) (s : State)
      → view s ≡ legacy l
      → Silent (view (run env c (stop_commands env config) s))
  stopped_legacy config l s e =
      let off = record l { on = false } in
      let disabled = c.legacy_disable s l e in
      let refused = c.enable_refused _ off (0 ∷ 0 ∷ []) disabled in
      let first = c.remove_refused _ off (config.handle_bt4 ∷ []) refused in
      let second = c.remove_refused _ off (config.handle_bt5 ∷ []) first in
      subst Silent (sym second) refl

  stop_kinds :
      (btl bt4 bt5 : Bool) (config : Config) (mac : List ℕ) (payload : Option (List ℕ)) (s : State)
      → view s ≡ advertised c.takes_surplus (kinds btl bt4 bt5 config) mac payload
      → Silent (view (run env c (stop_commands env config) s))
  stop_kinds btl bt4 true config mac payload s e =
      stopped_set config (the_set config.handle_bt5 950 true mac payload c.takes_surplus) s
        (inr refl) e
  stop_kinds btl true false config mac payload s e =
      stopped_set config (the_set config.handle_bt4 300 false mac payload c.takes_surplus) s
        (inl refl) e
  stop_kinds btl false false config mac payload s e =
      stopped_legacy config (the_legacy mac payload true) s e

  pub stop_commands_lem :
      (config : Config) (mac : List ℕ) (payload : Option (List ℕ)) (s : State)
      → view s ≡ advertised c.takes_surplus config mac payload
      → Silent (view (run env c (stop_commands env config) s))
  stop_commands_lem config mac payload s e =
      stop_kinds config.use_btl config.use_bt4 config.use_bt5 config mac payload s e
