-- ===== src/Tests/Controller.antt =====
-- A controller that keeps to the interface, and the advertising theorems applied to it.
use transmitter_linux.Common.{
  ℕ, ◌≡◌, refl, ap, ◌∙◌, arith, true, ◌==◌, none, some, List, [], ◌∷◌, map, if◌then◌else◌, length,
}
use transmitter_linux.Machine.{World, done}
use transmitter_linux.Bluetooth.{generate_random_mac_address}
use transmitter_linux.Bluetooth.Api.{init_bluetooth, close_bluetooth}
use transmitter_linux.Bluetooth.Trace.Acts.{HciCommand}
use transmitter_linux.Bluetooth.Controller.{
  Legacy, AdvSet, View, unused, legacy, extended, at_handle, without, addressed, loaded,
  switched_off, new_set, with_parameters, Controller, obey,
}
use transmitter_linux.Bluetooth.Controller.Views.{advertised, at_handle-same}
use transmitter_linux.Bluetooth.Controller.Payload.{service_data, Silent}
use transmitter_linux.Bluetooth.Controller.Advertising.{
  send_both, init_bluetooth-OnAir, send_both-advertised, close_bluetooth-Silent,
}
use transmitter_linux.Transmit.Main.{transmit_without_gps}
use transmitter_linux.Transmit.Props.Silence.{Quiet, transmit_without_gps-Silent}
use transmitter_linux.Tests.Setup.{
  test_other, test_odid, test_data, test_odid-KeepsSize, btl_config, btl_world, test_env, answer,
  answered, test_world, init_world, pack_config, test_message,
}

abbrev configure : List ℕ → View → View
configure p unused = legacy (with_parameters p)
configure p (legacy l) = legacy l
configure p (extended sets) = extended sets

abbrev give_address : List ℕ → View → View
give_address a unused = unused
give_address a (legacy l) = legacy (record l { address = some a })
give_address a (extended sets) = extended sets

abbrev switch_legacy : List ℕ → Legacy → Legacy
switch_legacy (b ∷ []) l = record l { on = b == 1 }
switch_legacy p l = l

abbrev switch : List ℕ → View → View
switch p unused = unused
switch p (legacy l) = legacy (switch_legacy p l)
switch p (extended sets) = extended sets

abbrev load_legacy : List ℕ → Legacy → Legacy
load_legacy (n ∷ d) l = record l { payload = some d }
load_legacy p l = l

abbrev give_data : List ℕ → View → View
give_data p unused = unused
give_data p (legacy l) = legacy (load_legacy p l)
give_data p (extended sets) = extended sets

abbrev configure_set : List ℕ → View → View
configure_set (h ∷ p) unused = extended (new_set h p ∷ [])
configure_set p v = v

abbrev give_set_address : List ℕ → View → View
give_set_address (h ∷ a) (extended sets) = extended (at_handle h (addressed a) sets)
give_set_address p v = v

abbrev give_set_data : List ℕ → View → View
give_set_data (h ∷ o ∷ f ∷ n ∷ d) (extended sets) = extended (at_handle h (loaded d) sets)
give_set_data p v = v

abbrev switched_on : AdvSet → AdvSet
switched_on x = record x { on = true }

abbrev switch_sets : List ℕ → List AdvSet → List AdvSet
switch_sets (b ∷ n ∷ []) sets = map switched_off sets
switch_sets (b ∷ n ∷ h ∷ p) sets = at_handle h switched_on sets
switch_sets p sets = sets

abbrev enable_sets : List ℕ → View → View
enable_sets p unused = unused
enable_sets p (legacy l) = legacy l
enable_sets p (extended sets) = extended (switch_sets p sets)

abbrev remove_named : List ℕ → List AdvSet → List AdvSet
remove_named (h ∷ []) sets = without h sets
remove_named p sets = sets

abbrev remove_sets : List ℕ → View → View
remove_sets p unused = unused
remove_sets p (legacy l) = legacy l
remove_sets p (extended sets) = extended (remove_named p sets)

abbrev obeyed : HciCommand → View → View
obeyed k v =
    if k.ogf == 3
    then unused
    else if k.ocf == 6
    then configure k.parameters v
    else if k.ocf == 5
    then give_address k.parameters v
    else if k.ocf == 10
    then switch k.parameters v
    else if k.ocf == 8
    then give_data k.parameters v
    else if k.ocf == 0x36
    then configure_set k.parameters v
    else if k.ocf == 0x35
    then give_set_address k.parameters v
    else if k.ocf == 0x37
    then give_set_data k.parameters v
    else if k.ocf == 0x39
    then enable_sets k.parameters v
    else if k.ocf == 0x3C
    then remove_sets k.parameters v
    else v

abbrev test_controller : Controller test_env
test_controller = record {
  State = View;
  apply = obeyed;
  view = λ v. v;
  takes_surplus = true;
  reset_clears = λ s. refl;
  legacy_parameters = λ s p e legal. ap (configure p) e;
  legacy_address = λ s l a e off six. ap (give_address a) e;
  legacy_enable = λ s l p a e h k. ap (switch (1 ∷ [])) e;
  legacy_disable = λ s l e. ap (switch (0 ∷ [])) e;
  legacy_data = λ s l d e size. ap (give_data (length d ∷ d)) e;
  legacy_enable_refused = λ s sets p e. ap (switch p) e;
  legacy_data_refused = λ s sets p e. ap (give_data p) e;
  set_parameters = λ s h p e fits legal. ap (configure_set (h ∷ p)) e;
  set_address = λ s sets h a e off six. ap (give_set_address (h ∷ a)) e;
  set_data = λ s sets h d e size. ap (give_set_data (h ∷ 3 ∷ 1 ∷ length d ∷ d)) e;
  surplus_enable = λ s x a e h off.
      ap (enable_sets (1 ∷ 1 ∷ x.handle ∷ 0 ∷ 0 ∷ 0 ∷ 0 ∷ 0 ∷ [])) e
      ∙ ap extended (at_handle-same x switched_on);
  disable_all = λ s sets e. ap (enable_sets (0 ∷ 0 ∷ [])) e;
  remove_set = λ s sets h e off. ap (remove_sets (h ∷ [])) e;
  enable_refused = λ s l p e. ap (enable_sets p) e;
  remove_refused = λ s l p e. ap (remove_sets p) e;
}

-- A controller that legacy advertising was left on in.
abbrev left_on : View
left_on = legacy (record (with_parameters []) { on = true })

init_bluetooth-OnAir_example :
    (w' : World) × (init_bluetooth test_env pack_config init_world ≡ done tt w')
    × (obey test_env test_controller w'.out left_on
        ≡ advertised true pack_config (generate_random_mac_address test_env) none)
init_bluetooth-OnAir_example =
    init_bluetooth-OnAir test_env test_controller (λ out e. refl) pack_config 3 init_world []
      left_on refl refl
      (answered 3 12 9 _ _ (
        answered 10 32 8 _ _ (
          answered 57 32 7 _ _ (
            answered 60 32 6 _ _ (
              answered 60 32 5 _ _ (
                answered 3 32 4 _ _ (
                  answered 3 12 3 _ _
                    (answered 54 32 2 _ _ (answered 53 32 1 _ _ (answered 57 32 0 _ _ refl))))))))))
      refl refl (omega arith) (omega arith)

-- The set of Bluetooth 5 on the air, in a world that has not done anything else.
abbrev bt5_view : View
bt5_view = advertised true pack_config (generate_random_mac_address test_env) none

send_both-advertised_example :
    (w' : World) × (send_both test_env test_message 7 pack_config
        (record test_world { reads = answer 55 32 ∷ [] })
      ≡ done tt w')
    × (obey test_env test_controller w'.out bt5_view
        ≡ advertised true pack_config
            (generate_random_mac_address test_env)
            (some (service_data 7 test_message)))
send_both-advertised_example =
    send_both-advertised test_env test_controller (λ out e. refl) test_message 7 pack_config
      (record test_world { reads = answer 55 32 ∷ [] }) [] (generate_random_mac_address test_env)
      none bt5_view refl (answered 55 32 0 _ _ refl) refl refl refl

abbrev closing_world : World
closing_world = record test_world {
  reads = answer 10 32 ∷ answer 57 32 ∷ answer 60 32 ∷ answer 60 32 ∷ [];
}

close_bluetooth-Silent_example :
    (w' : World) × (close_bluetooth test_env pack_config closing_world ≡ done tt w')
    × Silent (obey test_env test_controller w'.out bt5_view)
close_bluetooth-Silent_example =
    close_bluetooth-Silent test_env test_controller (λ out e. refl) pack_config closing_world []
      (generate_random_mac_address test_env) none bt5_view
      (answered 10 32 3 _ _
        (answered 57 32 2 _ _ (answered 60 32 1 _ _ (answered 60 32 0 _ _ refl))))
      refl

-- Legacy advertising on the air.
abbrev legacy_view : View
legacy_view = advertised true btl_config (generate_random_mac_address test_env) none

transmit_without_gps-Silent_example :
    Quiet test_env test_controller
      (λ out e. refl)
      test_other
      btl_config
      refl
      refl
      refl
      (generate_random_mac_address test_env)
      legacy_view
      []
      (transmit_without_gps test_env test_other test_odid test_data btl_config btl_world)
transmit_without_gps-Silent_example =
    transmit_without_gps-Silent test_env test_controller (λ out e. refl) test_other btl_config refl
      refl refl (generate_random_mac_address test_env) legacy_view test_odid test_data btl_world []
      test_odid-KeepsSize refl refl
      (answered 8 32 12 _ _ (
        answered 8 32 11 _ _ (
          answered 8 32 10 _ _ (
            answered 8 32 9 _ _ (
              answered 8 32 8 _ _ (
                answered 8 32 7 _ _ (
                  answered 8 32 6 _ _ (
                    answered 8 32 5 _ _ (
                      answered 8 32 4 _ _ (
                        answered 10 32 3 _ _ (
                          answered 57 32 2 _ _
                            (answered 60 32 1 _ _ (answered 60 32 0 _ _ refl)))))))))))))
      (none, refl)
