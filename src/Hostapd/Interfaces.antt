-- ===== src/Hostapd/Interfaces.antt =====
-- The entries of the control interface's directory. A directory is the list of its entries' names in
-- the order that `readdir` gives, or `none` where `opendir` fails.
use transmitter_linux.Common.{
  ℕ, ◌≡◌, refl, Bool, true, false, ◌||◌, ◌==◌, Bool-cases, inl, inr, Option, none, some, List, [],
  ◌∷◌, ◌++◌, if◌then◌else◌, codes, map,
}
use transmitter_linux.Hostapd.Commands.{same_text}

-- "." and ".."
abbrev pub dot_entry : List ℕ → Bool
dot_entry name = same_text name (codes ".") || same_text name (codes "..")

unfoldable pub named_entries : List (List ℕ) → List (List ℕ)
named_entries [] = []
named_entries (name ∷ rest) =
    let later = named_entries rest in if dot_entry name then later else name ∷ later

-- What `hostapd_cli_get_interfaces` adds to a list, with whether there is a connection.
unfoldable pub hostapd_cli_get_interfaces : Bool → Option (List (List ℕ)) → List (List ℕ)
unfolding named_entries
hostapd_cli_get_interfaces false dir = []
hostapd_cli_get_interfaces true none = []
hostapd_cli_get_interfaces true (some entries) = named_entries entries

-- The lines that `hostapd_cli_list_interfaces` prints.
unfoldable pub hostapd_cli_list_interfaces : List ℕ → Option (List (List ℕ)) → List (List ℕ)
unfolding named_entries
hostapd_cli_list_interfaces ctrl_iface_dir none =
    (codes "Control interface directory '" ++ (ctrl_iface_dir ++ codes "' could not be openned.\n"))
    ∷ []
hostapd_cli_list_interfaces ctrl_iface_dir (some entries) =
    codes "Available interfaces:\n" ∷ map (λ name. name ++ codes "\n") (named_entries entries)

-- The completion of `interface`, for the argument that is completed.
unfoldable pub hostapd_complete_interface :
    Bool → Option (List (List ℕ)) → ℕ → Option (List (List ℕ))
unfolding hostapd_cli_get_interfaces
hostapd_complete_interface connected dir arg =
    if arg == 1 then some (hostapd_cli_get_interfaces connected dir) else none

-- The choice of `ap_interface_init` while `ctrl_ifname` is null: the first entry that is no dot.
unfoldable pub select_interface : List (List ℕ) → Option (List ℕ)
select_interface [] = none
select_interface (name ∷ rest) =
    let later = select_interface rest in if dot_entry name then later else some name

abbrev first_of : List (List ℕ) → Option (List ℕ)
first_of [] = none
first_of (name ∷ rest) = some name

-- The interface that the thread selects is the first that `interface` would list.
select_interface_lem :
    (entries : List (List ℕ)) → select_interface entries ≡ first_of (named_entries entries)
unfolding select_interface named_entries
select_interface_lem [] = refl
select_interface_lem (name ∷ rest) = elim (Bool-cases (dot_entry name)) [
  | inl e ↦ rw e (select_interface_lem rest)
  | inr e ↦ rw e refl
]
