-- ===== src/Hostapd/Noticing.antt =====
-- What the events of hostapd do to the list of stations.
use mathlib.Core.List.{append_assoc}
use transmitter_linux.Common.{
  ℕ, ◌≡◌, refl, sym, ap, ◌∙◌, true, false, ◌==◌, some, List, [], ◌∷◌, ◌++◌, codes, arith,
}
use transmitter_linux.Hostapd.Help.{starts}
use transmitter_linux.Hostapd.Events.{from_char, add_station, del_station, EventNames, cli_event}

-- The character is not in the text.
abbrev pub Absent : ℕ → List ℕ → Type 0
Absent c [] = Unit
Absent c (t ∷ text) = ((t == c) ≡ false) × Absent c text

pub from_char-append :
    (c : ℕ) (text rest : List ℕ)
    → Absent c text
    → from_char c (text ++ (c ∷ rest)) ≡ some (c ∷ rest)
unfolding from_char
from_char-append c [] rest h = ground arith
from_char-append c (t ∷ text) rest h = rw h.0 (from_char-append c text rest h.1)

starts-append : (start rest : List ℕ) → starts (start ++ rest) start ≡ true
unfolding starts
starts-append [] rest = refl
starts-append (c ∷ start) rest =
    let same : (c == c) ≡ true = ground arith in rw same (starts-append start rest)

-- The names are a word with a blank behind it, and the text of a disconnection does not begin with
-- the name of a connection.
pub record Names (names : EventNames) (connected disconnected : List ℕ) : Type 0 where
  pub connected_word : Absent 32 connected
  pub disconnected_word : Absent 32 disconnected
  pub connected_blank : names.ap_sta_connected ≡ connected ++ codes " "
  pub disconnected_blank : names.ap_sta_disconnected ≡ disconnected ++ codes " "
  pub apart : (rest : List ℕ) → starts (disconnected ++ (32 ∷ rest)) names.ap_sta_connected ≡ false

-- An event as hostapd sends it: the level in brackets, the word, a blank and the rest.
abbrev pub event_text : List ℕ → List ℕ → List ℕ → List ℕ
event_text level word rest = 60 ∷ (level ++ (62 ∷ (word ++ (32 ∷ rest))))

begins :
    (word name rest : List ℕ) → name ≡ word ++ codes " " → starts (word ++ (32 ∷ rest)) name ≡ true
begins word name rest e =
    ap (starts (word ++ (32 ∷ rest))) e
    ∙ ap (λ t. starts t (word ++ codes " ")) (sym (append_assoc word (codes " ") rest))
    ∙ starts-append (word ++ codes " ") rest

-- For events of any level and any station: that a station has connected adds just the text behind
-- the event's name to the list, and that it has disconnected removes this text, where the names
-- of hostapd's headers are words with a blank behind them and neither is taken for the other.
pub cli_event_lem :
    (names : EventNames) (connected disconnected level station : List ℕ)
    → Names names connected disconnected
    → Absent 62 level
    → (cli_event names (event_text level connected station) ≡ add_station station)
      × (cli_event names (event_text level disconnected station) ≡ del_station station)
unfolding cli_event
cli_event_lem names connected disconnected level station h plain = (
  rw
      (
        cli_event,
        from_char-append 62 (60 ∷ level) (connected ++ (32 ∷ station)) (refl, plain),
        begins connected names.ap_sta_connected station h.connected_blank,
        from_char-append 32 connected station h.connected_word,
      )
      refl,
  rw
      (
        cli_event,
        from_char-append 62 (60 ∷ level) (disconnected ++ (32 ∷ station)) (refl, plain),
        h.apart station,
        begins disconnected names.ap_sta_disconnected station h.disconnected_blank,
        from_char-append 32 disconnected station h.disconnected_word,
      )
      refl,
)
