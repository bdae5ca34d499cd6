-- ===== src/Bluetooth/Trace/Typed.antt =====
-- Every command that bluetooth.c sends fits the types of `hci_send_cmd`.
use transmitter_linux.Common.{
  ℕ, ◌<◌, sym, Bool, true, false, List, [], ◌∷◌, ◌++◌, map, length, if◌then◌else◌, arith,
}
use mathlib.Core.Path.{subst}
use transmitter_linux.Machine.{
  World, Effect, Outcome, done, exited, blocked, fault, hci_command, hci_closed, ctrl_request,
  printed, slept_us, shell, gps_streamed, gps_closed,
}
use transmitter_linux.Bluetooth.Fitting.{IsBytes, Buffer}
use transmitter_linux.Bluetooth.Trace.Acts.{
  HciCommand, hci, sent_by, commands, Ends, Sent, SentPart,
}

-- `void *param` points to `uint8_t plen` bytes.
pub record Fits (c : HciCommand) : Type 0 where
  pub bytes : IsBytes c.parameters
  pub few : length c.parameters < 256

pub data AllFit : List HciCommand → Type 0 where
  no_command : AllFit []
  fitting : {cs : List HciCommand} (c : HciCommand) → Fits c → AllFit cs → AllFit (c ∷ cs)

-- A command without parameters or with a few that are given.
pub one : (c : HciCommand) → Fits c → AllFit (c ∷ [])
one c h = fitting c h no_command

pub AllFit-append : {cs ds : List HciCommand} → AllFit cs → AllFit ds → AllFit (cs ++ ds)
AllFit-append no_command k = k
AllFit-append (fitting c h hs) k = fitting c h (AllFit-append hs k)

AllFit-first : (cs ds : List HciCommand) → AllFit (cs ++ ds) → AllFit cs
AllFit-first [] ds h = no_command
AllFit-first (c ∷ cs) ds (fitting _ h hs) = fitting c h (AllFit-first cs ds hs)

pub AllFit-if : (b : Bool) {cs : List HciCommand} → AllFit cs → AllFit (if b then cs else [])
AllFit-if true h = h
AllFit-if false h = no_command

pub Fits-Buffer :
    {n : ℕ} (ogf ocf : ℕ) (buf : List ℕ) → Buffer n buf → n < 256 → Fits (hci ogf ocf buf)
Fits-Buffer ogf ocf buf b h = record { bytes = b.bytes; few = omega (arith, b.size) }

-- The commands among the effects fit.
abbrev pub Fitted : List Effect → Type 0
Fitted [] = Unit
Fitted (hci_command dd g c p ∷ es) = Fits (hci g c p) × Fitted es
Fitted (hci_closed dd ∷ es) = Fitted es
Fitted (ctrl_request cmd ∷ es) = Fitted es
Fitted (printed n ∷ es) = Fitted es
Fitted (slept_us n ∷ es) = Fitted es
Fitted (shell cmd ∷ es) = Fitted es
Fitted (gps_streamed flags device ∷ es) = Fitted es
Fitted (gps_closed ∷ es) = Fitted es

abbrev pub FittedWorld : {A : Type 0} → Outcome A → Type 0
FittedWorld (done a w) = Fitted w.out
FittedWorld (exited code w) = Fitted w.out
FittedWorld (blocked w) = Fitted w.out
FittedWorld (fault w) = Fitted w.out

Fitted-commands : (es : List Effect) → Fitted es → Fitted (commands es)
Fitted-commands [] h = h
Fitted-commands (hci_command dd g c p ∷ es) h = (h.0, Fitted-commands es h.1)
Fitted-commands (hci_closed dd ∷ es) h = Fitted-commands es h
Fitted-commands (ctrl_request cmd ∷ es) h = Fitted-commands es h
Fitted-commands (printed n ∷ es) h = Fitted-commands es h
Fitted-commands (slept_us n ∷ es) h = Fitted-commands es h
Fitted-commands (shell cmd ∷ es) h = Fitted-commands es h
Fitted-commands (gps_streamed flags device ∷ es) h = Fitted-commands es h
Fitted-commands (gps_closed ∷ es) h = Fitted-commands es h

commands-Fitted : (es : List Effect) → Fitted (commands es) → Fitted es
commands-Fitted [] h = h
commands-Fitted (hci_command dd g c p ∷ es) h = (h.0, commands-Fitted es h.1)
commands-Fitted (hci_closed dd ∷ es) h = commands-Fitted es h
commands-Fitted (ctrl_request cmd ∷ es) h = commands-Fitted es h
commands-Fitted (printed n ∷ es) h = commands-Fitted es h
commands-Fitted (slept_us n ∷ es) h = commands-Fitted es h
commands-Fitted (shell cmd ∷ es) h = commands-Fitted es h
commands-Fitted (gps_streamed flags device ∷ es) h = commands-Fitted es h
commands-Fitted (gps_closed ∷ es) h = commands-Fitted es h

Fitted-sent :
    (es : List Effect) (dd : ℕ) (cs : List HciCommand)
    → Fitted (commands es)
    → AllFit cs
    → Fitted (commands es ++ map (sent_by dd) cs)
Fitted-sent [] dd [] h k = tt
Fitted-sent [] dd (c ∷ cs) h (fitting _ fits rest) = (fits, Fitted-sent [] dd cs tt rest)
Fitted-sent (hci_command d g c p ∷ es) dd cs h k = (h.0, Fitted-sent es dd cs h.1 k)
Fitted-sent (hci_closed d ∷ es) dd cs h k = Fitted-sent es dd cs h k
Fitted-sent (ctrl_request cmd ∷ es) dd cs h k = Fitted-sent es dd cs h k
Fitted-sent (printed n ∷ es) dd cs h k = Fitted-sent es dd cs h k
Fitted-sent (slept_us n ∷ es) dd cs h k = Fitted-sent es dd cs h k
Fitted-sent (shell cmd ∷ es) dd cs h k = Fitted-sent es dd cs h k
Fitted-sent (gps_streamed flags device ∷ es) dd cs h k = Fitted-sent es dd cs h k
Fitted-sent (gps_closed ∷ es) dd cs h k = Fitted-sent es dd cs h k

Sent-Fitted :
    (w w' : World) (cs : List HciCommand) → Sent w cs w' → AllFit cs → Fitted w.out → Fitted w'.out
Sent-Fitted w w' cs s k h = commands-Fitted w'.out (
    subst Fitted (sym s.log) (Fitted-sent w.out w.device_descriptor cs (Fitted-commands w.out h) k))

SentPart-Fitted :
    (w w' : World) (cs : List HciCommand)
    → SentPart w cs w'
    → AllFit cs
    → Fitted w.out
    → Fitted w'.out
SentPart-Fitted w w' cs s k h =
    Sent-Fitted w w' s.part s.sent (AllFit-first s.part s.rest (subst AllFit s.split k)) h

pub Ends-Fitted :
    (w : World) (cs : List HciCommand) (o : Outcome (Unit {0}))
    → Ends w cs o
    → AllFit cs
    → Fitted w.out
    → FittedWorld o
Ends-Fitted w cs (done a w') s k h = Sent-Fitted w w' cs s k h
Ends-Fitted w cs (exited code w') s k h = SentPart-Fitted w w' cs s k h
Ends-Fitted w cs (blocked w') s k h = SentPart-Fitted w w' cs s k h
Ends-Fitted w cs (fault w') s k h = SentPart-Fitted w w' cs s k h
