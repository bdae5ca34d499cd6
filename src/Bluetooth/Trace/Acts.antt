-- ===== src/Bluetooth/Trace/Acts.antt =====
-- An action sends a list of HCI commands: all of them if it returns, and otherwise a first part.
use mathlib.Core.List.{append-nil, append_assoc, map-append}
use transmitter_linux.Common.{
  ℕ, ◌≡◌, refl, sym, ◌∙◌, ap, Bool, true, false, List, [], ◌∷◌, ◌++◌, map, if◌then◌else◌,
}
use transmitter_linux.Machine.{
  World, Effect, Outcome, done, exited, blocked, fault, M, ◌>>◌, skip, when, Note, hci_command,
  hci_closed, ctrl_request, printed, slept_us, shell, gps_streamed, gps_closed, say,
}

-- A command: its opcode group, its opcode, and its parameter bytes.
pub record HciCommand : Type 0 where
  pub ogf : ℕ
  pub ocf : ℕ
  pub parameters : List ℕ

abbrev pub hci : ℕ → ℕ → List ℕ → HciCommand
hci g c p = record { ogf = g; ocf = c; parameters = p }

abbrev pub sent_by : ℕ → HciCommand → Effect
sent_by dd c = hci_command dd c.ogf c.ocf c.parameters

-- What is left of the effects when all but the commands are dropped.
abbrev pub commands : List Effect → List Effect
commands [] = []
commands (hci_command dd g c p ∷ es) = hci_command dd g c p ∷ commands es
commands (hci_closed dd ∷ es) = commands es
commands (ctrl_request cmd ∷ es) = commands es
commands (printed n ∷ es) = commands es
commands (slept_us n ∷ es) = commands es
commands (shell cmd ∷ es) = commands es
commands (gps_streamed flags device ∷ es) = commands es
commands (gps_closed ∷ es) = commands es

pub commands-append : (es fs : List Effect) → commands (es ++ fs) ≡ commands es ++ commands fs
commands-append [] fs = refl
commands-append (hci_command dd g c p ∷ es) fs =
    ap (λ l. hci_command dd g c p ∷ l) (commands-append es fs)
commands-append (hci_closed dd ∷ es) fs = commands-append es fs
commands-append (ctrl_request cmd ∷ es) fs = commands-append es fs
commands-append (printed n ∷ es) fs = commands-append es fs
commands-append (slept_us n ∷ es) fs = commands-append es fs
commands-append (shell cmd ∷ es) fs = commands-append es fs
commands-append (gps_streamed flags device ∷ es) fs = commands-append es fs
commands-append (gps_closed ∷ es) fs = commands-append es fs

-- Between the two worlds exactly the commands `cs` were sent, and the device is the same.
pub record Sent (w : World) (cs : List HciCommand) (w' : World) : Type 0 where
  pub log : commands w'.out ≡ commands w.out ++ map (sent_by w.device_descriptor) cs
  pub device : w'.device_descriptor ≡ w.device_descriptor

-- Some first part of `cs` was sent.
pub record SentPart (w : World) (cs : List HciCommand) (w' : World) : Type 0 where
  pub part : List HciCommand
  pub rest : List HciCommand
  pub split : cs ≡ part ++ rest
  pub sent : Sent w part w'

abbrev pub Ends : World → List HciCommand → Outcome (Unit {0}) → Type 0
Ends w cs (done _ w') = Sent w cs w'
Ends w cs (exited code w') = SentPart w cs w'
Ends w cs (blocked w') = SentPart w cs w'
Ends w cs (fault w') = SentPart w cs w'

-- The action sends `cs`: all of it, in order and nothing else, if it returns, and else a first
-- part of it.
pub record Sends (m : M (Unit {0})) (cs : List HciCommand) : Type 0 where
  pub ends : (w : World) → Ends w cs (m w)

pub Sent-refl : (w : World) → Sent w [] w
Sent-refl w = record { log = sym (append-nil (commands w.out)); device = refl }

-- A world that differs in neither what was done nor the device.
pub Sent-same :
    (w w' : World) → w'.out ≡ w.out → w'.device_descriptor ≡ w.device_descriptor → Sent w [] w'
Sent-same w w' e d = record { log = ap commands e ∙ sym (append-nil (commands w.out)); device = d }

Sent-trans :
    {w w' w'' : World} {cs ds : List HciCommand}
    → Sent w cs w'
    → Sent w' ds w''
    → Sent w (cs ++ ds) w''
Sent-trans {w} {w'} {w''} {cs} {ds} p q = record {
  log =
      q.log
      ∙ ap (λ d. commands w'.out ++ map (sent_by d) ds) p.device
      ∙ ap (λ l. l ++ map (sent_by w.device_descriptor) ds) p.log
      ∙ append_assoc (commands w.out) (map (sent_by w.device_descriptor) cs)
          (map (sent_by w.device_descriptor) ds)
      ∙ ap (λ l. commands w.out ++ l) (sym (map-append (sent_by w.device_descriptor) cs ds));
  device = q.device ∙ p.device;
}

pub SentPart-none : (w : World) (cs : List HciCommand) → SentPart w cs w
SentPart-none w cs = record { part = []; rest = cs; split = refl; sent = Sent-refl w }

SentPart-append :
    {w w' : World} {cs : List HciCommand} (ds : List HciCommand)
    → SentPart w cs w'
    → SentPart w (cs ++ ds) w'
SentPart-append ds p = record {
  part = p.part;
  rest = p.rest ++ ds;
  split = ap (λ l. l ++ ds) p.split ∙ append_assoc p.part p.rest ds;
  sent = p.sent;
}

SentPart-trans :
    {w w' w'' : World} {cs ds : List HciCommand}
    → Sent w cs w'
    → SentPart w' ds w''
    → SentPart w (cs ++ ds) w''
SentPart-trans {cs = cs} p q = record {
  part = cs ++ q.part;
  rest = q.rest;
  split = ap (λ l. cs ++ l) q.split ∙ sym (append_assoc cs q.part q.rest);
  sent = Sent-trans p q.sent;
}

pub Ends-after :
    {w w' : World} (cs ds : List HciCommand)
    → Sent w cs w'
    → (o : Outcome (Unit {0})) → Ends w' ds o
    → Ends w (cs ++ ds) o
Ends-after cs ds e (done _ w'') h = Sent-trans e h
Ends-after cs ds e (exited code w'') h = SentPart-trans e h
Ends-after cs ds e (blocked w'') h = SentPart-trans e h
Ends-after cs ds e (fault w'') h = SentPart-trans e h

Ends-continue :
    (w : World) (cs ds : List HciCommand) (o : Outcome (Unit {0})) (k : M (Unit {0}))
    → Ends w cs o
    → Sends k ds
    → Ends w (cs ++ ds) (elim o [
      | done a w' ↦ k w'
      | exited code w' ↦ exited code w'
      | blocked w' ↦ blocked w'
      | fault w' ↦ fault w'
    ])
Ends-continue w cs ds (done a w') k e s = Ends-after cs ds e (k w') (s.ends w')
Ends-continue w cs ds (exited code w') k e s = SentPart-append ds e
Ends-continue w cs ds (blocked w') k e s = SentPart-append ds e
Ends-continue w cs ds (fault w') k e s = SentPart-append ds e

-- One action after another.
pub Sends->> :
    {m k : M (Unit {0})} {cs ds : List HciCommand}
    → Sends m cs
    → Sends k ds
    → Sends (m >> k) (cs ++ ds)
Sends->> {m} {k} {cs} {ds} p q = record { ends = λ w. Ends-continue w cs ds (m w) k (p.ends w) q }

pub Sends-skip : Sends skip []
Sends-skip = record { ends = Sent-refl }

pub Sends-undefined : Sends fault []
Sends-undefined = record { ends = λ w. SentPart-none w [] }

pub Sends-say : (n : Note) → Sends (say n) []
Sends-say n = record {
  ends = λ w. record { log = commands-append w.out (printed n ∷ []); device = refl };
}

-- `if (b) m;`
pub Sends-when :
    (b : Bool) {m : M (Unit {0})} {cs : List HciCommand}
    → Sends m cs
    → Sends (when b m) (if b then cs else [])
Sends-when true p = p
Sends-when false p = Sends-skip

-- The same for an action that sends nothing.
pub Sends-when_nil : (b : Bool) {m : M (Unit {0})} → Sends m [] → Sends (when b m) []
Sends-when_nil true p = p
Sends-when_nil false p = Sends-skip

-- A command that is sent, and then an action that sends nothing.
pub Ends-command :
    (w : World) (c : HciCommand) (o : Outcome (Unit {0}))
    → Ends (record w { out = w.out ++ (sent_by w.device_descriptor c ∷ []) }) [] o
    → Ends w (c ∷ []) o
Ends-command w c o h = Ends-after (c ∷ []) [] sent o h
  where
    sent : Sent w (c ∷ []) (record w { out = w.out ++ (sent_by w.device_descriptor c ∷ []) })
    sent = record {
      log = commands-append w.out (sent_by w.device_descriptor c ∷ []);
      device = refl;
    }
