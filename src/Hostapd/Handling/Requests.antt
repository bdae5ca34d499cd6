-- ===== src/Hostapd/Handling/Requests.antt =====
-- The steps that handlers are made of: at most one short request, with one post for it.
use mathlib.Core.List.{append_assoc, append-nil}
use transmitter_linux.Common.{
  ℕ, suc, ◌+◌, ◌-◌, ◌<◌, ◌≤◌, ◌≡◌, refl, sym, ◌∙◌, Bool, true, false, Option, none, some, List, [],
  ◌∷◌, ◌++◌, ltb, if◌then◌else◌, length, length-take, arith, Bool-cases, inl, inr,
}
use transmitter_linux.Machine.{
  World, Effect, Outcome, done, exited, blocked, fault, M, ◌>>=◌, pure, say, Env, Note, Reply,
  replied, timed_out, request_failed, hci_command, hci_closed, ctrl_request, printed, slept_us,
  shell, gps_streamed, gps_closed, not_connected,
}
use transmitter_linux.Hostapd.Control.{wpa_ctrl_command, after_request, sem_post}
use transmitter_linux.Hostapd.Commands.{
  snprintf, snprintf_error, refuse, append_args, send_cut, send_checked, send_silent, send_appended,
  hostapd_cli_cmd,
}
use transmitter_linux.Hostapd.Appending.{append_args_lem, spaced, fitted}

-- How many of the effects are requests to hostapd.
abbrev pub requests : List Effect → ℕ
requests [] = 0
requests (ctrl_request cmd ∷ es) = suc (requests es)
requests (hci_command dd g c p ∷ es) = requests es
requests (hci_closed dd ∷ es) = requests es
requests (printed n ∷ es) = requests es
requests (slept_us n ∷ es) = requests es
requests (shell cmd ∷ es) = requests es
requests (gps_streamed flags device ∷ es) = requests es
requests (gps_closed ∷ es) = requests es

-- Every request is shorter than the largest buffer.
abbrev pub Short : List Effect → Type 0
Short [] = Unit
Short (ctrl_request cmd ∷ es) = (length cmd < 4096) × Short es
Short (hci_command dd g c p ∷ es) = Short es
Short (hci_closed dd ∷ es) = Short es
Short (printed n ∷ es) = Short es
Short (slept_us n ∷ es) = Short es
Short (shell cmd ∷ es) = Short es
Short (gps_streamed flags device ∷ es) = Short es
Short (gps_closed ∷ es) = Short es

-- Between the two worlds at most one request was made, a short one, with a post of the semaphore
-- for it, and the connection, the event loop and the other thread are as they were.
pub record Handled (w w' : World) : Type 0 where
  pub effects : List Effect
  pub log : w'.out ≡ w.out ++ effects
  pub posted : w'.semaphore ≡ w.semaphore + requests effects
  pub single : requests effects ≤ 1
  pub short : Short effects
  pub connected : w'.connected ≡ w.connected
  pub cli_quit : w'.cli_quit ≡ w.cli_quit
  pub schedule : w'.schedule ≡ w.schedule

-- The call returns, and has done so.
abbrev pub HandledBy : World → Outcome Bool → Type 0
HandledBy w (done b w') = Handled w w'
HandledBy w (exited code w') = ⊥
HandledBy w (blocked w') = ⊥
HandledBy w (fault w') = ⊥

pub record Handles (m : M Bool) : Type 0 where
  pub handles : (w : World) → HandledBy w (m w)

Handled-nothing : (w : World) → Handled w w
Handled-nothing w = record {
  effects = [];
  log = sym (append-nil w.out);
  posted = omega arith;
  single = omega arith;
  short = tt;
  connected = refl;
  cli_quit = refl;
  schedule = refl;
}

Handled-say :
    (n : Note) (w w' : World)
    → Handled (record w { out = w.out ++ (printed n ∷ []) }) w'
    → Handled w w'
Handled-say n w w' h = record {
  effects = printed n ∷ h.effects;
  log = h.log ∙ append_assoc w.out (printed n ∷ []) h.effects;
  posted = h.posted;
  single = h.single;
  short = h.short;
  connected = h.connected;
  cli_quit = h.cli_quit;
  schedule = h.schedule;
}

HandledBy-say :
    (n : Note) (w : World) (o : Outcome Bool)
    → HandledBy (record w { out = w.out ++ (printed n ∷ []) }) o
    → HandledBy w o
HandledBy-say n w (done b w') h = Handled-say n w w' h
HandledBy-say n w (exited code w') h = h
HandledBy-say n w (blocked w') h = h
HandledBy-say n w (fault w') h = h

pub Handles-pure : (b : Bool) → Handles (pure b)
Handles-pure b = record { handles = Handled-nothing }

pub Handles-say : (n : Note) {m : M Bool} → Handles m → Handles (say n >>= λ _. m)
Handles-say n {m} p = record {
  handles = λ w.
      HandledBy-say n w (m (record w { out = w.out ++ (printed n ∷ []) }))
        (p.handles (record w { out = w.out ++ (printed n ∷ []) }));
}

pub Handles-if : (b : Bool) {m k : M Bool} → Handles m → Handles k → Handles (if b then m else k)
Handles-if true p q = p
Handles-if false p q = q

pub Handles-refuse : Handles refuse
unfolding refuse
Handles-refuse = Handles-say _ (Handles-pure false)

-- Where the test is known not to hold.
pub Handles-fits :
    (b : Bool) {m k : M Bool} → Handles m → (b ≡ false → Handles k) → Handles (if b then m else k)
Handles-fits true p q = p
Handles-fits false p q = q refl

requested : List ℕ → World → World
unfolding sem_post
requested cmd w = sem_post (record w { out = w.out ++ (ctrl_request cmd ∷ []) })

requested-Handled : (cmd : List ℕ) (w : World) → length cmd < 4096 → Handled w (requested cmd w)
unfolding requested
requested-Handled cmd w h = record {
  effects = ctrl_request cmd ∷ [];
  log = refl;
  posted = omega arith;
  single = omega arith;
  short = (h, tt);
  connected = refl;
  cli_quit = refl;
  schedule = refl;
}

requested_say-Handled :
    (cmd : List ℕ) (n : Note) (w : World)
    → length cmd < 4096
    → Handled w
        (record (requested cmd w) { out = (w.out ++ (ctrl_request cmd ∷ [])) ++ (printed n ∷ []) })
unfolding requested
requested_say-Handled cmd n w h = record {
  effects = ctrl_request cmd ∷ printed n ∷ [];
  log = append_assoc w.out (ctrl_request cmd ∷ []) (printed n ∷ []);
  posted = omega arith;
  single = omega arith;
  short = (h, tt);
  connected = refl;
  cli_quit = refl;
  schedule = refl;
}

HandledBy-if :
    (b : Bool) (w : World) (o p : Outcome Bool)
    → HandledBy w o
    → HandledBy w p
    → HandledBy w (if b then o else p)
HandledBy-if true w o p h k = h
HandledBy-if false w o p h k = k

module _ (env : Env) where
  after_request-HandledBy :
      (cmd : List ℕ) (r : Reply) (w : World)
      → length cmd < 4096
      → HandledBy w (after_request env true r (requested cmd w))
  unfolding after_request requested
  after_request-HandledBy cmd (replied text) w h = requested_say-Handled cmd _ w h
  after_request-HandledBy cmd timed_out w h = requested_say-Handled cmd _ w h
  after_request-HandledBy cmd request_failed w h = requested_say-Handled cmd _ w h

  pub Handles-command : (cmd : List ℕ) → length cmd < 4096 → Handles (wpa_ctrl_command env true cmd)
  unfolding wpa_ctrl_command requested
  Handles-command cmd h = record {
    handles = λ w.
        HandledBy-if w.connected w
          (after_request env true (env.wpa_ctrl_request w.out cmd) (requested cmd w))
          ((say not_connected >>= λ _. pure false) w)
          (after_request-HandledBy cmd (env.wpa_ctrl_request w.out cmd) w h)
          ((Handles-say not_connected (Handles-pure false)).handles w);
  }

  pub length-snprintf :
      (size : ℕ) (text : List ℕ) → size ≤ 4096 → length (snprintf size text) < 4096
  length-snprintf size text h = omega (arith, length-take (size - 1) text)

  pub Handles-cut : (size : ℕ) (text : List ℕ) → size ≤ 4096 → Handles (send_cut env size text)
  unfolding send_cut
  Handles-cut size text h = Handles-command (snprintf size text) (length-snprintf size text h)

  pub Handles-checked :
      (size : ℕ) (text : List ℕ) → size ≤ 4096 → Handles (send_checked env size text)
  unfolding send_checked
  Handles-checked size text h =
      Handles-fits (snprintf_error size text) (Handles-say _ (Handles-pure false))
        λ fits. Handles-command text (ground (arith, fits))

  pub Handles-silent :
      (size : ℕ) (text : List ℕ) → size ≤ 4096 → Handles (send_silent env size text)
  unfolding send_silent
  Handles-silent size text h =
      Handles-fits (snprintf_error size text) (Handles-pure false)
        λ fits. Handles-command text (ground (arith, fits))

  fitted-Handles :
      (print : Bool) (size : ℕ) (text : List ℕ)
      → size ≤ 4096
      → Handles (send_appended env print (fitted size text))
  unfolding send_appended
  fitted-Handles print size text h = elim (Bool-cases (snprintf_error size text)) [
    | inl e ↦ rw e (Handles-if print (Handles-say _ (Handles-pure false)) (Handles-pure false))
    | inr e ↦ rw e (Handles-command text (ground (arith, e)))
  ]

  pub Handles-appended :
      (print : Bool) (size : ℕ) (text : List ℕ) (args : List (List ℕ))
      → size ≤ 4096
      → length text < size
      → Handles (send_appended env print (append_args size text args))
  Handles-appended print size text args h fits =
      rw (append_args_lem size text args fits) (fitted-Handles print size (text ++ spaced args) h)

  -- `write_cmd` writes no more than the buffer holds.
  abbrev pub WriteCmdFits : Type 0
  WriteCmdFits =
      (size : ℕ) (cmd : List ℕ) (args : List (List ℕ)) (text : List ℕ)
      → env.write_cmd size cmd args ≡ some text
      → length text < size

  written-Handles :
      (o : Option (List ℕ))
      → ((text : List ℕ) → o ≡ some text → length text < 4096)
      → Handles (elim o [ none ↦ pure false | some text ↦ wpa_ctrl_command env true text ])
  written-Handles none h = Handles-pure false
  written-Handles (some text) h = Handles-command text (h text refl)

  pub Handles-cmd :
      (cmd : List ℕ) (min_args : ℕ) (args : List (List ℕ))
      → WriteCmdFits
      → Handles (hostapd_cli_cmd env cmd min_args args)
  unfolding hostapd_cli_cmd
  Handles-cmd cmd min_args args fits =
      Handles-if (ltb (length args) min_args) Handles-refuse
        (written-Handles (env.write_cmd 4096 cmd args) (fits 4096 cmd args))
