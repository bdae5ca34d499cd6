-- ===== src/Bluetooth/Controller/Obeying.antt =====
-- How a controller that obeys the program's effects follows the commands that an action sends.
use transmitter_linux.Common.{ℕ, ◌≡◌, refl, sym, ap, ◌∙◌, List, [], ◌∷◌, ◌++◌, map}
use transmitter_linux.Machine.{
  World, Effect, Outcome, done, exited, blocked, fault, M, Env, ReadResult, hci_command, hci_closed,
  ctrl_request, printed, slept_us, shell, gps_streamed, gps_closed,
}
use transmitter_linux.Bluetooth.Keeping.{Leaves}
use transmitter_linux.Bluetooth.Trace.Acts.{HciCommand, sent_by, commands, Ends, Sent}
use transmitter_linux.Bluetooth.Controller.{Controller, run, obey}

module _ (env : Env) (c : Controller env) where
  open c use {State, apply}

  obey-commands : (es : List Effect) (s : State) → obey env c (commands es) s ≡ obey env c es s
  obey-commands [] s = refl
  obey-commands (hci_command dd g k p ∷ es) s = obey-commands es _
  obey-commands (hci_closed dd ∷ es) s = obey-commands es s
  obey-commands (ctrl_request cmd ∷ es) s = obey-commands es s
  obey-commands (printed n ∷ es) s = obey-commands es s
  obey-commands (slept_us n ∷ es) s = obey-commands es s
  obey-commands (shell cmd ∷ es) s = obey-commands es s
  obey-commands (gps_streamed flags device ∷ es) s = obey-commands es s
  obey-commands (gps_closed ∷ es) s = obey-commands es s

  obey-append :
      (es fs : List Effect) (s : State) → obey env c (es ++ fs) s ≡ obey env c fs (obey env c es s)
  obey-append [] fs s = refl
  obey-append (hci_command dd g k p ∷ es) fs s = obey-append es fs _
  obey-append (hci_closed dd ∷ es) fs s = obey-append es fs s
  obey-append (ctrl_request cmd ∷ es) fs s = obey-append es fs s
  obey-append (printed n ∷ es) fs s = obey-append es fs s
  obey-append (slept_us n ∷ es) fs s = obey-append es fs s
  obey-append (shell cmd ∷ es) fs s = obey-append es fs s
  obey-append (gps_streamed flags device ∷ es) fs s = obey-append es fs s
  obey-append (gps_closed ∷ es) fs s = obey-append es fs s

  obey-sent :
      (dd : ℕ) (cs : List HciCommand) (s : State)
      → obey env c (map (sent_by dd) cs) s ≡ run env c cs s
  obey-sent dd [] s = refl
  obey-sent dd (k ∷ cs) s = obey-sent dd cs (apply k s)

  pub run-append :
      (cs ds : List HciCommand) (s : State) → run env c (cs ++ ds) s ≡ run env c ds (run env c cs s)
  run-append [] ds s = refl
  run-append (k ∷ cs) ds s = run-append cs ds (apply k s)

  pub obey-Sent :
      (w w' : World) (cs : List HciCommand) (s : State)
      → Sent w cs w'
      → obey env c w'.out s ≡ run env c cs (obey env c w.out s)
  obey-Sent w w' cs s e =
      sym (obey-commands w'.out s)
      ∙ ap (λ l. obey env c l s) e.log
      ∙ obey-append (commands w.out) (map (sent_by w.device_descriptor) cs) s
      ∙ obey-sent w.device_descriptor cs _
      ∙ ap (run env c cs) (obey-commands w.out s)

  -- A call that returns after these commands: where it returns to, and where the controller is.
  abbrev pub Obeyed : M (Unit {0}) → World → List HciCommand → State → Type 0
  Obeyed m w cs s =
      (w' : World) × (m w ≡ done tt w') × (obey env c w'.out s ≡ run env c cs (obey env c w.out s))

  returned :
      (o : Outcome (Unit {0})) (w : World) (cs : List HciCommand) (rest : List ReadResult)
      (s : State)
      → Leaves rest o
      → Ends w cs o
      → (w' : World) × (o ≡ done tt w') × (obey env c w'.out s ≡ run env c cs (obey env c w.out s))
  returned (done tt w') w cs rest s l e = (w', refl, obey-Sent w w' cs s e)
  returned (exited code w') w cs rest s l e = absurd l
  returned (blocked w') w cs rest s l e = absurd l
  returned (fault w') w cs rest s l e = absurd l

  pub returns-Obeyed :
      (m : M (Unit {0})) (w start : World) (cs : List HciCommand) (rest : List ReadResult)
      (s : State)
      → start.out ≡ w.out
      → Leaves rest (m w)
      → Ends start cs (m w)
      → Obeyed m w cs s
  returns-Obeyed m w start cs rest s same l e =
      let (w', ended, obeyed) = returned (m w) start cs rest s l e in
      (w', ended, obeyed ∙ ap (λ out. run env c cs (obey env c out s)) same)
