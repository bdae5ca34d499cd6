-- ===== src/Beacon/Answering/Rounds.antt =====
-- One request with its wait, while hostapd answers.
use mathlib.Core.List.{append_assoc, append-nil}
use transmitter_linux.Common.{
  ℕ, ◌+◌, ◌-◌, ◌<◌, ◌≡◌, refl, sym, ◌∙◌, ap, Bool, true, false, List, [], ◌∷◌, ◌++◌, codes, length,
  arith,
}
use transmitter_linux.Machine.{
  World, Effect, done, M, ◌>>◌, Tick, replied, ctrl_request, >>=-done, Env,
}
use transmitter_linux.Hostapd.Table.{Handler, hostapd_cli_commands, begins_with, same_word}
use transmitter_linux.Hostapd.Control.{
  sem_post, hostapd_cli_ping, run_ticks, switch_thread, switch_from, acquire, sem_wait,
}
use transmitter_linux.Hostapd.Commands.{same_text, wpa_request, hostapd_cli_cmd_quit}
use transmitter_linux.Hostapd.Waiting.{Answered}
use transmitter_linux.Beacon.Defs.{request_and_wait, send_quit}
use transmitter_linux.Beacon.Answering.Progress.{own, own-append, AnsweredAll, Alive, Serving}

-- What answered pings leave behind.
pings : List Tick → List Effect
pings [] = []
pings (t ∷ ts) = ctrl_request (codes "PING") ∷ pings ts

own-pings : (ts : List Tick) → own (pings ts) ≡ []
unfolding own pings same_text
own-pings [] = refl
own-pings (t ∷ ts) = own-pings ts

ping_answered :
    (t : Tick) (w : World) (text : List ℕ)
    → w.connected ≡ true
    → w.cli_quit ≡ false
    → t.reply ≡ replied text
    → hostapd_cli_ping t w
      ≡ record w { out = w.out ++ (ctrl_request (codes "PING") ∷ []); semaphore = w.semaphore + 1 }
unfolding hostapd_cli_ping
ping_answered t w text on going r = simp (on, going, r)

pinged : List Tick → World → World
pinged ts w = record w { out = w.out ++ pings ts; semaphore = w.semaphore + length ts }

same_world :
    (w : World) {out out' : List Effect} {posts posts' : ℕ}
    → out ≡ out'
    → posts ≡ posts'
    → record w { out = out; semaphore = posts } ≡ record w { out = out'; semaphore = posts' }
same_world w {out} {out'} {posts} {posts'} p q =
    ap (λ o. record w { out = o; semaphore = posts }) p
    ∙ ap (λ n. record w { out = out'; semaphore = n }) q

run_ticks_answered :
    (ts : List Tick) (w : World)
    → w.connected ≡ true
    → w.cli_quit ≡ false
    → Answered ts
    → run_ticks ts w ≡ pinged ts w
unfolding run_ticks pings pinged
run_ticks_answered [] w on going all = same_world w (sym (append-nil w.out)) (omega arith)
run_ticks_answered (t ∷ ts) w on going all =
    let v = record w {
      out = w.out ++ (ctrl_request (codes "PING") ∷ []);
      semaphore = w.semaphore + 1;
    } in
    ap (run_ticks ts) (ping_answered t w all.0.0 on going all.0.1)
    ∙ run_ticks_answered ts v on going all.1
    ∙ same_world w (append_assoc w.out (ctrl_request (codes "PING") ∷ []) (pings ts)) (omega arith)

later : List (List Tick) → List (List Tick)
later [] = []
later (ts ∷ rest) = rest

now : List (List Tick) → List Tick
now [] = []
now (ts ∷ rest) = ts

switch_thread_answered :
    (w : World)
    → Alive w
    → switch_thread w ≡ done tt (pinged (now w.schedule) (record w { schedule = later w.schedule }))
unfolding switch_thread switch_from now later run_ticks
switch_thread_answered w alive = go w.schedule alive.answered
  where
    go :
        (s : List (List Tick))
        → AnsweredAll s
        → done tt (switch_from s w) ≡ done tt (pinged (now s) (record w { schedule = later s }))
    go [] all =
        ap (done tt)
          (run_ticks_answered [] (record w { schedule = [] }) alive.connected alive.going tt)
    go (ts ∷ rest) all =
        ap (done tt)
          (run_ticks_answered ts (record w { schedule = rest }) alive.connected alive.going all.0)

pub acquire_posted :
    (s : List (List Tick)) (w : World)
    → 0 < w.semaphore
    → acquire s w ≡ done tt (record w { semaphore = w.semaphore - 1; schedule = s })
unfolding acquire
acquire_posted [] w posted = ground arith
acquire_posted (ts ∷ rest) w posted = ground arith

later-AnsweredAll : (s : List (List Tick)) → AnsweredAll s → AnsweredAll (later s)
unfolding later
later-AnsweredAll [] all = tt
later-AnsweredAll (ts ∷ rest) all = all.1

-- What a request of the main thread does: it returns, posts once, and has these effects.
pub record Posts (m : M (Unit {0})) (cmds : List (List ℕ)) : Type 0 where
  pub posts :
      (w : World)
      → w.connected ≡ true
      → (es : List Effect) × (m w
          ≡ done tt (record w { out = w.out ++ es; semaphore = w.semaphore + 1 }))
        × (own es ≡ cmds)

module _ (env : Env) (other : Handler → List (List ℕ) → M Bool) where
  -- The world behind the wait: the pings of the other thread, the request, and no post left of it.
  waited : List Effect → World → World
  waited es w =
      let v = pinged (now w.schedule) (record w { schedule = later w.schedule }) in
      record v { out = v.out ++ es; semaphore = (v.semaphore + 1) - 1 }

  -- The wait ends at once when the request has posted the semaphore.
  request_and_wait_returns :
      (words : List (List ℕ)) (w v : World)
      → Alive w
      → wpa_request env other words
          (pinged (now w.schedule) (record w { schedule = later w.schedule }))
        ≡ done tt v
      → 0 < v.semaphore
      → request_and_wait env other words w
        ≡ done tt (record v { semaphore = v.semaphore - 1; schedule = v.schedule })
  unfolding request_and_wait sem_wait
  request_and_wait_returns words w v alive sent posted =
      >>=-done switch_thread (λ _. wpa_request env other words >> sem_wait)
        (switch_thread_answered w alive)
      ∙ >>=-done (wpa_request env other words) (λ _. sem_wait) sent
      ∙ acquire_posted v.schedule v posted

  request_and_wait_answered :
      (words : List (List ℕ)) (es : List Effect) (w : World)
      → Alive w
      → (let v = pinged (now w.schedule) (record w { schedule = later w.schedule }) in
          wpa_request env other words v
          ≡ done tt (record v { out = v.out ++ es; semaphore = v.semaphore + 1 }))
      → request_and_wait env other words w ≡ done tt (waited es w)
  unfolding waited pinged
  request_and_wait_answered words es w alive sent =
      let v = pinged (now w.schedule) (record w { schedule = later w.schedule }) in
      request_and_wait_returns words w (record v { out = v.out ++ es; semaphore = v.semaphore + 1 })
        alive sent (omega arith)

  own-waited :
      (ts : List Tick) (out es : List Effect) → own ((out ++ pings ts) ++ es) ≡ own out ++ own es
  own-waited ts out es =
      own-append (out ++ pings ts) es
      ∙ ap (λ l. l ++ own es)
          (own-append out (pings ts) ∙ ap (λ l. own out ++ l) (own-pings ts) ∙ append-nil (own out))

  -- A request that posts the semaphore comes back from its wait.
  pub request_and_wait-Serving :
      (words : List (List ℕ)) (cmds : List (List ℕ))
      → Posts (wpa_request env other words) cmds
      → Serving cmds tt (request_and_wait env other words)
  unfolding waited pinged
  request_and_wait-Serving words cmds p = record {
    serves = λ w alive.
        let v = pinged (now w.schedule) (record w { schedule = later w.schedule }) in
        let sent = p.posts v alive.connected in
        rw (request_and_wait_answered words sent.0 w alive sent.1) (
          refl,
          record {
            requested = own-waited (now w.schedule) w.out sent.0 ∙ ap (λ l. own w.out ++ l) sent.2;
            posted = omega arith;
            alive = record {
              connected = alive.connected;
              going = alive.going;
              answered = later-AnsweredAll w.schedule alive.answered;
            };
          },
        );
  }

  -- While hostapd answers the pings, `send_quit` returns, has told the event loop to end, and has
  -- requested nothing.
  pub send_quit-Returns :
      (w : World)
      → Alive w
      → (v : World) × (send_quit env other w ≡ done tt v)
        × (own v.out ≡ own w.out)
        × (v.cli_quit ≡ true)
  unfolding send_quit wpa_request hostapd_cli_commands begins_with same_word hostapd_cli_cmd_quit
      sem_post pinged
  send_quit-Returns w alive =
      let u = pinged (now w.schedule) (record w { schedule = later w.schedule }) in
      let v = record u { semaphore = u.semaphore + 1; cli_quit = true } in
      (
        record v { semaphore = v.semaphore - 1; schedule = v.schedule },
        request_and_wait_returns (codes "quit" ∷ []) w v alive refl (omega arith),
        own-append w.out (pings (now w.schedule))
            ∙ ap (λ l. own w.out ++ l) (own-pings (now w.schedule))
            ∙ append-nil (own w.out),
        refl,
      )
