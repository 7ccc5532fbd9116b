-- ===== src/Server/Handover.antt =====
-- Who may read a socket: a registered or bridged session is never read by its own handlers.
use screen_viewer.Prelude.{ℕ, ◌≡◌, ◌≢◌, arith, Option, none, Bytes, List, [], ◌∷◌}
use screen_viewer.Message.{Checked, ok, err}
use screen_viewer.Outcome.{give, Exception, Outcome, done, thrown, after, final, handled, or_throw}
use screen_viewer.Socket.{Socket, new_socket, on_stream, async_read_message}
use screen_viewer.Socket.Keeps.{on_stream-Keeps}
use screen_viewer.SessionsManager.{terminate_timeout_clients, reset}
use screen_viewer.SessionsManager.Entries.{terminate_from-Registered}
use screen_viewer.SessionsManager.Registry.{initial}
use screen_viewer.World.{
  Env, Callback, authenticate_callback as on_authenticate, SessionKind, World, on_socket,
}
use screen_viewer.Session.{first_message_max_size, start}
use screen_viewer.Session.Frame.{on_socket-Framed}
use screen_viewer.Session.Invariant.{
  Quiet, Parked, AllRegistered, AllBridged, Inv, Free, Safe, Ready, after-Safe, with_socket-Safe,
  Parked-map, Bridged-map,
}
use screen_viewer.Session.Completion.{complete-Safe}
use screen_viewer.Server.{
  Event, accepts, completes, cleans, ticks, resets, users_expire, make_session,
  accept_new_connection, step, run,
}

module _ (env : Env) where
  open env use {transport as t}

  -- Nobody has heard of a session that is being made.
  newborn-Free : (w : World env) → Inv env w → Free env w w.next_session
  newborn-Free w v = record {
    not_registered =
        Parked-map env (Parked env w) (λ j. j ≢ w.next_session) w (λ j p. omega (arith, p.0))
          v.registered;
    not_bridged =
        Bridged-map env (Parked env w) (λ j. j ≢ w.next_session) w (λ j p. omega (arith, p.0))
          v.bridged;
  }

  kept :
      (w : World env) (kind : SessionKind) (socket : t.Stream) (j : ℕ)
      → Parked env w j
      → Parked env (final (make_session env kind socket w)) j
  unfolding make_session
  kept w kind socket j p = ground arith

  make_session-Ready :
      (w : World env) (kind : SessionKind) (socket : t.Stream)
      → Inv env w
      → Ready env (final (make_session env kind socket w)) w.next_session
  unfolding make_session new_socket
  make_session-Ready w kind socket v =
      let w' = final (make_session env kind socket w) in
      let free = newborn-Free w v in
      record {
        inv = record {
          registered =
              Parked-map env (Parked env w) (Parked env w') w (kept w kind socket) v.registered;
          bridged = Bridged-map env (Parked env w) (Parked env w') w (kept w kind socket) v.bridged;
          unborn = λ j h. ground (arith, v.unborn j (omega arith));
        };
        free = record { not_registered = free.not_registered; not_bridged = free.not_bridged };
        born = omega arith;
        quiet = ground arith;
      }

  start-Safe : (w : World env) (self : ℕ) → Ready env w self → Safe env (start env self w)
  unfolding start
  start-Safe w self r =
      after-Safe env w self (on_socket env self (on_stream t t.handshake) w) _
        (on_socket-Framed env self (on_stream t t.handshake) w
          (on_stream-Keeps t t.handshake (w.sockets self)).1)
        r
        λ _ w' r'.
          with_socket-Safe env w' self
            (async_read_message t on_authenticate first_message_max_size (w'.sockets self)) r'.born
            r'.free r'.inv

  swallowed-Safe :
      (o : Outcome (World env) (Unit {0})) → Safe env o → Safe env (handled o (λ e. give tt))
  swallowed-Safe (done a w) s = record { safe = s.safe }
  swallowed-Safe (thrown e w) s = record { safe = s.safe }

  accepted-Safe :
      (w : World env) (kind : SessionKind) (socket : t.Stream) (r : Checked Exception Bytes)
      → Inv env w
      → Safe env (
          after
            (or_throw (λ (e : Exception). e) r w)
            (λ _ w'. after (make_session env kind socket w') (start env)))
  unfolding make_session
  accepted-Safe w kind socket (ok endpoint) v =
      start-Safe _ w.next_session (make_session-Ready w kind socket v)
  accepted-Safe w kind socket (err e) v = record { safe = v }

  cleaned-Inv :
      (w : World env) (now : ℕ → ℕ) (timeout : ℕ)
      → Inv env w
      → Inv env (record w { manager = terminate_timeout_clients now timeout w.manager })
  unfolding terminate_timeout_clients
  cleaned-Inv w now timeout v = record {
    registered =
        terminate_from-Registered (Parked env w) now timeout 0 w.manager.senders_sessions
          v.registered;
    bridged = v.bridged;
    unborn = v.unborn;
  }

  step-Inv : (w : World env) (e : Event env) → Inv env w → Inv env (step env w e)
  unfolding step
  step-Inv w (accepts kind socket) v =
      unfold accept_new_connection in
      (swallowed-Safe _ (accepted-Safe w kind socket (t.remote_endpoint socket) v)).safe
  step-Inv w (completes self) v = (complete-Safe env w self v).safe
  step-Inv w (cleans now timeout) v = cleaned-Inv w now timeout v
  step-Inv w (ticks n) v = record {
    registered = v.registered;
    bridged = v.bridged;
    unborn = v.unborn;
  }
  step-Inv w resets v =
      unfold reset in record { registered = tt; bridged = v.bridged; unborn = v.unborn }
  step-Inv w users_expire v = record {
    registered = v.registered;
    bridged = v.bridged;
    unborn = v.unborn;
  }

  pub run-Inv : (w : World env) (es : List (Event env)) → Inv env w → Inv env (run env w es)
  unfolding run
  run-Inv w [] v = v
  run-Inv w (e ∷ es) v = run-Inv (step env w e) es (step-Inv w e v)

  -- The server as `main` starts it: no session yet, nobody registered, no bridge.
  abbrev pub launched :
      (ℕ → Socket t Callback) → (ℕ → SessionKind) → Option env.database.State → ℕ → World env
  launched sockets kinds users now = record {
    sockets = sockets;
    kinds = kinds;
    next_session = 0;
    manager = initial;
    bridges = [];
    users = users;
    now = now;
  }

  -- Whatever happens to a server after its start, in whatever order, no session that is registered
  -- or whose socket went into a bridge has an outstanding read of its own, if none has one before
  -- it exists.
  pub run-launched-Quiet :
      (sockets : ℕ → Socket t Callback) (kinds : ℕ → SessionKind)
      (users : Option env.database.State) (now : ℕ) (es : List (Event env))
      → ((j : ℕ) → (sockets j).pending ≡ none)
      → let w = run env (launched sockets kinds users now) es in
        AllRegistered env (Quiet env w) w × AllBridged env (Quiet env w) w
  run-launched-Quiet sockets kinds users now es quiet =
      let w0 = launched sockets kinds users now in
      let w = run env w0 es in
      let v : Inv env w =
        run-Inv w0 es (record { registered = tt; bridged = tt; unborn = λ j _. quiet j }) in
      (
        Parked-map env (Parked env w) (Quiet env w) w (λ j p. p.1) v.registered,
        Bridged-map env (Parked env w) (Quiet env w) w (λ j p. p.1) v.bridged,
      )
