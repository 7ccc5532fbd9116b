-- ===== src/Server.antt =====
-- include/ScreenViewerSessionsServer.hpp, include/Servers.hpp and apps/ScreenViewerServer.cpp: the two
-- servers accept connections into sessions that share one world, and the cleaner thread runs beside
-- them. One step is one completion handler, or one round of the cleaner.
pub mod Handover
pub mod Launch
use screen_viewer.Prelude.{ℕ, suc, ◌+◌, List, [], ◌∷◌, Option, none, some, Bytes}
use screen_viewer.Message.{Checked}
use screen_viewer.Outcome.{
  Exception, Outcome, done, thrown, M, after, ◌>>=◌, ◌>>◌, give, handled, try_catch, or_throw,
  final,
}
use screen_viewer.Socket.{Socket, new_socket}
use screen_viewer.SessionsManager.{Manager, terminate_timeout_clients, reset}
use screen_viewer.World.{Env, Callback, SessionKind, World, update}
use screen_viewer.Session.{start, complete}

module _ (env : Env) where
  open env use {transport as t}

  -- `std::make_shared<CreatedSession_t>(…)`, under a number that no session had.
  make_session : SessionKind → t.Stream → M (World env) ℕ
  make_session kind socket w =
      let self = w.next_session in
      done self (record w {
        sockets = update w.sockets self (new_socket t socket);
        kinds = update w.kinds self kind;
        next_session = suc self;
      })

  -- The handler of `async_accept`: an exception is logged, and the next accept is scheduled whatever
  -- happened.
  pub accept_new_connection : SessionKind → t.Stream → M (World env) (Unit {0})
  unfolding make_session
  accept_new_connection kind socket =
      try_catch
        (do
          endpoint ← or_throw (λ (e : Exception). e) (t.remote_endpoint socket)
          self ← make_session kind socket
          start env self)
        (λ e. give tt)

  -- What happens to the server: connections, completed reads, rounds of the cleaner, `reset`, time,
  -- and the end of the users manager.
  pub data Event : Type 0 where
    accepts : SessionKind → t.Stream → Event
    completes : ℕ → Event
    cleans : (ℕ → ℕ) → ℕ → Event
    ticks : ℕ → Event
    resets users_expire : Event

  pub step : World env → Event → World env
  step w (accepts kind socket) = final (accept_new_connection kind socket w)
  step w (completes self) = final (complete env self w)
  step w (cleans now client_timeout) = record w {
    manager = terminate_timeout_clients now client_timeout w.manager;
  }
  step w (ticks n) = record w { now = w.now + n }
  step w resets = record w { manager = reset w.manager }
  step w users_expire = record w { users = none }

  pub run : World env → List Event → World env
  run w [] = w
  run w (e ∷ es) = run (step w e) es
