-- ===== src/World.antt =====
-- What the server's sessions share: their sockets, the sessions manager, the database, the clock, and
-- the bridges that were started. A session is a number, which stands for its `shared_ptr`.
use screen_viewer.Prelude.{ℕ, ◌==◌, ◌≡◌, ◌≢◌, arith, if◌then◌else◌, List, Option}
use screen_viewer.Json.{Json}
use screen_viewer.Outcome.{Outcome, done, thrown, M}
use screen_viewer.Transport.{Transport}
use screen_viewer.Socket.{Socket}
use screen_viewer.SessionsManager.{Manager}
use screen_viewer.UsersManager.{Database, Crypt}

pub record Env : Type 1 where
  pub transport : Transport
  pub json : Json
  pub database : Database
  pub crypt : Crypt

-- The two member functions that a session hands to `asyncReadMessage`.
pub data Callback : Type 0 where
  authenticate_callback handle_read : Callback

-- The class of a session, which decides what `handleRead` is.
pub data SessionKind : Type 0 where
  authenticated_session proxy_session : SessionKind

pub record Bridged : Type 0 where
  pub peer_one : ℕ
  pub peer_two : ℕ

module _ (env : Env) where
  pub record World : Type 0 where
    pub sockets : ℕ → Socket env.transport Callback
    pub kinds : ℕ → SessionKind
    pub next_session : ℕ
    pub manager : Manager
    pub bridges : List Bridged
    pub users : Option env.database.State
    pub now : ℕ

-- One entry of a store.
abbrev pub update {ℓ} : {A : Type ℓ} → (ℕ → A) → ℕ → A → ℕ → A
update f i a j = if i == j then a else f j

pub update_self {ℓ} : {A : Type ℓ} (f : ℕ → A) (i : ℕ) (a : A) → update f i a i ≡ a
update_self f i a = ground arith

pub update_other {ℓ} : {A : Type ℓ} (f : ℕ → A) (i j : ℕ) (a : A) → i ≢ j → update f i a j ≡ f j
update_other f i j a h = ground arith

module _ (env : Env) where
  abbrev pub with_socket {κ} :
      {A : Type κ}
      → ℕ
      → World env
      → Outcome (Socket env.transport Callback) A
      → Outcome (World env) A
  with_socket i w (done a s) = done a (record w { sockets = update w.sockets i s })
  with_socket i w (thrown e s) = thrown e (record w { sockets = update w.sockets i s })

  -- A call on the socket of session `i`.
  abbrev pub on_socket {κ} :
      {A : Type κ} → ℕ → M (Socket env.transport Callback) A → M (World env) A
  on_socket i m w = with_socket i w (m (w.sockets i))
