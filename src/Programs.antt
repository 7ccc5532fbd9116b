-- ===== src/Programs.antt =====
-- The command line programs: apps/add_user.cpp, apps/ScreenViewerClient.cpp and
-- apps/ScreenViewerStreamer.cpp, and the constructor of src/UsersManager.cpp. A program's result is its exit
-- code, and its first argument is its own name. An exception ends it.
pub mod Accounts
use screen_viewer.Prelude.{ℕ, if◌then◌else◌, Bool, true, false, List, [], ◌∷◌, Bytes, codes}
use screen_viewer.Message.{Checked}
use screen_viewer.Outcome.{Exception, Outcome, done, thrown, M, after, ◌>>=◌, ◌>>◌, give, or_throw}
use screen_viewer.Transport.{Transport}
use screen_viewer.Json.{Json}
use screen_viewer.UsersManager.{Database, Crypt, add_user}
use screen_viewer.Socket.{Socket}
use screen_viewer.ClientSocket.{
  login, find_other_client, request_streamer_id, wait_for_start_stream_message,
}
use screen_viewer.ClientSocket.Thread.{Connection}
use screen_viewer.ClientSocket.Connect.{Network, new_client_socket}

-- What the connection string of PostgreSQL names.
pub record Address : Type 0 where
  pub dbname : Bytes
  pub user : Bytes
  pub password : Bytes
  pub host : Bytes
  pub port : ℕ

abbrev pub database_address : Address
database_address = record {
  dbname = codes "screen-viewer";
  user = codes "postgres";
  password = codes "root";
  host = codes "localhost";
  port = 5432;
}

-- `connect` is pqxx's, with the two `prepare` calls behind it.
module _ (db : Database) (crypt : Crypt) (connect : Address → Checked Exception (Unit {0})) where
  unfoldable pub new_users_manager : Address → M db.State (Unit {0})
  new_users_manager address = or_throw (λ (e : Exception). e) (connect address)

  -- `main` of add_user; `salt` is the one that BCrypt draws.
  unfoldable pub add_user_main : ℕ → List Bytes → M db.State ℕ
  unfolding new_users_manager
  add_user_main salt (name ∷ email ∷ password ∷ arguments) = do
    new_users_manager database_address
    add_user db crypt salt email password
    give 0
  add_user_main salt _ = give 1

abbrev pub proxy_server_port : ℕ
proxy_server_port = 44321

-- `argc` is too small, or the program's connection and what became of it.
pub data Exit (S : Type 0) : Type 0 where
  usage : ℕ → Exit S
  ran : Outcome S ℕ → Exit S

module _ (t : Transport) (network : Network t) (json : Json) {H : Type 0} where
  abbrev with_socket {κ} :
      {A : Type κ} → Connection t H → Outcome (Socket t H) A → Outcome (Connection t H) A
  with_socket c (done a s) = done a (record c { socket = s })
  with_socket c (thrown e s) = thrown e (record c { socket = s })

  abbrev on_socket {κ} : {A : Type κ} → M (Socket t H) A → M (Connection t H) A
  on_socket m c = with_socket c (m c.socket)

  -- `run_viewer` is the viewer's constructor and `run`.
  module _ (run_viewer : M (Socket t H) (Unit {0})) where
    show_stream : Bool → M (Connection t H) ℕ
    show_stream true = do on_socket run_viewer; give 0
    show_stream false = give 0

    unfoldable pub find_and_show : Bytes → M (Connection t H) ℕ
    unfolding show_stream
    find_and_show streamer = do
      on_socket (login t json (codes "some_user@gmail.com") (codes "superStrongPassword"))
      is_found ← on_socket (find_other_client t streamer)
      show_stream is_found

    -- `main` of the viewer, on a fresh stream; `thread` is the id of the context's thread.
    unfoldable pub viewer_main : ℕ → t.Stream → List Bytes → Exit (Connection t H)
    unfolding find_and_show
    viewer_main thread stream (name ∷ streamer ∷ arguments) = ran (
        after
          (new_client_socket t network false (codes "localhost") proxy_server_port thread stream)
          (λ _. find_and_show streamer))
    viewer_main thread stream _ = usage 1

  -- `main` of the streamer. `run_streamer` is the controller's and the streamer's constructor and `run`; what
  -- the wait answers is not looked at. The timeout is the largest there is.
  unfoldable pub streamer_main :
      M (Socket t H) (Unit {0}) → ℕ → List ℕ → ℕ → t.Stream → Outcome (Connection t H) ℕ
  streamer_main run_streamer timeout clock thread stream =
      after (new_client_socket t network false (codes "localhost") proxy_server_port thread stream)
        (λ _. do
          on_socket (login t json (codes "some_other_user@gmail.com") (codes "superStrongPassword"))
          id ← on_socket (request_streamer_id t)
          answer ← on_socket (wait_for_start_stream_message t timeout clock)
          on_socket run_streamer
          give 0)
