-- ===== src/Tests/Logins.antt =====
-- A login and a meeting of a client with its streamer at concrete inputs.
use screen_viewer.Prelude.{
  ℕ, ◌≡◌, refl, ap, ◌∙◌, arith, true, [], ◌∷◌, ◌++◌, some, none, Bytes, codes, same_bytes,
}
use screen_viewer.Message.{ok, login as login_type, ack, find_streamer}
use screen_viewer.Outcome.{done, final}
use screen_viewer.Socket.{Socket, header_read, send, send_chunk, buffer_size}
use screen_viewer.Socket.Framing.{frame}
use screen_viewer.ClientSocket.{login}
use screen_viewer.SessionsManager.{find}
use screen_viewer.UsersManager.{add_user, authenticate as authenticate_user}
use screen_viewer.World.{
  World, Callback, authenticate_callback as on_authenticate, handle_read as on_read, proxy_session,
}
use screen_viewer.Session.{handle_read, first_message_max_size}
use screen_viewer.Session.Answers.{next_read, complete_twice, login-Answers}
use screen_viewer.Session.Conversation.{Verdict, login-Verdict}
use screen_viewer.Session.Meeting.{Answered, handle_read-Answered}
use screen_viewer.Programs.{add_user_main}
use screen_viewer.Programs.Accounts.{add_user_main-login}
use screen_viewer.Tests.Fixtures.{
  Pipe, pipe, pipe-Lawful, env, json, json-Lawful, rows, table, table-IsTable, crypt, insert_user,
}

abbrev pub live_pipe : Bytes → Bytes → Pipe
live_pipe incoming outgoing = record { incoming = incoming; outgoing = outgoing; live = true }

abbrev login_frame : Bytes
login_frame = frame login_type (json.credentials (codes "a") (codes "secret"))

abbrev sockets : ℕ → Socket pipe Callback
sockets j = record {
  stream = live_pipe login_frame [];
  data_buffer = [];
  pending = some (header_read on_authenticate first_message_max_size);
}

abbrev pub world : World env
world = record {
  sockets = sockets;
  kinds = λ j. proxy_session;
  next_session = 2;
  manager = record {
    senders_sessions = (codes "test", record { client_session = 1; time_point = 5 }) ∷ [];
    connections_controller = true;
  };
  bridges = [];
  users = some ((codes "a", codes "secret") ∷ []);
  now = 9;
}

abbrev pub client : Bytes → Bytes → Socket pipe (Unit {0})
client incoming outgoing = record {
  stream = live_pipe incoming outgoing;
  data_buffer = [];
  pending = none;
}

abbrev pub answer : Bytes
answer = frame ack []

login_sent :
    send pipe
      (record { type = login_type; content = json.credentials (codes "a") (codes "secret") })
      (client answer [])
    ≡ done tt (client answer login_frame)
unfolding send send_chunk buffer_size
login_sent = refl

accepted :
    authenticate_user env.database env.crypt
      (codes "a")
      (codes "secret")
      ((codes "a", codes "secret") ∷ [])
    ≡ done true ((codes "a", codes "secret") ∷ [])
unfolding authenticate_user rows same_bytes
accepted = refl

pub writes : (bytes : Bytes) (x : Pipe) → (x' : Pipe) × (pipe.write bytes x ≡ done tt x')
writes bytes x = (record x { outgoing = x.outgoing ++ bytes }, refl)

answered :
    pipe-Lawful.outgoing ((final (complete_twice env 0 world)).sockets 0).stream ≡ frame ack []
answered =
    let (w', both, a) =
      login-Answers env pipe-Lawful writes (codes "a") (codes "secret") true
        ((codes "a", codes "secret") ∷ []) ((codes "a", codes "secret") ∷ []) 0 world
        (json-Lawful.reads_back (codes "a") (codes "secret")) (omega arith) refl (refl, refl) refl
        accepted in
    ap (λ (w : World env). pipe-Lawful.outgoing (w.sockets 0).stream) (ap final both) ∙ a.answer

login-Verdict_example :
    (((final (complete_twice env 0 world)).sockets 0).pending ≡ next_read true)
    × Verdict true (login pipe json (codes "a") (codes "secret") (client answer []))
login-Verdict_example =
    login-Verdict env pipe-Lawful json-Lawful pipe pipe-Lawful (codes "a") (codes "secret") true
      ((codes "a", codes "secret") ∷ []) ((codes "a", codes "secret") ∷ []) 0 world
      (client answer []) (client answer login_frame) login_frame answer writes (omega arith)
      login_sent refl refl (refl, refl) refl accepted answered (refl, refl)

handle_read-Answered_example :
    (w' : World env) × (handle_read env proxy_session 0
        (record { type = find_streamer; content = codes "test" })
        world
      ≡ done tt w')
    × Answered env pipe-Lawful 0
        (codes "test")
        world
        w'
        (find (codes "test") world.manager.senders_sessions)
handle_read-Answered_example =
    handle_read-Answered env pipe-Lawful writes (λ x. (codes "127.0.0.1", refl)) 0 (codes "test")
      world ((λ e. absurd (omega arith)), tt)

added :
    add_user_main table crypt (λ a. ok tt) 3 (codes "add_user" ∷ codes "a" ∷ codes "secret" ∷ []) []
    ≡ done 0 ((codes "a", codes "secret") ∷ [])
unfolding add_user_main add_user insert_user rows
added = refl

same_secret : same_bytes (codes "secret") (codes "secret") ≡ true
unfolding same_bytes
same_secret = refl

add_user_main-login_example :
    (((final (complete_twice env 0 world)).sockets 0).pending
      ≡ some (header_read on_read buffer_size))
    × (d : Socket pipe (Unit {0})) × (login pipe json
          (codes "a")
          (codes "secret")
          (client answer [])
        ≡ done tt d)
add_user_main-login_example =
    add_user_main-login env pipe-Lawful json-Lawful table-IsTable pipe pipe-Lawful (λ a. ok tt) 3
      (codes "add_user") (codes "a") (codes "secret") [] [] ((codes "a", codes "secret") ∷ []) 0
      world (client answer []) (client answer login_frame) login_frame answer same_secret added
      writes (omega arith) login_sent refl refl (refl, refl) refl answered (refl, refl)
