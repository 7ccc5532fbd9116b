-- ===== src/Session.antt =====
-- include/AuthenticatedSession.hpp, src/AuthenticatedSession.cpp, include/ProxySession.hpp,
-- src/ProxySession.cpp, and the part of src/ServerSessionsManager.cpp that works on sessions: what the
-- session numbered `self` does with a message.
pub mod Frame
pub mod Invariant
pub mod Handlers
pub mod Completion
pub mod Login
pub mod Answers
pub mod Conversation
pub mod Meeting
pub mod Rendezvous
use screen_viewer.Prelude.{
  ℕ, List, [], ◌∷◌, ◌++◌, Option, none, some, Bool, true, false, not, Bytes, codes, if◌then◌else◌,
}
use screen_viewer.Message.{
  MessageType, Message, Checked, ok, err, login, register_streamer as register_type, find_streamer,
  start_stream, response, id, just_a_message, is_type, message_type_to_str,
}
use screen_viewer.Outcome.{
  Exception, json_exception, Outcome, done, thrown, M, after, ◌>>=◌, ◌>>◌, give, throw, handled,
  try_catch, or_throw,
}
use screen_viewer.Socket.{
  Socket, buffer_size, send, send_ack, send_nack, disconnect, safe_disconnect, async_read_message,
  poll, on_stream,
}
use screen_viewer.SessionsManager.{Manager, TimedClientSession, register_streamer, extract_streamer}
use screen_viewer.UsersManager.{authenticate as authenticate_user}
use screen_viewer.Json.{read_credentials}
use screen_viewer.World.{
  Env, Callback, authenticate_callback as on_authenticate, handle_read as on_read, SessionKind,
  authenticated_session, proxy_session, Bridged, World, with_socket, on_socket,
}

-- `FIRST_MESSAGE_MAX_SIZE`.
abbrev pub first_message_max_size : ℕ
first_message_max_size = 1000

module _ (env : Env) where
  open env use {transport as t, json, database as db, crypt}

  -- `scheduleNewAsyncRead`, with the default size limit.
  unfoldable pub schedule_new_async_read : ℕ → M (World env) (Unit {0})
  schedule_new_async_read self = on_socket env self (async_read_message t on_read buffer_size)

  with_users : World env → Outcome db.State Bool → Outcome (World env) Bool
  with_users w (done answer users) = done answer (record w { users = some users })
  with_users w (thrown e users) = thrown e (record w { users = some users })

  -- `users_manager.lock()`, and the call if the manager is alive.
  ask_users : Bytes → Bytes → World env → Option db.State → Outcome (World env) Bool
  ask_users email password w none = done false w
  ask_users email password w (some users) =
      with_users w (authenticate_user db crypt email password users)

  unfoldable pub authenticate : Message → M (World env) Bool
  unfolding ask_users with_users
  authenticate message = do
    (email, password) ← or_throw json_exception (read_credentials json message.content)
    (λ w. ask_users email password w w.users)

  -- The two branches of `authenticateCallback` behind `authenticate`.
  answer_login : ℕ → Bool → M (World env) (Unit {0})
  answer_login self true = do on_socket env self (send_ack t); schedule_new_async_read self
  answer_login self false = on_socket env self (send_nack t)

  unfoldable pub authenticate_callback : ℕ → Message → M (World env) (Unit {0})
  unfolding answer_login
  authenticate_callback self message =
      if not (is_type message.type login)
      then on_socket env self (disconnect t (some (codes "You have to login first.")))
      else (do authenticated ← authenticate message; answer_login self authenticated)

  echo : ℕ → Message → M (World env) (Unit {0})
  echo self message = do
    on_socket env self (
        send t (record {
          type = just_a_message;
          content = codes "Got your message! '" ++ (message.content ++ codes "'");
        }))
    schedule_new_async_read self

  -- `ServerSessionsManager::registerStreamer` on the shared manager.
  register : ℕ → M (World env) Bytes
  register sender w =
      let (manager, session_id) = register_streamer sender w.now w.manager in
      done session_id (record w { manager = manager })

  -- `remote_endpoint()` throws when the peer is gone.
  abbrev pub remote_address : ℕ → M (World env) Bytes
  remote_address i w = or_throw (λ (e : Exception). e) (t.remote_endpoint (w.sockets i).stream) w

  -- The second half of `createBridgeWithStreamer`, with the lock given up: `node` has left the map.
  -- The bridge takes over both sockets, once its constructor has their addresses.
  start_bridge : ℕ → TimedClientSession → M (World env) Bool
  start_bridge receiver node = do
    on_socket env receiver (send_ack t)
    on_socket env node.client_session (send t (record { type = start_stream; content = [] }))
    peer_one_address ← remote_address node.client_session
    peer_two_address ← remote_address receiver
    (λ w. done true (record w {
      bridges = record { peer_one = node.client_session; peer_two = receiver } ∷ w.bridges;
    }))

  bridge_extracted :
      ℕ → World env → Option (TimedClientSession × Manager) → Outcome (World env) Bool
  bridge_extracted receiver w none = done false w
  bridge_extracted receiver w (some (node, manager)) =
      start_bridge receiver node (record w { manager = manager })

  unfoldable pub create_bridge_with_streamer : ℕ → Bytes → M (World env) Bool
  unfolding bridge_extracted start_bridge
  create_bridge_with_streamer receiver session_code w =
      bridge_extracted receiver w (extract_streamer session_code w.manager)

  -- The `case`s of `ProxySession::handleRead`.
  serve_register : ℕ → M (World env) (Unit {0})
  serve_register self = do
    session_id ← register self
    on_socket env self (send t (record { type = id; content = session_id }))

  answer_find : ℕ → Bool → M (World env) (Unit {0})
  answer_find self true = give tt
  answer_find self false = do on_socket env self (send_nack t); schedule_new_async_read self

  serve_find : ℕ → Bytes → M (World env) (Unit {0})
  serve_find self session_code = do
    is_found ← create_bridge_with_streamer self session_code
    answer_find self is_found

  serve_other : ℕ → MessageType → M (World env) (Unit {0})
  serve_other self type = do
    on_socket env self (
        send t (record {
          type = response;
          content =
              codes "Did not expect " ++ (codes (message_type_to_str type) ++ codes " message.");
        }))
    schedule_new_async_read self

  serve : ℕ → Message → M (World env) (Unit {0})
  serve self message =
      if is_type message.type register_type
      then serve_register self
      else if is_type message.type find_streamer
      then serve_find self message.content
      else serve_other self message.type

  pub handle_read : SessionKind → ℕ → Message → M (World env) (Unit {0})
  handle_read authenticated_session self message = echo self message
  handle_read proxy_session self message = serve self message

  -- What a captured callback does: `std::invoke(pmf, this, message)`.
  pub callback : Callback → ℕ → Message → M (World env) (Unit {0})
  callback on_authenticate self message w = authenticate_callback self message w
  callback on_read self message w = handle_read (w.kinds self) self message w

  -- The handler's `try`, in the completion handler of `asyncReadMessageImpl`.
  pub handle : ℕ → Option (Callback × Message) → M (World env) (Unit {0})
  handle self none = give tt
  handle self (some (h, message)) =
      try_catch (callback h self message)
        (λ e. on_socket env self (safe_disconnect t (some (t.what e))))

  -- The io_context completes the outstanding read of a session.
  pub complete : ℕ → M (World env) (Unit {0})
  complete self = do ready ← on_socket env self (poll t); handle self ready

  -- `AuthenticatedSession::start`.
  unfoldable pub start : ℕ → M (World env) (Unit {0})
  start self = do
    on_socket env self (on_stream t t.handshake)
    on_socket env self (async_read_message t on_authenticate first_message_max_size)
