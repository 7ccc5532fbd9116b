-- ===== src/ClientSocket.antt =====
-- src/ClientSocket.cpp: the requests of a client, each sent and then answered by the server.
pub mod Requests
pub mod Thread
pub mod Connect
use screen_viewer.Prelude.{ℕ, ltb, if◌then◌else◌, Bool, true, false, List, [], ◌∷◌, Bytes}
use screen_viewer.Message.{
  MessageType, Message, login as login_type, find_streamer, register_streamer, start_stream, id,
  ack, is_type,
}
use screen_viewer.Outcome.{
  Exception, not_registered, unfinished, Outcome, done, thrown, M, after, ◌>>=◌, ◌>>◌, give, throw,
}
use screen_viewer.Transport.{Transport}
use screen_viewer.Json.{Json}
use screen_viewer.Socket.{Socket, send, receive, receive_to_buffer, receive_ack, safe_disconnect}

module _ (t : Transport) {H : Type 0} where
  unfoldable pub login : Json → Bytes → Bytes → M (Socket t H) (Unit {0})
  login json email password = do
    send t (record { type = login_type; content = json.credentials email password })
    receive_ack t

  unfoldable pub find_other_client : Bytes → M (Socket t H) Bool
  find_other_client streamer = do
    send t (record { type = find_streamer; content = streamer })
    message ← receive_to_buffer t
    give (is_type message.type ack)

  -- The loop. Each time the clock is read, the next of `passed` is the number of seconds since the
  -- start, and the model gives up where these run out.
  pub wait_for_start_stream_message : ℕ → List ℕ → M (Socket t H) Bool
  wait_for_start_stream_message timeout [] = throw unfinished
  wait_for_start_stream_message timeout (passed ∷ clock) =
      let rest = wait_for_start_stream_message timeout clock in
      if ltb passed timeout
      then (do
        message ← receive_to_buffer t
        if is_type message.type start_stream then give true else rest)
      else give false

  identified : Message → M (Socket t H) Bytes
  identified response =
      if is_type response.type id
      then give response.content
      else throw (not_registered response.type)

  pub request_streamer_id : M (Socket t H) Bytes
  unfolding identified
  request_streamer_id = do
    send t (record { type = register_streamer; content = [] })
    response ← receive t
    identified response
