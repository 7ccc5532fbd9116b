-- ===== src/Tests/Meetings.antt =====
-- A viewer that searches for a streamer, and the streamer that waits, at concrete inputs.
use screen_viewer.Prelude.{
  ℕ, ◌≡◌, ◌≢◌, refl, ap, ◌∙◌, arith, true, [], ◌∷◌, some, none, Bytes, codes, same_bytes,
}
use screen_viewer.Message.{find_streamer, start_stream, ok}
use screen_viewer.Outcome.{done, final}
use screen_viewer.Socket.{Socket, header_read, send, send_chunk, buffer_size}
use screen_viewer.Socket.Framing.{frame}
use screen_viewer.SessionsManager.{TimedClientSession, find}
use screen_viewer.World.{World, Callback, handle_read as on_read}
use screen_viewer.ClientSocket.{find_other_client, wait_for_start_stream_message}
use screen_viewer.Session.Answers.{complete_twice}
use screen_viewer.Session.Rendezvous.{
  is_found, to_client, to_streamer, complete_twice-Answered, find_other_client-is_found,
  wait_for_start_stream_message-bridges,
}
use screen_viewer.Session.Invariant.{AllRegistered}
use screen_viewer.Tests.Fixtures.{Pipe, pipe, pipe-Lawful, env}
use screen_viewer.Tests.Logins.{live_pipe, world, client, answer, writes}

abbrev find_frame : Bytes
find_frame = frame find_streamer (codes "test")

abbrev sockets : ℕ → Socket pipe Callback
sockets j = record {
  stream = live_pipe find_frame [];
  data_buffer = [];
  pending = some (header_read on_read buffer_size);
}

abbrev searched : World env
searched = record world { sockets = sockets }

abbrev waiting : TimedClientSession
waiting = record { client_session = 1; time_point = 5 }

find_sent :
    send pipe (record { type = find_streamer; content = codes "test" }) (client answer [])
    ≡ done tt (client answer find_frame)
unfolding send send_chunk buffer_size
find_sent = refl

registered : find (codes "test") searched.manager.senders_sessions ≡ some waiting
unfolding find same_bytes
registered = refl

free : AllRegistered env (λ j. j ≢ 0) searched
free = ((λ e. absurd (omega arith)), tt)

addresses : (x : Pipe) → (a : Bytes) × (pipe.remote_endpoint x ≡ ok a)
addresses x = (codes "127.0.0.1", refl)

answered : pipe-Lawful.outgoing ((final (complete_twice env 0 searched)).sockets 0).stream ≡ answer
unfolding find same_bytes
answered =
    let (w', both, a) =
      complete_twice-Answered env pipe-Lawful writes addresses 0 (codes "test") searched
        (unfold buffer_size in omega arith) free refl refl (refl, refl) in
    ap (λ (w : World env). pipe-Lawful.outgoing (w.sockets 0).stream) (ap final both)
    ∙ to_client env pipe-Lawful 0 (codes "test") searched w' _ a

started :
    pipe-Lawful.outgoing ((final (complete_twice env 0 searched)).sockets 1).stream
    ≡ frame start_stream []
started =
    let (w', both, a) =
      complete_twice-Answered env pipe-Lawful writes addresses 0 (codes "test") searched
        (unfold buffer_size in omega arith) free refl refl (refl, refl) in
    ap (λ (w : World env). pipe-Lawful.outgoing (w.sockets 1).stream) (ap final both)
    ∙ (to_streamer env pipe-Lawful 0 (codes "test") searched w' waiting a registered).0

find_other_client-is_found_example :
    (d : Socket pipe (Unit {0})) × (find_other_client pipe (codes "test") (client answer [])
      ≡ done (is_found (find (codes "test") searched.manager.senders_sessions)) d)
find_other_client-is_found_example =
    find_other_client-is_found env pipe-Lawful pipe pipe-Lawful 0 (codes "test") searched
      (client answer []) (client answer find_frame) find_frame answer writes addresses
      (unfold buffer_size in omega arith) free refl refl find_sent refl (refl, refl) answered
      (refl, refl)

wait_for_start_stream_message-bridges_example :
    ((d' : Socket pipe (Unit {0})) × (wait_for_start_stream_message pipe 10
          (0 ∷ [])
          (client (frame start_stream []) [])
        ≡ done true d'))
    × ((final (complete_twice env 0 searched)).bridges ≡ record { peer_one = 1; peer_two = 0 } ∷ [])
    × (find (codes "test") (final (complete_twice env 0 searched)).manager.senders_sessions ≡ none)
wait_for_start_stream_message-bridges_example =
    wait_for_start_stream_message-bridges env pipe-Lawful pipe pipe-Lawful 0 (codes "test") searched
      waiting (client (frame start_stream []) []) (frame start_stream []) 10 0 [] writes addresses
      (unfold buffer_size in omega arith) free refl refl (refl, refl) registered started
      (refl, refl) (omega arith)
