-- ===== src/Tests/Sessions.antt =====
-- The server at concrete inputs.
use screen_viewer.Prelude.{
  ℕ, ◌≡◌, ◌≢◌, refl, sym, same_bytes, ◌∙◌, some, none, true, [], ◌∷◌, List, Bytes, codes,
}
use screen_viewer.Message.{is_type, Message, login, type_code}
use screen_viewer.Outcome.{final}
use screen_viewer.Socket.{
  Socket, header_read, async_read_message, send_ack, send, send_chunk, buffer_size,
}
use screen_viewer.Json.{read_credentials}
use screen_viewer.UsersManager.{authenticate as authenticate_user}
use screen_viewer.World.{Callback, handle_read as on_read, proxy_session, World}
use screen_viewer.Session.{authenticate_callback, authenticate, schedule_new_async_read}
use screen_viewer.Session.Frame.{pending_of}
use screen_viewer.Session.Login.{LogsIn, authenticate_callback-LogsIn}
use screen_viewer.Session.Invariant.{AllRegistered, AllBridged, Quiet}
use screen_viewer.Server.{Event, accepts, completes, cleans, run}
use screen_viewer.Server.Handover.{launched, run-launched-Quiet}
use screen_viewer.Tests.Fixtures.{Pipe, pipe, env, rows}

abbrev live_pipe : Bytes → Pipe
live_pipe bytes = record { incoming = bytes; outgoing = []; live = true }

abbrev sockets : ℕ → Socket pipe Callback
sockets j = record { stream = live_pipe []; data_buffer = []; pending = none }

abbrev world : World env
world = launched env sockets (λ j. proxy_session) (some ((codes "a", codes "secret") ∷ [])) 0

abbrev credentials : Message
credentials = record { type = login; content = 1 ∷ codes "asecret" }

read_next :
    pending_of env (final (authenticate_callback env 0 credentials world)) 0
    ≡ some (header_read on_read buffer_size)
unfolding authenticate_callback authenticate authenticate_user read_credentials rows same_bytes
    schedule_new_async_read async_read_message send_ack send send_chunk buffer_size type_code
    is_type
read_next = refl

read_again : pending_of env (final (authenticate_callback env 0 credentials world)) 0 ≢ none
read_again e = let no = sym read_next ∙ e in cc

authenticate_callback-LogsIn_example : (login ≡ login) × LogsIn env world credentials
authenticate_callback-LogsIn_example =
    authenticate_callback-LogsIn env world 0 credentials refl read_again

abbrev events : List (Event env)
events = accepts proxy_session (live_pipe (codes "GET")) ∷ completes 0 ∷ cleans (λ i. i) 10 ∷ []

run-launched-Quiet_example :
    let w = run env (launched env sockets (λ j. proxy_session) none 0) events in
    AllRegistered env (Quiet env w) w × AllBridged env (Quiet env w) w
run-launched-Quiet_example =
    run-launched-Quiet env sockets (λ j. proxy_session) none 0 events (λ j. refl)
