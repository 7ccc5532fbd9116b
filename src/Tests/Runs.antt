-- ===== src/Tests/Runs.antt =====
-- The registry's refinement and the streamer's run at concrete inputs.
use screen_viewer.Prelude.{
  ℕ, ◌≡◌, refl, ap, arith, same_bytes, same_bytes_iff, true, false, List, [], ◌∷◌, none, codes, sym,
}
use screen_viewer.Message.{just_a_message}
use screen_viewer.Outcome.{done, final}
use screen_viewer.SessionsManager.Registry.{Call, registers, finds, cleans, resets, run, initial}
use screen_viewer.SessionsManager.{TimedClientSession, Manager, find}
use screen_viewer.SessionsManager.Timeouts.{Distinct}
use screen_viewer.SessionsManager.Order.{SameView, replies-SameView}
use screen_viewer.SessionsManager.Refinement.{Trace, empty, replies, view, run-Trace}
use screen_viewer.Socket.{async_read_message, buffer_size, is_open}
use screen_viewer.IoController.X11.{Screen, x11_io_controller}
use screen_viewer.VideoEncoder.{Codec, sent, encode}
use screen_viewer.Streamer.{schedule_async_poll_io_events, handle_io_events, handle_input}
use screen_viewer.Streamer.Screenshots.{Sender, schedule_async_send_screenshots, complete_write}
use screen_viewer.Streamer.Run.{Event, writes, rounds, run_loop, run as run_streamer}
use screen_viewer.Streamer.Run.Order.{Served, run-Served}
use screen_viewer.Tests.Fixtures.{pipe}

abbrev calls : List Call
calls =
    registers 4 9 ∷ finds (codes "test") ∷ finds (codes "test") ∷ cleans (λ i. i) 10 ∷ resets ∷ []

run-Trace_example : Trace empty (replies initial calls) (view (run initial calls))
run-Trace_example = run-Trace calls

abbrev early : TimedClientSession
early = record { client_session = 1; time_point = 2 }

abbrev late : TimedClientSession
late = record { client_session = 2; time_point = 8 }

abbrev one_order : Manager
one_order = record {
  senders_sessions = (codes "a", early) ∷ (codes "b", late) ∷ [];
  connections_controller = true;
}

abbrev other_order : Manager
other_order = record {
  senders_sessions = (codes "b", late) ∷ (codes "a", early) ∷ [];
  connections_controller = false;
}

apart : same_bytes (codes "b") (codes "a") ≡ false
unfolding same_bytes
apart = refl

apart' : same_bytes (codes "a") (codes "b") ≡ false
unfolding same_bytes
apart' = refl

one_order-Distinct : Distinct one_order.senders_sessions
unfolding find
one_order-Distinct = (rw apart refl, (refl, tt))

other_order-Distinct : Distinct other_order.senders_sessions
unfolding find
other_order-Distinct = (rw apart' refl, (refl, tt))

two_orders : SameView one_order other_order
unfolding find
two_orders j = ground (
  arith,
  same_bytes_iff (codes "a") j,
  same_bytes_iff (codes "b") j,
  apart,
  same_bytes_iff (codes "b") (codes "a"),
)

abbrev steady_calls : List Call
steady_calls = cleans (λ i. 9) 10 ∷ finds (codes "a") ∷ []

replies-SameView_example :
    (replies one_order steady_calls ≡ replies other_order steady_calls)
    × SameView (run one_order steady_calls) (run other_order steady_calls)
replies-SameView_example =
    replies-SameView one_order other_order steady_calls one_order-Distinct other_order-Distinct
      ((λ i. refl), (tt, tt)) two_orders

abbrev screen : Screen
screen = record { x_org = 0; y_org = 0; keysym_to_keycode = λ sym. 38 }

abbrev codec : Codec
codec = record {
  State = ℕ;
  Picture = ℕ;
  Frame = ℕ;
  convert = λ mat. mat;
  send_frame = λ frame pts n. (sent, n);
  receive_packet = λ n. ([], n);
}

abbrev sender : Sender pipe (x11_io_controller screen) codec (λ c. done 7 c)
sender = record {
  streamer = record {
    socket = record {
      stream = record { incoming = []; outgoing = []; live = false };
      data_buffer = [];
      pending = none;
    };
    io_controller = record { queued = []; delivered = [] };
    messages = record { type = just_a_message; content = [] } ∷ [];
  };
  encoder = record { context = 0; framerate = 2; frame_id = 1 };
  sending = none;
}

abbrev events : List Event
events = rounds ∷ writes ∷ rounds ∷ []

abbrev sender_after : Sender pipe (x11_io_controller screen) codec (λ c. done 7 c)
sender_after =
    final (run_streamer pipe (x11_io_controller screen) codec (λ c. done 7 c) events sender)

ran :
    run_streamer pipe (x11_io_controller screen) codec (λ c. done 7 c) events sender
    ≡ done (true, []) sender_after
unfolding run_streamer run_loop schedule_async_poll_io_events async_read_message buffer_size
    schedule_async_send_screenshots encode complete_write handle_io_events is_open handle_input
ran = refl

run-Served_example :
    Served pipe (x11_io_controller screen) sender.streamer true [] sender_after.streamer
run-Served_example =
    run-Served pipe (x11_io_controller screen) codec (λ c. done 7 c) (λ c c' p e. sym (ap final e))
      events sender sender_after true [] ran
