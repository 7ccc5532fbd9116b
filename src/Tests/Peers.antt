-- ===== src/Tests/Peers.antt =====
-- The two peers of a session, and the bridge between them, at concrete inputs.
use screen_viewer.Prelude.{
  ◌≡◌, refl, arith, some, none, true, false, [], ◌∷◌, ◌++◌, List, Bytes, map, le_bytes,
}
use screen_viewer.Message.{
  Message, MouseEventData, ack, mouse_input, keyboard_input, wrong_size, mouse_event_size,
  mouse_event_bytes, keyboard_event_bytes,
}
use screen_viewer.Mouse.{convert_to_mask, set_clicked}
use screen_viewer.Outcome.{Exception, done, thrown, message_type_exception}
use screen_viewer.Socket.{
  Socket, header_read, buffer_size, send, send_chunk, receive, send_mouse_event,
  send_keyboard_event,
}
use screen_viewer.Socket.Framing.{frame, message_frames}
use screen_viewer.Socket.Delivery.{Gets}
use screen_viewer.Bridge.{Bridge, close}
use screen_viewer.Bridge.Closing.{close_never_closes_two}
use screen_viewer.Bridge.Relay.{Relayed, run, run-Relayed, upstream, downstream}
use screen_viewer.IoController.X11.{
  Display, Screen, motion_event, button_event, key_event, x_flush, x_test_fake, x11_io_controller,
  handle_mouse_event,
}
use screen_viewer.Streamer.{Streamer, handle_input, handle_io_events}
use screen_viewer.Streamer.Input.{
  Input, mouse, message_of, inject_all, Polls, poll_times, poll_times-queues,
  handle_io_events-inject_all, handle_io_events-wrong_size,
}
use screen_viewer.Viewer.{Viewer, scaled, mouse_button, key, handle_event}
use screen_viewer.Viewer.Remote.{mouse_button-reaches, key-reaches}
use screen_viewer.Tests.Fixtures.{Pipe, pipe, pipe-Lawful}

abbrev live_pipe : Bytes → Bytes → Pipe
live_pipe incoming outgoing = record { incoming = incoming; outgoing = outgoing; live = true }

abbrev bridge : Bytes → Bytes → Bridge pipe
bridge to_one to_two = record {
  peer_one = live_pipe [] to_one;
  peer_two = live_pipe [] to_two;
  server_buffer = [];
  client_buffer = [];
  reads_upstream = true;
  reads_downstream = true;
}

run-Relayed_example :
    (b' : Bridge pipe) × (run pipe
        (upstream (1 ∷ 2 ∷ []) ∷ downstream (3 ∷ []) ∷ [])
        (bridge [] (9 ∷ []))
      ≡ done tt b')
    × Relayed pipe pipe-Lawful (bridge [] (9 ∷ [])) (1 ∷ 2 ∷ []) (3 ∷ []) b'
run-Relayed_example =
    run-Relayed pipe pipe-Lawful (λ bytes x. (record x { outgoing = x.outgoing ++ bytes }, refl))
      (upstream (1 ∷ 2 ∷ []) ∷ downstream (3 ∷ []) ∷ []) (bridge [] (9 ∷ []))

close_never_closes_two_example :
    (e : Exception) × (b' : Bridge pipe) × (close pipe (bridge [] []) ≡ thrown e b')
    × (b'.peer_two ≡ live_pipe [] [])
close_never_closes_two_example = close_never_closes_two pipe pipe-Lawful (bridge [] []) refl

abbrev client : Bytes → Socket pipe (Unit {0})
client bytes = record { stream = live_pipe bytes []; data_buffer = []; pending = none }

abbrev sent_by : Bytes → Socket pipe (Unit {0})
sent_by bytes = record { stream = live_pipe [] bytes; data_buffer = []; pending = none }

abbrev acknowledgement : Message
acknowledgement = record { type = ack; content = [] }

abbrev screen : Screen
screen = record { x_org = 0; y_org = 0; keysym_to_keycode = λ sym. 38 }

abbrev streamer : List Message → Bytes → Streamer pipe (x11_io_controller screen)
streamer messages bytes = record {
  socket = record (client bytes) { pending = some (header_read tt buffer_size) };
  io_controller = record { queued = []; delivered = [] };
  messages = messages;
}

abbrev click : MouseEventData
click = record { button_mask = 33; x = 400; y = 300 }

poll_times-queues_example :
    (s' : Streamer pipe (x11_io_controller screen)) × (poll_times pipe pipe-Lawful
        (x11_io_controller screen)
        1
        (streamer [] (message_frames (acknowledgement ∷ []) ++ []))
      ≡ done tt s')
    × Polls pipe pipe-Lawful (x11_io_controller screen) [] s'
    × (s'.messages ≡ acknowledgement ∷ [])
    × (s'.io_controller ≡ record { queued = []; delivered = [] })
poll_times-queues_example =
    poll_times-queues pipe pipe-Lawful (x11_io_controller screen) (acknowledgement ∷ []) []
      (streamer [] (message_frames (acknowledgement ∷ []) ++ [])) (omega arith, tt)
      (refl, (refl, refl))

abbrev click_display : Display
click_display = record { queued = []; delivered = motion_event 5 6 ∷ [] }

abbrev moves : List Input
moves = mouse (record { button_mask = 0; x = 5; y = 6 }) ∷ []

moved :
    inject_all (x11_io_controller screen) moves (record { queued = []; delivered = [] })
    ≡ done tt click_display
unfolding handle_mouse_event
moved = refl

handle_io_events-inject_all_example :
    handle_io_events pipe (x11_io_controller screen) (streamer (map message_of moves) [])
    ≡ done tt (record (streamer [] []) { io_controller = click_display })
handle_io_events-inject_all_example =
    handle_io_events-inject_all pipe (x11_io_controller screen) moves
      (streamer (map message_of moves) []) click_display
      ((omega arith, omega arith, omega arith), tt) refl moved

abbrev short : Message
short = record { type = mouse_input; content = 1 ∷ [] }

handle_io_events-wrong_size_example :
    handle_io_events pipe
      (x11_io_controller screen)
      (streamer (map message_of moves ++ short ∷ acknowledgement ∷ []) [])
    ≡ thrown
        (message_type_exception (wrong_size 1 mouse_event_size))
        (record (streamer (acknowledgement ∷ []) []) { io_controller = click_display })
handle_io_events-wrong_size_example =
    handle_io_events-wrong_size pipe (x11_io_controller screen) moves (1 ∷ [])
      (acknowledgement ∷ []) (streamer (map message_of moves ++ short ∷ acknowledgement ∷ []) [])
      click_display ((omega arith, omega arith, omega arith), tt) (λ e. absurd (omega (arith, e)))
      refl moved

abbrev viewer : Socket pipe (Unit {0}) → Viewer pipe
viewer socket = record {
  socket = socket;
  window_width = 800;
  window_height = 600;
  frame_width = 1600;
  frame_height = 1200;
  last_pos_update = none;
}

abbrev click_frame : Bytes
click_frame = frame mouse_input (mouse_event_bytes (record { button_mask = 33; x = 400; y = 300 }))

clicked :
    handle_event pipe (λ sym. sym) 50 0 0 (mouse_button true 1 200 150) (viewer (client []))
    ≡ done tt (viewer (sent_by click_frame))
unfolding handle_event scaled convert_to_mask set_clicked send_mouse_event send send_chunk
    buffer_size mouse_event_bytes le_bytes
clicked = refl

mouse_button-reaches_example :
    (message : Message) × Gets pipe pipe-Lawful
      (receive pipe (client (click_frame ++ [])))
      message
      []
    × ((s : Streamer pipe (x11_io_controller screen))
        → handle_input pipe (x11_io_controller screen) message s
          ≡ done tt (record s {
            io_controller = x_flush (x_test_fake (button_event 1 true) s.io_controller);
          }))
mouse_button-reaches_example =
    mouse_button-reaches pipe pipe-Lawful (λ sym. sym) 50 0 0 true 1 200 150 (viewer (client []))
      (viewer (sent_by click_frame)) click_frame [] (client (click_frame ++ [])) screen
      (omega arith) (omega arith) clicked refl (refl, refl)

abbrev key_frame : Bytes
key_frame = frame keyboard_input (keyboard_event_bytes (record { down = false; key = 97 }))

typed :
    handle_event pipe (λ sym. sym) 50 0 0 (key false 97) (viewer (client []))
    ≡ done tt (viewer (sent_by key_frame))
unfolding handle_event send_keyboard_event send send_chunk buffer_size keyboard_event_bytes le_bytes
typed = refl

key-reaches_example :
    (message : Message) × Gets pipe pipe-Lawful (receive pipe (client (key_frame ++ []))) message []
    × ((s : Streamer pipe (x11_io_controller screen))
        → handle_input pipe (x11_io_controller screen) message s
          ≡ done tt (record s {
            io_controller = x_flush (x_test_fake (key_event 38 false) s.io_controller);
          }))
key-reaches_example =
    key-reaches pipe pipe-Lawful (λ sym. sym) 50 0 0 false 97 (viewer (client []))
      (viewer (sent_by key_frame)) key_frame [] (client (key_frame ++ [])) screen (omega arith)
      (λ e. absurd (omega (arith, e))) typed refl (refl, refl)
