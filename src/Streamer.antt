-- ===== src/Streamer.antt =====
-- include/streamer/ScreenViewerStreamer.hpp and src/streamer/ScreenViewerStreamer.cpp: the side whose
-- screen is shown. The io_context's thread queues the messages that arrive, the main thread passes them
-- on to the controller.
pub mod Input
pub mod Screenshots
pub mod Encoder
pub mod Run
use screen_viewer.Prelude.{ℕ, Bool, List, [], ◌∷◌, ◌++◌, Option, none, some}
use screen_viewer.Message.{
  MessageType, Message, Checked, keyboard_input, mouse_input, convert_to_keyboard, convert_to_mouse,
  KeyboardEventData, MouseEventData,
}
use screen_viewer.Outcome.{
  Exception, message_type_exception, Outcome, done, thrown, M, after, ◌>>=◌, ◌>>◌, give, or_throw,
}
use screen_viewer.Transport.{Transport}
use screen_viewer.Socket.{Socket, buffer_size, async_read_message, poll}
use screen_viewer.IoController.{IoController}

module _ (t : Transport) (io : IoController) where
  -- The socket has one kind of handler, the lambda of `scheduleAsyncPollIOEvents`.
  pub record Streamer : Type 0 where
    pub socket : Socket t (Unit {0})
    pub io_controller : io.State
    pub messages : List Message

  abbrev with_socket {κ} :
      {A : Type κ} → Streamer → Outcome (Socket t (Unit {0})) A → Outcome Streamer A
  with_socket s (done a x) = done a (record s { socket = x })
  with_socket s (thrown e x) = thrown e (record s { socket = x })

  abbrev on_socket {κ} : {A : Type κ} → M (Socket t (Unit {0})) A → M Streamer A
  on_socket m s = with_socket s (m s.socket)

  abbrev with_controller {κ} : {A : Type κ} → Streamer → Outcome io.State A → Outcome Streamer A
  with_controller s (done a x) = done a (record s { io_controller = x })
  with_controller s (thrown e x) = thrown e (record s { io_controller = x })

  abbrev on_controller {κ} : {A : Type κ} → M io.State A → M Streamer A
  on_controller m s = with_controller s (m s.io_controller)

  unfoldable pub schedule_async_poll_io_events : M Streamer (Unit {0})
  schedule_async_poll_io_events = on_socket (async_read_message t tt buffer_size)

  -- The lambda.
  pub message_arrived : Message → M Streamer (Unit {0})
  message_arrived message s =
      schedule_async_poll_io_events (record s { messages = s.messages ++ message ∷ [] })

  pub handler_called : Option (Unit {0} × Message) → M Streamer (Unit {0})
  handler_called none = give tt
  handler_called (some (_, message)) = message_arrived message

  -- One completed read on the io_context's thread.
  pub poll_io_events : M Streamer (Unit {0})
  unfolding handler_called
  poll_io_events = do called ← on_socket (poll t); handler_called called

  input_of_type : MessageType → Message → M Streamer (Unit {0})
  input_of_type keyboard_input message = do
    event ← or_throw message_type_exception (convert_to_keyboard message)
    on_controller (io.handle_keyboard_event event)
  input_of_type mouse_input message = do
    event ← or_throw message_type_exception (convert_to_mouse message)
    on_controller (io.handle_mouse_event event)
  input_of_type _ message = give tt

  unfoldable pub handle_input : Message → M Streamer (Unit {0})
  unfolding input_of_type
  handle_input message = input_of_type message.type message

  -- The loop over `try_pop`: `messages` are those still queued.
  pop_loop : List Message → M Streamer (Unit {0})
  pop_loop [] s = done tt (record s { messages = [] })
  pop_loop (message ∷ messages) s =
      after (handle_input message (record s { messages = messages })) (λ _. pop_loop messages)

  unfoldable pub handle_io_events : M Streamer (Unit {0})
  unfolding pop_loop
  handle_io_events s = pop_loop s.messages s
