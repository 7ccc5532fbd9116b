-- ===== src/Streamer/Input.antt =====
-- What the controller is given for the messages that arrive.
use screen_viewer.Prelude.{
  ℕ, zero, suc, ◌^◌, ◌<◌, ◌≤◌, ◌≡◌, ◌≢◌, le→ltb_false, refl, sym, ◌∙◌, ap, arith, List, [], ◌∷◌,
  ◌++◌, append_assoc, append-nil, map, All, Bytes, length, some,
}
use screen_viewer.Message.{
  Message, KeyboardEventData, MouseEventData, keyboard_input, mouse_input, keyboard_event_bytes,
  mouse_event_bytes, wrong_size, mouse_event_size, convert_to_mouse, err,
}
use screen_viewer.Message.Events.{
  convert_to_keyboard-keyboard_event_bytes, convert_to_mouse-mouse_event_bytes,
  convert_to_mouse-wrong_size,
}
use screen_viewer.Outcome.{message_type_exception, done, thrown, M, ◌>>◌, give, after-eq-done}
use screen_viewer.Transport.{Transport, Lawful}
use screen_viewer.Socket.{header_read, buffer_size, async_read_message}
use screen_viewer.Socket.Framing.{frame, message_frames}
use screen_viewer.Socket.Delivery.{Holds}
use screen_viewer.Socket.Async.{poll_delivers}
use screen_viewer.IoController.{IoController}
use screen_viewer.Streamer.{
  Streamer, handle_io_events, handle_input, pop_loop, poll_io_events, input_of_type, handler_called,
  message_arrived, schedule_async_poll_io_events,
}

pub data Input : Type 0 where
  keyboard : KeyboardEventData → Input
  mouse : MouseEventData → Input

abbrev pub message_of : Input → Message
message_of (keyboard e) = record { type = keyboard_input; content = keyboard_event_bytes e }
message_of (mouse e) = record { type = mouse_input; content = mouse_event_bytes e }

-- The fields fit their integers.
abbrev pub InRange : Input → Type 0
InRange (keyboard e) = e.key < 2 ^ 32
InRange (mouse e) = (e.button_mask < 2 ^ 32) × (e.x < 2 ^ 32) × (e.y < 2 ^ 32)

abbrev pub inject : (io : IoController) → Input → M io.State (Unit {0})
inject io (keyboard e) = io.handle_keyboard_event e
inject io (mouse e) = io.handle_mouse_event e

abbrev pub inject_all : (io : IoController) → List Input → M io.State (Unit {0})
inject_all io [] = give tt
inject_all io (i ∷ is) = do inject io i; inject_all io is

module _ (t : Transport) (io : IoController) where
  pub handle_input-message_of :
      (i : Input) (s : Streamer t io) (c : io.State)
      → InRange i
      → inject io i s.io_controller ≡ done tt c
      → handle_input t io (message_of i) s ≡ done tt (record s { io_controller = c })
  unfolding handle_input input_of_type
  handle_input-message_of (keyboard e) s c fits does =
      rw (convert_to_keyboard-keyboard_event_bytes e keyboard_input fits, does)
  handle_input-message_of (mouse e) s c (fm, fx, fy) does =
      rw (convert_to_mouse-mouse_event_bytes e mouse_input fm fx fy, does)

  pop_loop-messages :
      (rest queued : List Message) (s : Streamer t io)
      → pop_loop t io rest (record s { messages = queued }) ≡ pop_loop t io rest s
  unfolding pop_loop
  pop_loop-messages [] queued s = refl
  pop_loop-messages (m ∷ rest) queued s = refl

  -- The loop over a queue with these inputs in front.
  pop_loop-inputs :
      (is : List Input) (rest : List Message) (s : Streamer t io) (c : io.State)
      → All InRange is
      → inject_all io is s.io_controller ≡ done tt c
      → pop_loop t io (map message_of is ++ rest) s
        ≡ pop_loop t io rest (record s { io_controller = c })
  unfolding pop_loop
  pop_loop-inputs [] rest s c fits does =
      let same : s.io_controller ≡ c = cc in
      ap (λ k. pop_loop t io rest (record s { io_controller = k })) same
  pop_loop-inputs (i ∷ is) rest s c fits does =
      let (_, c1, first, then_all) =
        after-eq-done (inject io i s.io_controller) (λ _. inject_all io is) does in
      let queue = map message_of is ++ rest in
      let handled = handle_input-message_of i (record s { messages = queue }) c1 fits.0 first in
      rw handled (
        pop_loop-inputs is rest (record s { io_controller = c1; messages = queue }) c fits.1
          then_all
        ∙ pop_loop-messages rest queue (record s { io_controller = c }))

  -- When the queue holds the messages of some inputs, each of 32-bit fields, and the controller
  -- takes them one after the other without an exception, then `handleIOEvents` has given it
  -- exactly these inputs in their order, and the queue is empty.
  pub handle_io_events-inject_all :
      (is : List Input) (s : Streamer t io) (c : io.State)
      → All InRange is
      → s.messages ≡ map message_of is
      → inject_all io is s.io_controller ≡ done tt c
      → handle_io_events t io s ≡ done tt (record s { io_controller = c; messages = [] })
  unfolding handle_io_events pop_loop
  handle_io_events-inject_all is s c fits queued does =
      ap (λ q. pop_loop t io q s) (queued ∙ sym (append-nil (map message_of is)))
      ∙ pop_loop-inputs is [] s c fits does

  -- When the queue holds the messages of some inputs of 32-bit fields, which the controller takes
  -- without an exception, and behind them a mouse message of a wrong size, `handleIOEvents` ends
  -- with the exception for this size. The inputs have been given to the controller then, and the
  -- messages behind the wrong one stay queued.
  pub handle_io_events-wrong_size :
      (is : List Input) (content : Bytes) (rest : List Message) (s : Streamer t io) (c : io.State)
      → All InRange is
      → length content ≢ mouse_event_size
      → s.messages ≡ map message_of is ++ record { type = mouse_input; content = content } ∷ rest
      → inject_all io is s.io_controller ≡ done tt c
      → handle_io_events t io s
        ≡ thrown
            (message_type_exception (wrong_size (length content) mouse_event_size))
            (record s { io_controller = c; messages = rest })
  unfolding handle_io_events pop_loop handle_input input_of_type
  handle_io_events-wrong_size is content rest s c fits size queued does =
      let bad : Message = record { type = mouse_input; content = content } in
      let no : convert_to_mouse bad ≡ err (wrong_size (length content) mouse_event_size) =
        convert_to_mouse-wrong_size bad size in
      ap (λ q. pop_loop t io q s) queued
      ∙ pop_loop-inputs is (bad ∷ rest) s c fits does
      ∙ rw no refl

buffer_size-lt : buffer_size < 2 ^ 64
unfolding buffer_size
buffer_size-lt = omega arith

module _ (t : Transport) (law : Lawful t) (io : IoController) where
  -- The read that `scheduleAsyncPollIOEvents` leaves is outstanding, and these bytes have arrived.
  abbrev pub Polls : Bytes → Streamer t io → Type 0
  Polls bytes s =
      (s.socket.pending ≡ some (header_read tt buffer_size)) × Holds t law bytes s.socket

  unfoldable pub poll_twice : M (Streamer t io) (Unit {0})
  poll_twice = do poll_io_events t io; poll_io_events t io

  unfoldable pub poll_times : ℕ → M (Streamer t io) (Unit {0})
  poll_times zero = give tt
  poll_times (suc n) = do poll_twice; poll_times n

  poll_io_events-message :
      (m : Message) (rest : Bytes) (s : Streamer t io)
      → length m.content ≤ buffer_size
      → Polls (frame m.type m.content ++ rest) s
      → (s' : Streamer t io) × (poll_twice s ≡ done tt s')
        × Polls rest s'
        × (s'.messages ≡ s.messages ++ m ∷ [])
        × (s'.io_controller ≡ s.io_controller)
  unfolding poll_twice poll_io_events handler_called message_arrived schedule_async_poll_io_events
      async_read_message
  poll_io_events-message m rest s fits polls =
      let word = buffer_size-lt in
      let again = le→ltb_false buffer_size buffer_size (omega arith) in
      let (s1, s2, e1, e2, quiet, held) =
        poll_delivers t law tt buffer_size m rest s.socket polls.0 fits word polls.1 in
      (
        record s {
          socket = record s2 { pending = some (header_read tt buffer_size) };
          messages = s.messages ++ m ∷ [];
        },
        rw (e1, e2, again),
        (refl, held),
        refl,
        refl,
      )

  message_frames-cons :
      (m : Message) (ms : List Message) (rest : Bytes)
      → message_frames (m ∷ ms) ++ rest ≡ frame m.type m.content ++ (message_frames ms ++ rest)
  message_frames-cons m ms rest = append_assoc (frame m.type m.content) (message_frames ms) rest

  -- With a read outstanding and these messages arrived, each at most as long as the buffer, two
  -- completions for each queue them all in their order, behind what was queued. The controller
  -- is not touched, and again a read is outstanding.
  pub poll_times-queues :
      (ms : List Message) (rest : Bytes) (s : Streamer t io)
      → All (λ m. length m.content ≤ buffer_size) ms
      → Polls (message_frames ms ++ rest) s
      → (s' : Streamer t io) × (poll_times (length ms) s ≡ done tt s')
        × Polls rest s'
        × (s'.messages ≡ s.messages ++ ms)
        × (s'.io_controller ≡ s.io_controller)
  unfolding poll_times
  poll_times-queues [] rest s fits polls = (s, refl, polls, sym (append-nil s.messages), refl)
  poll_times-queues (m ∷ ms) rest s fits polls =
      let polls' : Polls (frame m.type m.content ++ (message_frames ms ++ rest)) s =
        (polls.0, (polls.1.0, polls.1.1 ∙ message_frames-cons m ms rest)) in
      let (s1, e1, polls1, queue1, same1) =
        poll_io_events-message m (message_frames ms ++ rest) s fits.0 polls' in
      let (s2, e2, polls2, queue2, same2) = poll_times-queues ms rest s1 fits.1 polls1 in
      (
        s2,
        rw (e1, e2),
        polls2,
        queue2 ∙ ap (λ q. q ++ ms) queue1 ∙ append_assoc s.messages (m ∷ []) ms,
        same2 ∙ same1,
      )
