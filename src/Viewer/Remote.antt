-- ===== src/Viewer/Remote.antt =====
-- A button or a key of the viewer reaches the X server of the streamer.
use screen_viewer.Prelude.{
  ℕ, ◌≤◌, ◌<◌, ◌*◌, ◌/◌, ◌^◌, ◌≡◌, ◌≢◌, sym, ◌∙◌, ap, arith, if◌then◌else◌, Bool, true, false, ◌++◌,
  le_bytes, Bytes, Option, some, none, length,
}
use native.Mathlib.Nat.{div-le_self, div-lt_iff_lt-mul, mul-lt-mul_of_pos_right, mul_comm}
use screen_viewer.Message.{
  Message, MouseEventData, mouse_input, mouse_event_bytes, KeyboardEventData, keyboard_event_bytes,
  keyboard_input,
}
use screen_viewer.Mouse.{convert_to_mask, set_clicked}
use screen_viewer.Mouse.Buttons.{x11_button, Reads, convert_to_mask-Reads}
use screen_viewer.Outcome.{Outcome, done, thrown, after-eq-done}
use screen_viewer.Transport.{Transport, Lawful}
use screen_viewer.Socket.{Socket, receive, buffer_size, send_mouse_event, send_keyboard_event}
use screen_viewer.Socket.Delivery.{Holds, Gets, send-receive}
use screen_viewer.IoController.X11.{
  Screen, x11_io_controller, button_event, key_event, handle_keyboard_event-key, x_flush,
  x_test_fake, handle_mouse_event-button,
}
use screen_viewer.Streamer.{Streamer, handle_input}
use screen_viewer.Streamer.Input.{mouse, keyboard, handle_input-message_of}
use screen_viewer.Viewer.{
  Viewer, scaled, mouse_button, key, handle_event, send_mouse, with_socket, defined,
}

scaled-eq-some :
    (c frame window r : ℕ)
    → scaled c frame window ≡ some r
    → (0 < window) × (c * frame < 2 ^ 31) × (r ≡ c * frame / window)
unfolding scaled
scaled-eq-some c frame window r h = ground arith

scaled-lt : (c frame window r : ℕ) → scaled c frame window ≡ some r → r < 2 ^ 31
scaled-lt c frame window r h =
    let (_, small, e) = scaled-eq-some c frame window r h in
    omega (arith, div-le_self (c * frame) window)

-- A coordinate inside the window is sent as one inside the frame, if the frame is not empty and
-- the code's arithmetic is defined, so that neither the window is empty nor the product overflows.
pub scaled-inside :
    (c frame window r : ℕ) → c < window → 0 < frame → scaled c frame window ≡ some r → r < frame
scaled-inside c frame window r inside some_frame h =
    let (some_window, small, e) = scaled-eq-some c frame window r h in
    let below : c * frame < frame * window =
      omega (arith, mul-lt-mul_of_pos_right inside some_frame, mul_comm window frame) in
    let div : c * frame / window < frame = (div-lt_iff_lt-mul some_window).1 below in
    omega (arith, e, div)

mouse_event_fits : (e : MouseEventData) → length (mouse_event_bytes e) ≤ buffer_size
unfolding mouse_event_bytes buffer_size le_bytes
mouse_event_fits e = omega arith

keyboard_event_fits : (e : KeyboardEventData) → length (keyboard_event_bytes e) ≤ buffer_size
unfolding keyboard_event_bytes buffer_size le_bytes
keyboard_event_fits e = omega arith

module _ (t : Transport) (law : Lawful t) (sdl_key_sym_to_x11 : ℕ → ℕ) where
  open law use {outgoing}

  with_socket-eq-done :
      (v v' : Viewer t) (o : Outcome (Socket t (Unit {0})) (Unit {0}))
      → with_socket t sdl_key_sym_to_x11 v o ≡ done tt v'
      → o ≡ done tt v'.socket
  with_socket-eq-done v v' (done a s) h = ground arith
  with_socket-eq-done v v' (thrown e s) h = cc

  defined-eq-done :
      (v v' : Viewer t) (o : Option ℕ) (n : ℕ)
      → defined t sdl_key_sym_to_x11 o v ≡ done n v'
      → (o ≡ some n) × (v ≡ v')
  defined-eq-done v v' (some m) n h = ground arith
  defined-eq-done v v' none n h = cc

  -- What a button event sends, where it is defined.
  button_sends :
      (interval now sent_at : ℕ) (down : Bool) (sdl x y mask : ℕ) (v v' : Viewer t)
      → convert_to_mask sdl ≡ some mask
      → handle_event t sdl_key_sym_to_x11 interval now sent_at (mouse_button down sdl x y) v
        ≡ done tt v'
      → (x' y' : ℕ) × (x' < 2 ^ 32)
        × (y' < 2 ^ 32)
        × (send_mouse_event t mouse_input
              (record { button_mask = if down then set_clicked mask else mask; x = x'; y = y' })
              v.socket
            ≡ done tt v'.socket)
  unfolding handle_event send_mouse
  button_sends interval now sent_at down sdl x y mask v v' masked e =
      let (x', v1, ex, e1) =
        after-eq-done (defined t sdl_key_sym_to_x11 (scaled x v.frame_width v.window_width) v) _
          e in
      let (someX, same1) = defined-eq-done v v1 (scaled x v.frame_width v.window_width) x' ex in
      let (y', v2, ey, e2) =
        after-eq-done (defined t sdl_key_sym_to_x11 (scaled y v1.frame_height v1.window_height) v1)
          _ e1 in
      let (someY, same2) =
        defined-eq-done v1 v2 (scaled y v1.frame_height v1.window_height) y' ey in
      let (mask', v3, em, e3) =
        after-eq-done (defined t sdl_key_sym_to_x11 (convert_to_mask sdl) v2) _ e2 in
      let (someM, same3) = defined-eq-done v2 v3 (convert_to_mask sdl) mask' em in
      let masks : mask' ≡ mask = cc in
      let still : v3 ≡ v = cc in
      let bound_x = scaled-lt x v.frame_width v.window_width x' someX in
      let bound_y = scaled-lt y v1.frame_height v1.window_height y' someY in
      let sends = λ (k : ℕ) (u : Viewer t).
        send_mouse_event t {H = Unit {0}} mouse_input
          (record { button_mask = if down then set_clicked k else k; x = x'; y = y' }) u.socket in
      (
        x',
        y',
        omega (arith, bound_x),
        omega (arith, bound_y),
        ap (λ k. sends k v) (sym masks)
            ∙ ap (λ u. sends mask' u) (sym still)
            ∙ with_socket-eq-done v3 v' _ e3,
      )

  Reads-down :
      (sdl mask : ℕ) (down : Bool)
      → Reads sdl false mask
      → Reads sdl true (set_clicked mask)
      → Reads sdl down (if down then set_clicked mask else mask)
  Reads-down sdl mask true up held = held
  Reads-down sdl mask false up held = up

  -- What the streamer does with the message of such an event.
  injected :
      (screen : Screen) (sdl mask x y : ℕ) (down : Bool) (s : Streamer t (x11_io_controller screen))
      → 1 ≤ sdl
      → sdl ≤ 5
      → Reads sdl down mask
      → x < 2 ^ 32
      → y < 2 ^ 32
      → handle_input t
          (x11_io_controller screen)
          (record {
            type = mouse_input;
            content = mouse_event_bytes (record { button_mask = mask; x = x; y = y });
          })
          s
        ≡ done tt (record s {
          io_controller =
              x_flush (x_test_fake (button_event (x11_button sdl) down) s.io_controller);
        })
  injected screen sdl mask x y down s lo hi reads bx by =
      let event : MouseEventData = record { button_mask = mask; x = x; y = y } in
      let display = x_flush (x_test_fake (button_event (x11_button sdl) down) s.io_controller) in
      let there =
        handle_mouse_event-button screen event (x11_button sdl) down s.io_controller reads.no_move
          reads.button (ground arith) reads.no_scroll reads.held in
      handle_input-message_of t (x11_io_controller screen) (mouse event) s display
        (omega (arith, reads.fits), bx, by) (ap (λ d. done tt d) there)

  -- When the viewer has handled a press or a release of one of the five SDL buttons without an
  -- exception, the bytes that it has sent are one message. Any open socket at which they have
  -- arrived, with anything behind them, receives that message, and the streamer that handles it
  -- gives its X server one event: the press or the release of the matching button.
  pub mouse_button-reaches :
      (interval now sent_at : ℕ) (down : Bool) (sdl x y : ℕ) (v v' : Viewer t) (sent rest : Bytes)
      (r : Socket t (Unit {0})) (screen : Screen)
      → 1 ≤ sdl
      → sdl ≤ 5
      → handle_event t sdl_key_sym_to_x11 interval now sent_at (mouse_button down sdl x y) v
        ≡ done tt v'
      → outgoing v'.socket.stream ≡ outgoing v.socket.stream ++ sent
      → Holds t law (sent ++ rest) r
      → (message : Message) × Gets t law (receive t r) message rest
        × ((s : Streamer t (x11_io_controller screen))
            → handle_input t (x11_io_controller screen) message s
              ≡ done tt (record s {
                io_controller =
                    x_flush (x_test_fake (button_event (x11_button sdl) down) s.io_controller);
              }))
  unfolding send_mouse_event
  mouse_button-reaches interval now sent_at down sdl x y v v' sent rest r screen lo hi e out held =
      let (mask, masked, up, pressed) = convert_to_mask-Reads sdl lo hi in
      let (x', y', bx, by, sends) =
        button_sends interval now sent_at down sdl x y mask v v' masked e in
      let event : MouseEventData = record {
        button_mask = if down then set_clicked mask else mask;
        x = x';
        y = y';
      } in
      let message : Message = record { type = mouse_input; content = mouse_event_bytes event } in
      (
        message,
        send-receive t law message v.socket v'.socket r sent rest (mouse_event_fits event) sends out
            held,
        λ s.
            injected screen sdl event.button_mask x' y' down s lo hi
              (Reads-down sdl mask down up pressed) bx by,
      )

  -- When the viewer has handled a key event without an exception, the bytes that it has sent are
  -- one message. Any open socket at which they have arrived, with anything behind them, receives
  -- that message. If the X11 symbol of the key fits 32 bits and some key of the streamer's
  -- keyboard has it, the streamer that handles the message gives its X server one event: the press
  -- or the release of that key.
  pub key-reaches :
      (interval now sent_at : ℕ) (down : Bool) (sym : ℕ) (v v' : Viewer t) (sent rest : Bytes)
      (r : Socket t (Unit {0})) (screen : Screen)
      → sdl_key_sym_to_x11 sym < 2 ^ 32
      → screen.keysym_to_keycode (sdl_key_sym_to_x11 sym) ≢ 0
      → handle_event t sdl_key_sym_to_x11 interval now sent_at (key down sym) v ≡ done tt v'
      → outgoing v'.socket.stream ≡ outgoing v.socket.stream ++ sent
      → Holds t law (sent ++ rest) r
      → (message : Message) × Gets t law (receive t r) message rest
        × ((s : Streamer t (x11_io_controller screen))
            → handle_input t (x11_io_controller screen) message s
              ≡ done tt (record s {
                io_controller = x_flush (
                    x_test_fake
                      (key_event (screen.keysym_to_keycode (sdl_key_sym_to_x11 sym)) down)
                      s.io_controller);
              }))
  unfolding send_keyboard_event handle_event
  key-reaches interval now sent_at down sym v v' sent rest r screen word some_key e out held =
      let event : KeyboardEventData = record { down = down; key = sdl_key_sym_to_x11 sym } in
      let message : Message = record {
        type = keyboard_input;
        content = keyboard_event_bytes event;
      } in
      (
        message,
        send-receive t law message v.socket v'.socket r sent rest (keyboard_event_fits event)
            (with_socket-eq-done v v' _ e) out held,
        λ s.
            handle_input-message_of t (x11_io_controller screen) (keyboard event) s _ word (
              ap (λ d. done tt d)
                (handle_keyboard_event-key screen event s.io_controller some_key)),
      )
