-- ===== src/Viewer.antt =====
-- src/ScreenViewerClient.cpp: how the viewer's window sends the events of its user. Coordinates of the
-- window are natural numbers; SDL and the clock are arguments. Loop has the rendering.
pub mod Remote
pub mod Keeps
pub mod Loop
pub mod Window
pub mod Screen
pub mod Members
use screen_viewer.Prelude.{
  ℕ, ◌+◌, ◌-◌, ◌*◌, ◌/◌, ◌^◌, ◌==◌, ltb, leb, if◌then◌else◌, Bool, true, false, ◌||◌, List, [], ◌∷◌,
  Option, none, some,
}
use screen_viewer.Message.{
  MessageType, mouse_input, keyboard_input, MouseEventData, KeyboardEventData,
}
use screen_viewer.Mouse.{move, scroll_up_mask, scroll_down_mask, convert_to_mask, set_clicked}
use screen_viewer.Outcome.{
  Exception, undefined, exited, Outcome, done, thrown, M, after, ◌>>=◌, ◌>>◌, give, throw,
}
use screen_viewer.Transport.{Transport}
use screen_viewer.Socket.{Socket, send_mouse_event, send_keyboard_event}

-- An `SDL_Event` of the kinds that the switch names. A wheel event says whether it goes up.
pub data SdlEvent : Type 0 where
  mouse_motion : ℕ → ℕ → SdlEvent
  mouse_wheel : Bool → SdlEvent
  mouse_button : Bool → ℕ → ℕ → ℕ → SdlEvent
  key : Bool → ℕ → SdlEvent
  window_resized : ℕ → ℕ → SdlEvent
  quit other_event : SdlEvent

pub record Viewer (t : Transport) : Type 0 where
  pub socket : Socket t (Unit {0})
  pub window_width : ℕ
  pub window_height : ℕ
  pub frame_width : ℕ
  pub frame_height : ℕ
  -- The function's static variable, in milliseconds; the first motion sets it.
  pub last_pos_update : Option ℕ

-- `coordinate * frame / window` on `int`s: a division by zero and an overflow are undefined.
unfoldable pub scaled : ℕ → ℕ → ℕ → Option ℕ
scaled coordinate frame window =
    if window == 0 || leb (2 ^ 31) (coordinate * frame)
    then none
    else some (coordinate * frame / window)

module _ (t : Transport) (sdl_key_sym_to_x11 : ℕ → ℕ) where
  abbrev with_socket {κ} :
      {A : Type κ} → Viewer t → Outcome (Socket t (Unit {0})) A → Outcome (Viewer t) A
  with_socket v (done a s) = done a (record v { socket = s })
  with_socket v (thrown e s) = thrown e (record v { socket = s })

  abbrev on_socket {κ} : {A : Type κ} → M (Socket t (Unit {0})) A → M (Viewer t) A
  on_socket m v = with_socket v (m v.socket)

  -- A value that the code computes, where it is defined.
  abbrev defined : Option ℕ → M (Viewer t) ℕ
  defined (some n) = give n
  defined none = throw undefined

  abbrev scaled_x : ℕ → M (Viewer t) ℕ
  scaled_x x v = defined (scaled x v.frame_width v.window_width) v

  abbrev scaled_y : ℕ → M (Viewer t) ℕ
  scaled_y y v = defined (scaled y v.frame_height v.window_height) v

  send_mouse : ℕ → ℕ → ℕ → M (Viewer t) (Unit {0})
  send_mouse button_mask x y =
      on_socket
        (send_mouse_event t mouse_input (record { button_mask = button_mask; x = x; y = y }))

  moved : ℕ → ℕ → ℕ → M (Viewer t) (Unit {0})
  unfolding send_mouse
  moved sent_at x y = do
    x' ← scaled_x x
    y' ← scaled_y y
    send_mouse move x' y'
    λ v. done tt (record v { last_pos_update = some sent_at })

  motion_after : ℕ → ℕ → ℕ → ℕ → ℕ → ℕ → M (Viewer t) (Unit {0})
  unfolding moved
  motion_after last interval now sent_at x y v =
      if ltb interval (now - last)
      then moved sent_at x y v
      else done tt (record v { last_pos_update = some last })

  motion_since : Option ℕ → ℕ → ℕ → ℕ → ℕ → ℕ → M (Viewer t) (Unit {0})
  unfolding motion_after
  motion_since none interval now = motion_after now interval now
  motion_since (some last) interval now = motion_after last interval now

  -- The body of the loop. `now` is the time at the switch and `sent_at` that after a motion has been
  -- sent, in milliseconds.
  unfoldable pub handle_event : ℕ → ℕ → ℕ → SdlEvent → M (Viewer t) (Unit {0})
  unfolding motion_since send_mouse
  handle_event interval now sent_at (mouse_motion x y) v =
      motion_since v.last_pos_update interval now sent_at x y v
  handle_event interval now sent_at (mouse_wheel up) v =
      send_mouse (if up then scroll_up_mask else scroll_down_mask) 0 0 v
  handle_event interval now sent_at (mouse_button down button x y) v =
      (do
        x' ← scaled_x x
        y' ← scaled_y y
        button_mask ← defined (convert_to_mask button)
        send_mouse (if down then set_clicked button_mask else button_mask) x' y')
        v
  handle_event interval now sent_at (key down sym) v =
      on_socket
        (send_keyboard_event t keyboard_input
          (record { down = down; key = sdl_key_sym_to_x11 sym }))
        v
  handle_event interval now sent_at (window_resized data1 data2) v =
      done tt (record v { window_width = data1; window_height = data2 })
  handle_event interval now sent_at quit v = throw (exited 1) v
  handle_event interval now sent_at other_event v = done tt v

  -- The loop over the polled events, each with the time since the start at which it was polled and
  -- the time after its handling. An event that is polled too late is taken from SDL's queue and dropped.
  pub handle_io_events : ℕ → ℕ → ℕ → List (ℕ × ℕ × SdlEvent) → M (Viewer t) (Unit {0})
  handle_io_events max_poll_time interval start [] v = done tt v
  handle_io_events max_poll_time interval start ((passed, sent, event) ∷ events) v =
      let rest = handle_io_events max_poll_time interval start events in
      if ltb passed max_poll_time
      then after (handle_event interval (start + passed) (start + sent) event v) (λ _. rest)
      else done tt v
