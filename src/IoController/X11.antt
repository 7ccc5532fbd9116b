-- ===== src/IoController/X11.antt =====
-- src/streamer/X11IOController.cpp: the events given to the X server through XTest. Requests wait in the
-- display's queue until `XFlush`.
use screen_viewer.Prelude.{
  ℕ, ◌+◌, ◌%◌, ◌^◌, ◌==◌, ◌≡◌, ◌≢◌, arith, if◌then◌else◌, Bool, true, false, not, List, [], ◌∷◌,
  ◌++◌,
}
use screen_viewer.Message.{KeyboardEventData, MouseEventData}
use screen_viewer.Mouse.{move, extract_button_id, is_clicked, is_scroll_moved}
use screen_viewer.Outcome.{done}
use screen_viewer.IoController.{IoController}

pub data XEvent : Type 0 where
  key_event : ℕ → Bool → XEvent
  motion_event : ℕ → ℕ → XEvent
  button_event : ℕ → Bool → XEvent

pub record Display : Type 0 where
  pub queued : List XEvent
  pub delivered : List XEvent

-- The origin of the first screen, as 32-bit patterns, and `XKeysymToKeycode`, which returns 0 for
-- a symbol that no key of the keyboard has.
pub record Screen : Type 0 where
  pub x_org : ℕ
  pub y_org : ℕ
  pub keysym_to_keycode : ℕ → ℕ

abbrev pub x_test_fake : XEvent → Display → Display
x_test_fake e d = record d { queued = d.queued ++ e ∷ [] }

abbrev pub x_flush : Display → Display
x_flush d = record { queued = []; delivered = d.delivered ++ d.queued }

module _ (screen : Screen) where
  pub handle_keyboard_event : KeyboardEventData → Display → Display
  handle_keyboard_event event_data d =
      let keycode = screen.keysym_to_keycode event_data.key in
      if keycode == 0 then d else x_flush (x_test_fake (key_event keycode event_data.down) d)

  -- The sums of the motion are those of 32-bit `int`s.
  unfoldable pub handle_mouse_event : MouseEventData → Display → Display
  handle_mouse_event event_data d =
      let button = extract_button_id event_data.button_mask in
      if event_data.button_mask == move
      then x_flush (
          x_test_fake
            (motion_event ((event_data.x + screen.x_org) % 2 ^ 32)
              ((event_data.y + screen.y_org) % 2 ^ 32))
            d)
      else if is_scroll_moved event_data.button_mask
      then x_flush
          (x_test_fake (button_event button false) (x_test_fake (button_event button true) d))
      else if not (button == 0)
      then x_flush (x_test_fake (button_event button (is_clicked event_data.button_mask)) d)
      else x_flush d

  abbrev pub x11_io_controller : IoController
  x11_io_controller = record {
    State = Display;
    handle_keyboard_event = λ e d. done tt (handle_keyboard_event e d);
    handle_mouse_event = λ e d. done tt (handle_mouse_event e d);
  }

  -- What the X server is given for a button event: one press or release of the named button.
  pub handle_mouse_event-button :
      (e : MouseEventData) (button : ℕ) (down : Bool) (d : Display)
      → e.button_mask ≢ move
      → extract_button_id e.button_mask ≡ button
      → button ≢ 0
      → is_scroll_moved e.button_mask ≡ false
      → is_clicked e.button_mask ≡ down
      → handle_mouse_event e d ≡ x_flush (x_test_fake (button_event button down) d)
  unfolding handle_mouse_event
  handle_mouse_event-button e button down d moves names some_button wheel held =
      rw (wheel, held, names) (ground arith)

  pub handle_keyboard_event-key :
      (e : KeyboardEventData) (d : Display)
      → screen.keysym_to_keycode e.key ≢ 0
      → handle_keyboard_event e d
        ≡ x_flush (x_test_fake (key_event (screen.keysym_to_keycode e.key) e.down) d)
  unfolding handle_keyboard_event
  handle_keyboard_event-key e d some_key = ground arith
