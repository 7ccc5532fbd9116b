-- ===== src/IoController.antt =====
-- include/streamer/IOController.hpp and src/streamer/X11IOController.cpp: what injects the events of the
-- remote user, as an interface, and its implementation for the X server.
pub mod X11
pub mod Cursor
pub mod Controller
use screen_viewer.Prelude.{ℕ}
use screen_viewer.Message.{KeyboardEventData, MouseEventData}
use screen_viewer.Outcome.{M}

pub record IoController : Type 1 where
  pub State : Type 0
  pub handle_keyboard_event : KeyboardEventData → M State (Unit {0})
  pub handle_mouse_event : MouseEventData → M State (Unit {0})
