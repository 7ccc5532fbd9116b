-- ===== src/Message/Events.antt =====
-- `convertTo` undoes the copy of an event struct into a message's content.
use screen_viewer.Prelude.{
  ◌<◌, ◌^◌, ◌≡◌, ◌≢◌, length, arith, le_bytes, le_value, length-le_bytes, le_value-le_bytes,
}
use screen_viewer.Message.{
  MessageType, KeyboardEventData, MouseEventData, ok, keyboard_event_bytes, mouse_event_bytes,
  convert_to_keyboard, convert_to_mouse, convert_to, Message, err, wrong_size, mouse_event_size,
}

-- The receiver of a keyboard event has the event that was sent, for every key code of 32 bits.
pub convert_to_keyboard-keyboard_event_bytes :
    (e : KeyboardEventData) (t : MessageType)
    → e.key < 2 ^ 32
    → convert_to_keyboard (record { type = t; content = keyboard_event_bytes e }) ≡ ok e
unfolding convert_to_keyboard keyboard_event_bytes
convert_to_keyboard-keyboard_event_bytes e t h =
    ground (arith, length-le_bytes 4 e.key, le_value-le_bytes 4 e.key h)

-- The receiver of a mouse event has the event that was sent, for all fields of 32 bits.
pub convert_to_mouse-mouse_event_bytes :
    (e : MouseEventData) (t : MessageType)
    → e.button_mask < 2 ^ 32
    → e.x < 2 ^ 32
    → e.y < 2 ^ 32
    → convert_to_mouse (record { type = t; content = mouse_event_bytes e }) ≡ ok e
unfolding convert_to_mouse mouse_event_bytes le_bytes le_value
convert_to_mouse-mouse_event_bytes e t hm hx hy = ground arith

pub convert_to_mouse-wrong_size :
    (m : Message)
    → length m.content ≢ mouse_event_size
    → convert_to_mouse m ≡ err (wrong_size (length m.content) mouse_event_size)
unfolding convert_to_mouse convert_to
convert_to_mouse-wrong_size m h = ground arith
