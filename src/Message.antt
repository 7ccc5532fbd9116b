-- ===== src/Message.antt =====
-- include/Message.hpp and src/MessageHeader.cpp: message kinds, the packed header in front of every
-- message, and the event structs that travel as message contents. `std::size_t` has 8 bytes,
-- `unsigned int` and `int` have 4, and integers are stored lowest byte first (x86-64).
pub mod Header
pub mod Events
use screen_viewer.Prelude.{
  ℕ, ◌+◌, ◌==◌, ◌≡◌, ltb, if◌then◌else◌, Bool, true, false, not, List, [], ◌∷◌, ◌++◌, Bytes, String,
  le_bytes, le_value, length, get_or, take, drop,
}

pub data MessageType : Type 0 where
  just_a_message login register_streamer find_streamer start_stream response : MessageType
  id ack nack mouse_input keyboard_input screen_update disconnect : MessageType

-- `static_cast<Enum_t>(type)`.
unfoldable pub type_code : MessageType → ℕ
type_code just_a_message = 0
type_code login = 1
type_code register_streamer = 2
type_code find_streamer = 3
type_code start_stream = 4
type_code response = 5
type_code id = 6
type_code ack = 7
type_code nack = 8
type_code mouse_input = 9
type_code keyboard_input = 10
type_code screen_update = 11
type_code disconnect = 12

-- `MessageType::MAX_VALUE`.
abbrev pub max_value : MessageType
max_value = disconnect

abbrev pub message_types : List MessageType
message_types =
    just_a_message ∷ login ∷ register_streamer ∷ find_streamer ∷ start_stream ∷ response ∷ id ∷ ack
    ∷ nack ∷ mouse_input ∷ keyboard_input ∷ screen_update ∷ disconnect ∷ []

-- `static_cast<MessageType>(code)`, which is undefined above `max_value`: the value taken there
-- is arbitrary, and `deserialize` never asks for it.
unfoldable pub cast_type : ℕ → MessageType
cast_type c = get_or message_types c max_value

pub message_type_to_str : MessageType → String
message_type_to_str just_a_message = "JUST_A_MESSAGE"
message_type_to_str login = "LOGIN"
message_type_to_str register_streamer = "REGISTER_STREAMER"
message_type_to_str find_streamer = "FIND_STREAMER"
message_type_to_str start_stream = "START_STREAM"
message_type_to_str response = "RESPONSE"
message_type_to_str id = "ID"
message_type_to_str ack = "ACK"
message_type_to_str nack = "NACK"
message_type_to_str mouse_input = "MOUSE_INPUT"
message_type_to_str keyboard_input = "KEYBOARD_INPUT"
message_type_to_str screen_update = "SCREEN_UPDATE"
message_type_to_str disconnect = "DISCONNECT"

-- `type == other`, by the codes.
unfoldable pub is_type : MessageType → MessageType → Bool
unfolding type_code
is_type a b = type_code a == type_code b

pub record MessageHeader : Type 0 where
  pub message_size : ℕ
  pub type : MessageType

pub record KeyboardEventData : Type 0 where
  pub down : Bool
  pub key : ℕ

-- The three `int` fields are kept as their 32-bit patterns.
pub record MouseEventData : Type 0 where
  pub button_mask : ℕ
  pub x : ℕ
  pub y : ℕ

-- `Message<Str_t>`: a borrowed message and an owned one hold the same bytes.
pub record Message : Type 0 where
  pub type : MessageType
  pub content : Bytes

pub data HeaderError : Type 0 where
  too_short : ℕ → HeaderError
  too_long : ℕ → ℕ → HeaderError
  unknown_type : ℕ → HeaderError

pub data Checked {ℓ} (E : Type 0) (A : Type ℓ) : Type ℓ where
  ok : A → Checked E A
  err : E → Checked E A

-- `sizeof(MessageHeader)`, with padding off.
abbrev pub header_size : ℕ
header_size = 9

-- The object representation of the packed struct, as `send` and `asyncSendMessage` write it.
unfoldable pub serialize_header : MessageHeader → Bytes
unfolding type_code
serialize_header h = le_bytes 8 h.message_size ++ type_code h.type ∷ []

unfoldable pub deserialize : Bytes → ℕ → ℕ → Checked HeaderError MessageHeader
unfolding type_code cast_type
deserialize buffer buffer_size max_length =
    if ltb buffer_size header_size
    then err (too_short buffer_size)
    else let len = le_value (take 8 buffer) in
      let declared_msg_type = get_or (drop 8 buffer) 0 0 in
      if ltb max_length len
      then err (too_long len max_length)
      else if ltb (type_code max_value) declared_msg_type
      then err (unknown_type declared_msg_type)
      else ok (record { message_size = len; type = cast_type declared_msg_type })

-- `convertTo` throws when the content has not the size of the wanted struct.
pub data ConvertError : Type 0 where
  wrong_size : ℕ → ℕ → ConvertError

abbrev pub keyboard_event_size : ℕ
keyboard_event_size = 5

abbrev pub mouse_event_size : ℕ
mouse_event_size = 12

-- A `bool` is one byte, 0 or 1; a byte that is not 0 is read as true.
unfoldable pub keyboard_event_bytes : KeyboardEventData → Bytes
keyboard_event_bytes e = (if e.down then 1 else 0) ∷ le_bytes 4 e.key

unfoldable pub mouse_event_bytes : MouseEventData → Bytes
mouse_event_bytes e = le_bytes 4 e.button_mask ++ le_bytes 4 e.x ++ le_bytes 4 e.y

-- `convertTo` at each of its two types: the size test is the template's.
convert_to : {A : Type 0} → ℕ → (Bytes → A) → Message → Checked ConvertError A
convert_to size read source =
    if length source.content == size
    then ok (read source.content)
    else err (wrong_size (length source.content) size)

unfoldable pub convert_to_keyboard : Message → Checked ConvertError KeyboardEventData
unfolding convert_to
convert_to_keyboard =
    convert_to keyboard_event_size
      λ bytes. record { down = not (get_or bytes 0 0 == 0); key = le_value (drop 1 bytes) }

unfoldable pub convert_to_mouse : Message → Checked ConvertError MouseEventData
unfolding convert_to
convert_to_mouse = convert_to mouse_event_size λ bytes. record {
  button_mask = le_value (take 4 bytes);
  x = le_value (take 4 (drop 4 bytes));
  y = le_value (drop 8 bytes);
}
