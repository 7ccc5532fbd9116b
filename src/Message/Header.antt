-- ===== src/Message/Header.antt =====
-- What `deserialize` accepts, and that it reads back what the sender writes.
use screen_viewer.Prelude.{
  true, ap, ℕ, ◌≤◌, ◌<◌, ◌^◌, ◌≡◌, refl, sym, ◌↔◌, arith, [], ◌∷◌, ◌++◌, Bytes, le_bytes, le_value,
  length, get_or, take, drop, length-le_bytes, le_value-le_bytes, length-append, take-append_eq,
  drop-append_eq, append_assoc,
}
use screen_viewer.Message.{
  is_type, err, too_long, MessageType, MessageHeader, ok, type_code, cast_type, serialize_header,
  deserialize, header_size, just_a_message,
}

pub cast_type-type_code : (t : MessageType) → cast_type (type_code t) ≡ t
unfolding cast_type type_code
cast_type-type_code just_a_message = refl
cast_type-type_code _ = refl

pub type_code-le : (t : MessageType) → type_code t ≤ 12
unfolding type_code
type_code-le just_a_message = omega arith
type_code-le _ = omega arith

pub type_code-cast_type : (c : ℕ) → c ≤ 12 → type_code (cast_type c) ≡ c
unfolding cast_type type_code
type_code-cast_type c h = ground arith

pub length-serialize_header : (h : MessageHeader) → length (serialize_header h) ≡ header_size
unfolding serialize_header
length-serialize_header h = omega (
  arith,
  length-append (le_bytes 8 h.message_size) (type_code h.type ∷ []),
  length-le_bytes 8 h.message_size,
)

-- A buffer is accepted exactly when at least the nine bytes of a header were received, the size in
-- its first eight bytes is within the limit, and its ninth byte is the code of a declared type;
-- the header is made of these two.
pub deserialize-ok_iff :
    (buffer : Bytes) (buffer_size max_length : ℕ) (h : MessageHeader)
    → (deserialize buffer buffer_size max_length ≡ ok h) ↔ (
        (header_size ≤ buffer_size)
        × (h.message_size ≤ max_length)
        × (h.message_size ≡ le_value (take 8 buffer))
        × (type_code h.type ≡ get_or (drop 8 buffer) 0 0))
unfolding deserialize
deserialize-ok_iff buffer buffer_size max_length h = (
  ground (
    arith,
    type_code-cast_type (get_or (drop 8 buffer) 0 0),
    cast_type-type_code h.type,
    type_code-le h.type,
  ),
  ground (
    arith,
    type_code-cast_type (get_or (drop 8 buffer) 0 0),
    cast_type-type_code h.type,
    type_code-le h.type,
  ),
)

take-serialize_header :
    (h : MessageHeader) (rest : Bytes)
    → take 8 (serialize_header h ++ rest) ≡ le_bytes 8 h.message_size
unfolding serialize_header
take-serialize_header h rest =
    let size_bytes = le_bytes 8 h.message_size in
    rw (append_assoc size_bytes (type_code h.type ∷ []) rest)
      (take-append_eq 8 size_bytes (type_code h.type ∷ rest) (length-le_bytes 8 h.message_size))

drop-serialize_header :
    (h : MessageHeader) (rest : Bytes)
    → drop 8 (serialize_header h ++ rest) ≡ type_code h.type ∷ rest
unfolding serialize_header
drop-serialize_header h rest =
    let size_bytes = le_bytes 8 h.message_size in
    rw (append_assoc size_bytes (type_code h.type ∷ []) rest)
      (drop-append_eq 8 size_bytes (type_code h.type ∷ rest) (length-le_bytes 8 h.message_size))

-- The header at the front of a buffer is read back as it was written, if at least nine bytes were
-- received and the size in it is within the limit and below 2 ^ 64.
pub deserialize-serialize_header :
    (h : MessageHeader) (rest : Bytes) (buffer_size max_length : ℕ)
    → header_size ≤ buffer_size
    → h.message_size ≤ max_length
    → h.message_size < 2 ^ 64
    → deserialize (serialize_header h ++ rest) buffer_size max_length ≡ ok h
deserialize-serialize_header h rest buffer_size max_length enough fits word =
    let buffer = serialize_header h ++ rest in
    (deserialize-ok_iff buffer buffer_size max_length h).1 (
      enough,
      fits,
      rw (take-serialize_header h rest) (sym (le_value-le_bytes 8 h.message_size word)),
      rw (drop-serialize_header h rest),
    )

-- A header that announces more than the limit is refused, with both sizes.
pub deserialize-too_long :
    (h : MessageHeader) (rest : Bytes) (buffer_size max_length : ℕ)
    → header_size ≤ buffer_size
    → max_length < h.message_size
    → h.message_size < 2 ^ 64
    → deserialize (serialize_header h ++ rest) buffer_size max_length
      ≡ err (too_long h.message_size max_length)
unfolding deserialize
deserialize-too_long h rest buffer_size max_length enough long word =
    ground
      (arith, ap le_value (take-serialize_header h rest), le_value-le_bytes 8 h.message_size word)

pub is_type_self : (a : MessageType) → is_type a a ≡ true
unfolding is_type
is_type_self a = ground arith
