-- ===== src/Socket.antt =====
-- include/SocketBase.hpp and src/SocketBase.cpp: messages over a stream. Every message is preceded by
-- its header. A socket has at most one asynchronous read outstanding; `poll` is the io_context
-- completing it.
pub mod Framing
pub mod Delivery
pub mod Buffer
pub mod Keeps
pub mod Bounds
pub mod Async
use screen_viewer.Prelude.{
  ℕ, zero, suc, ◌+◌, ◌-◌, ◌*◌, ltb, if◌then◌else◌, Bool, List, [], ◌∷◌, ◌++◌, Bytes, ◌≡◌, refl,
  arith, Option, none, some, length, replicate, take, drop, String, codes,
}
use screen_viewer.Message.{
  MessageType, Message, MessageHeader, Checked, ok, err, ack, nack, disconnect as disconnect_type,
  is_type, serialize_header, deserialize, header_size, KeyboardEventData, MouseEventData,
  keyboard_event_bytes, mouse_event_bytes, HeaderError,
}
use screen_viewer.Outcome.{
  Exception, message_header_exception, max_size_exception, not_acknowledged, unfinished, Outcome,
  done, thrown, M, after, ◌>>=◌, ◌>>◌, give, throw, handled, try_catch, or_throw,
}
use screen_viewer.Transport.{Transport}

-- 5 MiB.
unfoldable pub buffer_size : ℕ
buffer_size = 1024 * 1024 * 5

-- The outstanding `async_read`, with the message handler that its completion has captured.
pub data Pending (H : Type 0) : Type 0 where
  header_read : H → ℕ → Pending H
  content_read : H → MessageHeader → Pending H

pub record Socket (t : Transport) (H : Type 0) : Type 0 where
  pub stream : t.Stream
  pub data_buffer : Bytes
  pub pending : Option (Pending H)

abbrev pub max_printable_str_length : ℕ
max_printable_str_length = 100

unfoldable pub additional_message : Bytes → Bytes
additional_message content =
    if ltb (length content) max_printable_str_length then content else codes "Too large to print."

module _ (t : Transport) {H : Type 0} where
  abbrev with_stream {κ} : {A : Type κ} → Socket t H → Outcome t.Stream A → Outcome (Socket t H) A
  with_stream s (done a x) = done a (record s { stream = x })
  with_stream s (thrown e x) = thrown e (record s { stream = x })

  -- The constructor: `make_unique<char[]>` zeroes the buffer.
  unfoldable pub new_socket : t.Stream → Socket t H
  new_socket socket_ = record {
    stream = socket_;
    data_buffer = replicate buffer_size 0;
    pending = none;
  }

  -- A call on `socket_`.
  abbrev pub on_stream {κ} : {A : Type κ} → M t.Stream A → M (Socket t H) A
  on_stream m s = with_stream s (m s.stream)

  unfoldable pub send_chunk : Message → M (Socket t H) (Unit {0})
  send_chunk message =
      let header : MessageHeader = record {
        message_size = length message.content;
        type = message.type;
      } in
      on_stream (t.write (serialize_header header ++ message.content))

  -- The loop's variables are `message_length` and `ptr_cursor`.
  send_loop : ℕ → Message → ℕ → ℕ → M (Socket t H) (Unit {0})
  send_loop zero message message_length ptr_cursor = throw unfinished
  send_loop (suc fuel) message message_length ptr_cursor =
      let rest = send_loop fuel message (message_length - buffer_size) (ptr_cursor + buffer_size) in
      let chunk = λ (size : ℕ).
        send_chunk (record message { content = take size (drop ptr_cursor message.content) }) in
      if ltb buffer_size message_length then (do chunk buffer_size; rest) else chunk message_length

  unfoldable pub send : Message → M (Socket t H) (Unit {0})
  unfolding send_loop
  send message = send_loop (suc (length message.content)) message (length message.content) 0

  unfoldable pub send_keyboard_event : MessageType → KeyboardEventData → M (Socket t H) (Unit {0})
  send_keyboard_event type event =
      send (record { type = type; content = keyboard_event_bytes event })

  unfoldable pub send_mouse_event : MessageType → MouseEventData → M (Socket t H) (Unit {0})
  send_mouse_event type event = send (record { type = type; content = mouse_event_bytes event })

  -- `disconnect` and `safeDisconnect`.
  unfoldable pub disconnect : Option Bytes → M (Socket t H) (Unit {0})
  disconnect none = do on_stream t.shutdown; on_stream t.close
  disconnect (some disconnect_msg) = do
    send (record { type = disconnect_type; content = disconnect_msg })
    on_stream t.shutdown
    on_stream t.close

  unfoldable pub safe_disconnect : Option Bytes → M (Socket t H) (Unit {0})
  safe_disconnect disconnect_msg = try_catch (disconnect disconnect_msg) (λ e. give tt)

  unfoldable pub read_header : M (Socket t H) MessageHeader
  read_header = do
    buf ← on_stream (t.read header_size)
    or_throw message_header_exception (deserialize buf header_size buffer_size)

  -- The rest of `receive`, behind the header.
  abbrev receive_content : MessageHeader → M (Socket t H) Message
  receive_content header = do
    message ← on_stream (t.read header.message_size)
    give (record { type = header.type; content = message })

  unfoldable pub receive : M (Socket t H) Message
  receive = do header ← read_header; receive_content header

  -- The first bytes of `data_buffer` are overwritten.
  abbrev fill_buffer : Bytes → M (Socket t H) (Unit {0})
  fill_buffer bytes s =
      done tt (record s { data_buffer = bytes ++ drop (length bytes) s.data_buffer })

  -- `{data_buffer.get(), BUFFER_SIZE}`; the array has `buffer_size` bytes.
  abbrev pub get_buffer : M (Socket t H) Bytes
  get_buffer s = done s.data_buffer s

  -- `{data_buffer.get(), size}`.
  abbrev view_buffer : ℕ → M (Socket t H) Bytes
  view_buffer size s = done (take size s.data_buffer) s

  -- The rest of `receiveToBuffer`, behind the header.
  abbrev receive_content_to_buffer : MessageHeader → M (Socket t H) Message
  receive_content_to_buffer header = do
    bytes ← on_stream (t.read header.message_size)
    fill_buffer bytes
    content ← view_buffer header.message_size
    give (record { type = header.type; content = content })

  unfoldable pub receive_to_buffer : M (Socket t H) Message
  receive_to_buffer = do header ← read_header; receive_content_to_buffer header

  acknowledged : Message → M (Socket t H) (Unit {0})
  acknowledged message =
      if is_type message.type ack
      then give tt
      else throw (
          not_acknowledged message.type (length message.content)
            (additional_message message.content))

  unfoldable pub receive_ack : M (Socket t H) (Unit {0})
  unfolding acknowledged
  receive_ack = do message ← receive_to_buffer; acknowledged message

  unfoldable pub send_ack : M (Socket t H) (Unit {0})
  send_ack = send (record { type = ack; content = [] })

  unfoldable pub send_nack : M (Socket t H) (Unit {0})
  send_nack = send (record { type = nack; content = [] })

  unfoldable pub is_open : Socket t H → Bool
  is_open s = t.is_open s.stream

  abbrev schedule : Option (Pending H) → M (Socket t H) (Unit {0})
  schedule p s = done tt (record s { pending = p })

  unfoldable pub async_read_message : H → ℕ → M (Socket t H) (Unit {0})
  async_read_message message_handler max_message_size =
      if ltb buffer_size max_message_size
      then throw (max_size_exception max_message_size buffer_size)
      else schedule (some (header_read message_handler max_message_size))

  -- The `try` block in the completion handler of `asyncReadHeader`, and its `catch`.
  header_checked : H → Checked HeaderError MessageHeader → M (Socket t H) (Unit {0})
  header_checked message_handler (ok header) = schedule (some (content_read message_handler header))
  header_checked message_handler (err e) =
      safe_disconnect (some (t.what (message_header_exception e)))

  -- The completion handler of `asyncReadHeader`, with no error.
  pub header_arrived : H → ℕ → Bytes → M (Socket t H) (Unit {0})
  header_arrived message_handler max_message_size bytes = do
    fill_buffer bytes
    buffer ← get_buffer
    header_checked message_handler (deserialize buffer (length bytes) max_message_size)

  -- Of `asyncReadMessageImpl`: the call of the handler that it makes.
  pub content_arrived : H → MessageHeader → Bytes → M (Socket t H) (Option (H × Message))
  content_arrived message_handler header bytes = do
    fill_buffer bytes
    content ← view_buffer (length bytes)
    give (some (message_handler, record { type = header.type; content = content }))

  -- A failed read is logged, and no other one is scheduled.
  header_read_ended :
      H → ℕ → Socket t H → Outcome t.Stream Bytes → Outcome (Socket t H) (Option (H × Message))
  header_read_ended h max s (done bytes x) =
      after (header_arrived h max bytes (record s { stream = x; pending = none })) (λ _. give none)
  header_read_ended h max s (thrown e x) = done none (record s { stream = x; pending = none })

  content_read_ended :
      H
      → MessageHeader
      → Socket t H
      → Outcome t.Stream Bytes
      → Outcome (Socket t H) (Option (H × Message))
  content_read_ended h header s (done bytes x) =
      content_arrived h header bytes (record s { stream = x; pending = none })
  content_read_ended h header s (thrown e x) = done none (record s { stream = x; pending = none })

  poll_pending : Option (Pending H) → M (Socket t H) (Option (H × Message))
  poll_pending none s = done none s
  poll_pending (some (header_read h max)) s =
      header_read_ended h max s (t.read header_size s.stream)
  poll_pending (some (content_read h header)) s =
      content_read_ended h header s (t.read header.message_size s.stream)

  -- One completed read; a whole message comes back with the handler that takes it.
  pub poll : M (Socket t H) (Option (H × Message))
  poll s = poll_pending s.pending s

  with_stream-eq-done {κ} :
      {A : Type κ} (s : Socket t H) (o : Outcome t.Stream A) {a : A} {s' : Socket t H}
      → with_stream s o ≡ done a s'
      → (x : t.Stream) × (o ≡ done a x) × (s' ≡ record s { stream = x })
  with_stream-eq-done s (done b x) h = (x, ground arith, ground arith)
  with_stream-eq-done s (thrown e x) h = cc

  pub on_stream-eq-done {κ} :
      {A : Type κ} (m : M t.Stream A) (s : Socket t H) {a : A} {s' : Socket t H}
      → on_stream m s ≡ done a s'
      → (x : t.Stream) × (m s.stream ≡ done a x) × (s' ≡ record s { stream = x })
  on_stream-eq-done m s = with_stream-eq-done s (m s.stream)
