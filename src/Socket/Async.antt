-- ===== src/Socket/Async.antt =====
-- What `asyncReadMessage` comes to: the handler's call, or a disconnect.
use screen_viewer.Prelude.{
  ◌≢◌, Option, none, some, ℕ, ◌≤◌, ◌<◌, ◌^◌, ◌≡◌, refl, ◌∙◌, arith, ◌++◌, append_assoc, Bytes,
  length, drop, take-append,
}
use screen_viewer.Message.{
  Message, MessageHeader, serialize_header, header_size, deserialize, too_long, ok, err,
}
use screen_viewer.Message.Header.{
  length-serialize_header, deserialize-serialize_header, deserialize-too_long,
}
use screen_viewer.Outcome.{
  after-eq-done, give, message_header_exception, handled, final, Outcome, done, thrown, give,
}
use screen_viewer.Transport.{Transport, Lawful, read_stream, read_stream_only}
use screen_viewer.Socket.Delivery.{Holds}
use screen_viewer.Socket.Keeps.{safe_disconnect-Keeps}
use screen_viewer.Socket.{
  Pending, header_read, content_read, poll, poll_pending, header_read_ended, content_read_ended,
  header_checked, header_arrived, content_arrived, safe_disconnect, disconnect, Socket,
}
use screen_viewer.Socket.Framing.{frame}

module _ (t : Transport) {H : Type 0} where
  caught : (o : Outcome (Socket t H) (Unit {0})) → handled o (λ e. give tt) ≡ done tt (final o)
  caught (done tt s) = refl
  caught (thrown e s) = refl

  pub safe_disconnect-done :
      (reason : Option Bytes) (s : Socket t H)
      → safe_disconnect t reason s ≡ done tt (final (safe_disconnect t reason s))
  unfolding safe_disconnect
  safe_disconnect-done reason s = rw (caught (disconnect t reason s))

module _ (t : Transport) (law : Lawful t) {H : Type 0} where
  -- The two completions, which write nothing.
  pub poll_reads :
      (h : H) (max : ℕ) (message : Message) (rest : Bytes) (s : Socket t H)
      → s.pending ≡ some (header_read h max)
      → length message.content ≤ max
      → max < 2 ^ 64
      → Holds t law (frame message.type message.content ++ rest) s
      → (s1 s2 : Socket t H) × (poll t s ≡ done none s1)
        × (poll t s1 ≡ done (some (h, message)) s2)
        × (s2.pending ≡ none)
        × Holds t law rest s2
        × (law.outgoing s2.stream ≡ law.outgoing s.stream)
  unfolding poll poll_pending header_read_ended header_arrived header_checked content_read_ended
      content_arrived
  poll_reads h max m rest s waits fits word held =
      let header : MessageHeader = record { message_size = length m.content; type = m.type } in
      let front = serialize_header header in
      let (x1, e1, live1, left1, silent1) =
        read_stream_only t law front (m.content ++ rest) header_size s.stream
          (length-serialize_header header) held.0 (held.1 ∙ append_assoc front m.content rest) in
      let (x2, e2, live2, left2, silent2) =
        read_stream_only t law m.content rest (length m.content) x1 refl live1 left1 in
      let filled = front ++ drop (length front) s.data_buffer in
      let read_back : deserialize filled (length front) max ≡ ok header =
        deserialize-serialize_header header (drop (length front) s.data_buffer) (length front) max
          (omega (arith, length-serialize_header header)) fits (omega arith) in
      let s1 : Socket t H = record {
        stream = x1;
        data_buffer = filled;
        pending = some (content_read h header);
      } in
      let s2 : Socket t H = record {
        stream = x2;
        data_buffer = m.content ++ drop (length m.content) filled;
        pending = none;
      } in
      (
        s1,
        s2,
        rw (waits, e1, read_back),
        rw (e2, take-append m.content (drop (length m.content) filled)),
        refl,
        (live2, left2),
        silent2 ∙ silent1,
      )

  -- With a read of a message of at most `max` bytes outstanding, `max` below 2 ^ 64, and such a
  -- message arrived at the open socket with anything behind it, the first completion reads the
  -- header and the second gives the handler exactly this message. No read is outstanding then, and
  -- what stood behind the message is still to be read.
  pub poll_delivers :
      (h : H) (max : ℕ) (message : Message) (rest : Bytes) (s : Socket t H)
      → s.pending ≡ some (header_read h max)
      → length message.content ≤ max
      → max < 2 ^ 64
      → Holds t law (frame message.type message.content ++ rest) s
      → (s1 s2 : Socket t H) × (poll t s ≡ done none s1)
        × (poll t s1 ≡ done (some (h, message)) s2)
        × (s2.pending ≡ none)
        × Holds t law rest s2
  poll_delivers h max m rest s waits fits word held =
      let (s1, s2, e1, e2, quiet, left, _) = poll_reads h max m rest s waits fits word held in
      (s1, s2, e1, e2, quiet, left)

  -- With a read outstanding at an open socket, the arrival of a header that announces more than
  -- the read's `max` bytes (in 64 bits) ends the reading: the completion gives nothing to the
  -- handler, disconnects with the text of the error, swallows what that throws, and leaves no read
  -- outstanding.
  pub poll_too_long :
      (h : H) (max : ℕ) (header : MessageHeader) (rest : Bytes) (s : Socket t H)
      → s.pending ≡ some (header_read h max)
      → max < header.message_size
      → header.message_size < 2 ^ 64
      → Holds t law (serialize_header header ++ rest) s
      → (s1 : Socket t H) × (poll t s ≡ done none s1)
        × (s1.pending ≡ none)
        × (s' : Socket t H) × (law.incoming s'.stream ≡ rest)
        × (s1
            ≡ final (
                safe_disconnect t
                  (some (t.what (message_header_exception (too_long header.message_size max))))
                  s'))
  unfolding poll poll_pending header_read_ended header_arrived header_checked
  poll_too_long h max header rest s waits long word held =
      let front = serialize_header header in
      let (x1, e1, live1, left1) =
        read_stream t law front rest header_size s.stream (length-serialize_header header) held.0
          held.1 in
      let filled = front ++ drop (length front) s.data_buffer in
      let s' : Socket t H = record { stream = x1; data_buffer = filled; pending = none } in
      let text = t.what (message_header_exception (too_long header.message_size max)) in
      let refused : deserialize filled (length front) max ≡ err (too_long header.message_size max) =
        deserialize-too_long header (drop (length front) s.data_buffer) (length front) max
          (omega (arith, length-serialize_header header)) long word in
      (
        final (safe_disconnect t (some text) s'),
        rw (waits, e1, refused, safe_disconnect-done t (some text) s'),
        (safe_disconnect-Keeps t (some text) s').1,
        s',
        left1,
        refl,
      )

module _ (t : Transport) {H : Type 0} where
  -- With no read outstanding nothing completes.
  pub poll_idle : (s : Socket t H) → s.pending ≡ none → poll t s ≡ done none s
  unfolding poll poll_pending
  poll_idle s e = rw e

  none-header_read_ended :
      (h : H) (max : ℕ) (s : Socket t H) (o : Outcome t.Stream Bytes) {m : H × Message}
      {s' : Socket t H}
      → header_read_ended t h max s o ≢ done (some m) s'
  unfolding header_read_ended
  none-header_read_ended h max s (done bytes x) e =
      let (_, _, _, given) =
        after-eq-done (header_arrived t h max bytes (record s { stream = x; pending = none }))
          (λ _. give none) e in
      cc given
  none-header_read_ended h max s (thrown x s'') e = cc

  idle-content_read_ended :
      (h : H) (header : MessageHeader) (s : Socket t H) (o : Outcome t.Stream Bytes)
      {m : H × Message} {s' : Socket t H}
      → content_read_ended t h header s o ≡ done (some m) s'
      → s'.pending ≡ none
  unfolding content_read_ended content_arrived
  idle-content_read_ended h header s (done bytes x) e = ground arith
  idle-content_read_ended h header s (thrown x s'') e = cc

  idle-poll_pending :
      (p : Option (Pending H)) (s : Socket t H) {m : H × Message} {s' : Socket t H}
      → poll_pending t p s ≡ done (some m) s'
      → s'.pending ≡ none
  unfolding poll_pending
  idle-poll_pending none s e = cc
  idle-poll_pending (some (header_read h max)) s e = absurd (none-header_read_ended h max s _ e)
  idle-poll_pending (some (content_read h header)) s e = idle-content_read_ended h header s _ e

  -- A handler that is called finds no read outstanding.
  pub poll-some :
      (s : Socket t H) (m : H × Message) (s' : Socket t H)
      → poll t s ≡ done (some m) s'
      → s'.pending ≡ none
  unfolding poll
  poll-some s m s' e = idle-poll_pending s.pending s e
