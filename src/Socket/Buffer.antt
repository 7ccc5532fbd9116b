-- ===== src/Socket/Buffer.antt =====
-- `data_buffer`: what is read through it, and that no read runs past its end.
use screen_viewer.Prelude.{ℕ, ◌≡◌, refl, ◌++◌, Bytes, length, take, drop, take-append_eq}
use screen_viewer.Message.{Message, MessageHeader}
use screen_viewer.Outcome.{Outcome, done, thrown, after, give}
use screen_viewer.Transport.{Transport, Lawful}
use screen_viewer.Socket.{
  Socket, receive, receive_to_buffer, read_header, receive_content, receive_content_to_buffer,
  on_stream, on_stream-eq-done,
}

module _ (t : Transport) (law : Lawful t) {H : Type 0} where
  -- The outcome of a receive, with the content copied to the start of the buffer.
  abbrev pub kept : Outcome (Socket t H) Message → Outcome (Socket t H) Message
  kept (done m s) =
      done m (record s { data_buffer = m.content ++ drop (length m.content) s.data_buffer })
  kept (thrown e s) = thrown e s

  with_stream-length :
      (n : ℕ) (s : Socket t H) {bytes : Bytes} {s' : Socket t H}
      → on_stream t (t.read n) s ≡ done bytes s'
      → length bytes ≡ n
  with_stream-length n s {bytes} e =
      let (x, got, _) = on_stream-eq-done t (t.read n) s e in law.read_length n bytes s.stream x got

  content-kept :
      (header : MessageHeader) (o : Outcome (Socket t H) Bytes)
      → ((bytes : Bytes) (s : Socket t H) → o ≡ done bytes s → length bytes ≡ header.message_size)
      → after o (λ bytes s.
        done
          (record {
            type = header.type;
            content = take header.message_size (bytes ++ drop (length bytes) s.data_buffer);
          })
          (record s { data_buffer = bytes ++ drop (length bytes) s.data_buffer }))
        ≡ kept (after o (λ message. give (record { type = header.type; content = message })))
  content-kept header (done bytes s) size = rw (
      take-append_eq header.message_size bytes (drop (length bytes) s.data_buffer)
        (size bytes s refl))
  content-kept header (thrown e s) size = refl

  receive_content-kept :
      (o : Outcome (Socket t H) MessageHeader)
      → after o (receive_content_to_buffer t) ≡ kept (after o (receive_content t))
  receive_content-kept (done header s) =
      content-kept header (on_stream t (t.read header.message_size) s)
        (λ bytes s'. with_stream-length header.message_size s)
  receive_content-kept (thrown e s) = refl

  -- `receiveToBuffer` returns and throws what `receive` does, and leaves the content at the start
  -- of the buffer, whose other bytes stay.
  pub receive_to_buffer-receive : (s : Socket t H) → receive_to_buffer t s ≡ kept (receive t s)
  unfolding receive receive_to_buffer
  receive_to_buffer-receive s = receive_content-kept (read_header t s)
