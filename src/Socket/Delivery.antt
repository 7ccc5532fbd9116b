-- ===== src/Socket/Delivery.antt =====
-- The peer of a socket receives what `send` wrote.
use screen_viewer.Prelude.{
  ℕ, zero, suc, ◌≤◌, ◌≡◌, refl, sym, ap, ◌∙◌, arith, true, List, [], ◌∷◌, ◌++◌, map, append-nil,
  append_assoc, Bytes, length,
}
use screen_viewer.Message.{
  MessageType, Message, MessageHeader, serialize_header, header_size, deserialize, ok,
}
use screen_viewer.Message.Header.{length-serialize_header, deserialize-serialize_header}
use mathlib.Core.List.{append_cancel_left}
use screen_viewer.Outcome.{Outcome, done, M, after-eq-done, ◌>>=◌, give}
use screen_viewer.Transport.{Transport, Lawful, read_stream}
use screen_viewer.Socket.{
  Socket, buffer_size, send, receive, read_header, on_stream, on_stream-eq-done,
}
use screen_viewer.Socket.Framing.{
  Splits-fits, Splits-concat, concat, Splits, last, full, frame, frames, write_frames,
  send-write_frames, buffer_size-lt,
}

-- `receive` called `n` times.
pub receive_all : (t : Transport) {H : Type 0} → ℕ → M (Socket t H) (List Message)
receive_all t zero = give []
receive_all t (suc n) = do
  message ← receive t
  messages ← receive_all t n
  give (message ∷ messages)

module _ (t : Transport) (law : Lawful t) {H : Type 0} where
  open law use {incoming, outgoing, write_done, read_arrived}

  -- The socket is open, and these bytes have arrived and are not read.
  abbrev pub Holds : Bytes → Socket t H → Type 0
  Holds bytes s = (t.is_open s.stream ≡ true) × (incoming s.stream ≡ bytes)

  abbrev pub Gets {ℓ} : {A : Type ℓ} → Outcome (Socket t H) A → A → Bytes → Type ℓ
  Gets o a rest = (s : Socket t H) × (o ≡ done a s) × Holds rest s

  read_front :
      (front rest : Bytes) (n : ℕ) (s : Socket t H)
      → length front ≡ n
      → Holds (front ++ rest) s
      → Gets (on_stream t (t.read n) s) front rest
  read_front front rest n s e (live, arrived) =
      let (x, got, still, left) = read_stream t law front rest n s.stream e live arrived in
      (record s { stream = x }, rw got, (still, left))

  pub receive_frame :
      (type : MessageType) (content rest : Bytes) (s : Socket t H)
      → length content ≤ buffer_size
      → Holds (frame type content ++ rest) s
      → Gets (receive t s) (record { type = type; content = content }) rest
  unfolding receive read_header
  receive_frame type content rest s fits h =
      let header : MessageHeader = record { message_size = length content; type = type } in
      let front = serialize_header header in
      let (s1, e1, h1) =
        read_front front (content ++ rest) header_size s (length-serialize_header header)
          (rw (append_assoc front content rest) at h) in
      let (s2, e2, h2) = read_front content rest (length content) s1 refl h1 in
      let read_back : deserialize front header_size buffer_size ≡ ok header =
        rw (append-nil front) at (
          deserialize-serialize_header header [] header_size buffer_size (omega arith) fits
            (omega (arith, buffer_size-lt))) in
      (s2, rw (e1, read_back, e2), h2)

  receive_frames :
      (type : MessageType) {content : Bytes} {chunks : List Bytes} (rest : Bytes) (r : Socket t H)
      → Splits content chunks
      → Holds (frames type chunks ++ rest) r
      → Gets
          (receive_all t (length chunks) r)
          (map (λ c. record { type = type; content = c }) chunks)
          rest
  unfolding receive_all
  receive_frames type {content} rest r (last fits) h =
      let (s1, e1, h1) = receive_frame type content rest r fits (rw append-nil at h) in
      (s1, rw e1, h1)
  receive_frames type rest r (full {chunks} chunk tail e n pos more) h =
      let (s1, e1, h1) =
        receive_frame type chunk (frames type chunks ++ rest) r (omega arith)
          (rw (append_assoc (frame type chunk) (frames type chunks) rest) at h) in
      let (s2, e2, h2) = receive_frames type rest s1 more h1 in (s2, rw (e1, e2), h2)

  write_frames-outgoing :
      (type : MessageType) (chunks : List Bytes) (s s' : Socket t H)
      → write_frames t type chunks s ≡ done tt s'
      → outgoing s'.stream ≡ outgoing s.stream ++ frames type chunks
  write_frames-outgoing type [] s s' e =
      let same : s ≡ s' = ground arith in rw (← same) (sym (append-nil (outgoing s.stream)))
  write_frames-outgoing type (c ∷ cs) s s' e =
      let (_, s1, written, later) =
        after-eq-done (on_stream t (t.write (frame type c)) s) (λ _. write_frames t type cs) e in
      let (x, wrote, now) = on_stream-eq-done t (t.write (frame type c)) s written in
      let first : outgoing s1.stream ≡ outgoing s.stream ++ frame type c =
        rw now (write_done (frame type c) s.stream x wrote).0 in
      write_frames-outgoing type cs s1 s' later
      ∙ rw first (append_assoc (outgoing s.stream) (frame type c) (frames type cs))

  sent-frames :
      (message : Message) (s s' : Socket t H) (sent : Bytes)
      → send t message s ≡ done tt s'
      → outgoing s'.stream ≡ outgoing s.stream ++ sent
      → (chunks : List Bytes) × Splits message.content chunks × (sent ≡ frames message.type chunks)
  sent-frames m s s' sent e out =
      let (chunks, splits, writes) = send-write_frames t m in
      let written = write_frames-outgoing m.type chunks s s' (sym (writes s) ∙ e) in
      (
        chunks,
        splits,
        append_cancel_left (outgoing s.stream) sent (frames m.type chunks) (sym out ∙ written),
      )

  -- Whatever `send` has written, the peer receives: if the bytes that a completed `send` added to
  -- the sender's output have arrived at an open socket, with anything behind them, then a number of
  -- calls of `receive` return messages of the same type whose contents are, in order, the chunks of
  -- the content, and leave what stood behind.
  pub send-receive_all :
      (message : Message) (s s' r : Socket t H) (sent rest : Bytes)
      → send t message s ≡ done tt s'
      → outgoing s'.stream ≡ outgoing s.stream ++ sent
      → Holds (sent ++ rest) r
      → (chunks : List Bytes) × Splits message.content chunks
        × (concat chunks ≡ message.content)
        × Gets
            (receive_all t (length chunks) r)
            (map (λ c. record { type = message.type; content = c }) chunks)
            rest
  send-receive_all m s s' r sent rest e out h =
      let (chunks, splits, same) = sent-frames m s s' sent e out in
      (chunks, splits, Splits-concat splits, receive_frames m.type rest r splits (rw same at h))

  pub sent-frame :
      (message : Message) (s s' : Socket t H) (sent : Bytes)
      → length message.content ≤ buffer_size
      → send t message s ≡ done tt s'
      → outgoing s'.stream ≡ outgoing s.stream ++ sent
      → sent ≡ frame message.type message.content
  sent-frame m s s' sent fits e out =
      let (chunks, splits, same) = sent-frames m s s' sent e out in
      same ∙ ap (frames m.type) (Splits-fits fits splits) ∙ append-nil (frame m.type m.content)

  -- A message that fits the buffer is received by one call of `receive`, as it was sent: if the
  -- bytes that a completed `send` added to the sender's output have arrived at an open socket,
  -- `receive` returns the message and leaves what stood behind it.
  pub send-receive :
      (message : Message) (s s' r : Socket t H) (sent rest : Bytes)
      → length message.content ≤ buffer_size
      → send t message s ≡ done tt s'
      → outgoing s'.stream ≡ outgoing s.stream ++ sent
      → Holds (sent ++ rest) r
      → Gets (receive t r) message rest
  send-receive m s s' r sent rest fits e out h =
      receive_frame m.type m.content rest r fits (rw (sent-frame m s s' sent fits e out) at h)
