-- ===== src/ClientSocket/Requests.antt =====
-- What a client's waiting comes to.
use screen_viewer.Prelude.{
  ℕ, suc, ◌≤◌, ◌<◌, ◌≡◌, refl, ◌∙◌, ap, arith, true, false, lt→ltb, le→ltb_false, List, [], ◌∷◌,
  ◌++◌, append_assoc, All, Bytes, length, drop,
}
use screen_viewer.Message.{Message, start_stream, is_type}
use screen_viewer.Message.Header.{is_type_self}
use screen_viewer.Outcome.{done}
use screen_viewer.Transport.{Transport, Lawful}
use screen_viewer.Socket.{Socket, receive_to_buffer, buffer_size}
use screen_viewer.Socket.Framing.{frame, message_frames}
use screen_viewer.Socket.Delivery.{Holds, Gets, receive_frame}
use screen_viewer.Socket.Buffer.{kept, receive_to_buffer-receive}
use screen_viewer.ClientSocket.{wait_for_start_stream_message}

-- A message that fits the buffer and does not start the stream.
abbrev pub Other : Message → Type 0
Other m = (length m.content ≤ buffer_size) × (is_type m.type start_stream ≡ false)

module _ (t : Transport) (law : Lawful t) {H : Type 0} where
  pub receive_to_buffer-frame :
      (m : Message) (rest : Bytes) (s : Socket t H)
      → length m.content ≤ buffer_size
      → Holds t law (frame m.type m.content ++ rest) s
      → Gets t law (receive_to_buffer t s) m rest
  receive_to_buffer-frame m rest s fits held =
      let (s1, e, held1) = receive_frame t law m.type m.content rest s fits held in
      (
        record s1 { data_buffer = m.content ++ drop (length m.content) s1.data_buffer },
        receive_to_buffer-receive t law s ∙ ap (kept t law) e,
        held1,
      )

  -- When messages that fit the buffer and do not start the stream have arrived at an open socket,
  -- and behind them a start of the stream that fits it, then the client that waits notices the
  -- start, as long as the clock, read once before each message, stays below the timeout. Nothing
  -- behind the start is read.
  pub wait_for_start_stream_message-true :
      (timeout : ℕ) (others : List Message) (clock more : List ℕ) (content rest : Bytes)
      (s : Socket t H)
      → length content ≤ buffer_size
      → All Other others
      → length clock ≡ suc (length others)
      → All (λ passed. passed < timeout) clock
      → Holds t law (message_frames others ++ (frame start_stream content ++ rest)) s
      → Gets t law (wait_for_start_stream_message t timeout (clock ++ more) s) true rest
  unfolding wait_for_start_stream_message
  wait_for_start_stream_message-true timeout [] (passed ∷ []) more content rest s fits others n
        early held =
      let (s1, e, held1) =
        receive_to_buffer-frame (record { type = start_stream; content = content }) rest s fits
          held in
      (s1, rw (lt→ltb passed timeout early.0, e, is_type_self start_stream) refl, held1)
  wait_for_start_stream_message-true timeout (m ∷ ms) (passed ∷ clock) more content rest s fits
        others n early held =
      let behind = message_frames ms ++ (frame start_stream content ++ rest) in
      let held' : Holds t law (frame m.type m.content ++ behind) s = (
        held.0,
        held.1
            ∙ append_assoc (frame m.type m.content) (message_frames ms)
                (frame start_stream content ++ rest),
      ) in
      let (s1, e, held1) = receive_to_buffer-frame m behind s others.0.0 held' in
      let (s2, e2, held2) =
        wait_for_start_stream_message-true timeout ms clock more content rest s1 fits others.1
          (omega arith) early.1 held1 in
      (s2, rw (lt→ltb passed timeout early.0, e, others.0.1, e2) refl, held2)
  wait_for_start_stream_message-true timeout [] [] more content rest s fits others n early held =
      absurd (omega arith)
  wait_for_start_stream_message-true timeout [] (p ∷ q ∷ clock) more content rest s fits others n
        early held =
      absurd (omega arith)
  wait_for_start_stream_message-true timeout (m ∷ ms) [] more content rest s fits others n early
        held =
      absurd (omega arith)

  -- Once the clock has reached the timeout, waiting ends without a read, and the answer is no.
  pub wait_for_start_stream_message-false :
      (timeout passed : ℕ) (clock : List ℕ) (s : Socket t H)
      → timeout ≤ passed
      → wait_for_start_stream_message t timeout (passed ∷ clock) s ≡ done false s
  unfolding wait_for_start_stream_message
  wait_for_start_stream_message-false timeout passed clock s late =
      rw (le→ltb_false passed timeout late) refl
