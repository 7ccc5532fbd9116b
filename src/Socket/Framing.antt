-- ===== src/Socket/Framing.antt =====
-- `send` cuts a message into chunks that the peer's buffer holds, each with a header of its own.
use screen_viewer.Prelude.{
  ℕ, zero, suc, ◌+◌, ◌-◌, ◌≤◌, ◌<◌, ◌^◌, ◌≡◌, refl, sym, ap, ◌∙◌, inl, inr, arith, ltb, Bool-cases,
  ltb→lt, ltb_false→le, List, [], ◌∷◌, ◌++◌, append-nil, Bytes, length, length-append, take, drop,
  length-take, length-drop, take-append-drop, fun_ext, take-length, drop-drop,
}
use screen_viewer.Message.{MessageType, Message, header_size, serialize_header}
use screen_viewer.Outcome.{Outcome, done, thrown, M, after, ◌>>◌, give}
use screen_viewer.Transport.{Transport}
use screen_viewer.Socket.{Socket, buffer_size, send_chunk, send_loop, send, on_stream}

pub buffer_size-pos : 0 < buffer_size
unfolding buffer_size
buffer_size-pos = omega arith

pub buffer_size-lt : buffer_size < 2 ^ 64
unfolding buffer_size
buffer_size-lt = omega arith

-- The constructor's `static_assert`.
pub buffer_size-header : header_size ≤ buffer_size
unfolding buffer_size
buffer_size-header = omega arith

-- How a content is cut: full chunks while more than one chunk is left, then the rest.
pub data Splits : Bytes → List Bytes → Type 0 where
  last : {content : Bytes} → length content ≤ buffer_size → Splits content (content ∷ [])
  full :
      {content : Bytes} {chunks : List Bytes} (chunk rest : Bytes)
      → content ≡ chunk ++ rest
      → length chunk ≡ buffer_size
      → 0 < length rest
      → Splits rest chunks
      → Splits content (chunk ∷ chunks)

abbrev pub concat : List Bytes → Bytes
concat [] = []
concat (c ∷ cs) = c ++ concat cs

pub Splits-concat :
    {content : Bytes} {chunks : List Bytes} → Splits content chunks → concat chunks ≡ content
Splits-concat (last {content} h) = append-nil content
Splits-concat (full chunk rest e n pos s) = ap (◌++◌ chunk) (Splits-concat s) ∙ sym e

pub Splits-fits :
    {content : Bytes} {chunks : List Bytes}
    → length content ≤ buffer_size
    → Splits content chunks
    → chunks ≡ content ∷ []
Splits-fits fits (last h) = refl
Splits-fits fits (full chunk rest e n pos s) =
    absurd (omega (arith, ap length e, length-append chunk rest))

-- The bytes of one chunk on the wire.
abbrev pub frame : MessageType → Bytes → Bytes
frame type content =
    serialize_header (record { message_size = length content; type = type }) ++ content

abbrev pub frames : MessageType → List Bytes → Bytes
frames type [] = []
frames type (c ∷ cs) = frame type c ++ frames type cs

-- The bytes of several messages, each of one chunk.
abbrev pub message_frames : List Message → Bytes
message_frames [] = []
message_frames (m ∷ ms) = frame m.type m.content ++ message_frames ms

module _ (t : Transport) {H : Type 0} where
  -- One write for each chunk, up to the first that fails.
  abbrev pub write_frames : MessageType → List Bytes → M (Socket t H) (Unit {0})
  write_frames type [] = give tt
  write_frames type (c ∷ cs) = do on_stream t (t.write (frame type c)); write_frames type cs

after-give {ℓ} : {S : Type ℓ} (o : Outcome S (Unit {0})) → after o (λ _. give tt) ≡ o
after-give (done tt s) = refl
after-give (thrown e s) = refl

record Sends (t : Transport) (H : Type 0) (fuel message_length ptr_cursor : ℕ) (message : Message)
    : Type 0 where
  chunks : List Bytes
  splits : Splits (drop ptr_cursor message.content) chunks
  writes :
      (s : Socket t H)
      → send_loop t fuel message message_length ptr_cursor s ≡ write_frames t message.type chunks s

module _ (t : Transport) {H : Type 0} where
  send_loop-Sends :
      (fuel message_length ptr_cursor : ℕ) (message : Message)
      → message_length ≡ length message.content - ptr_cursor
      → message_length < fuel
      → Sends t H fuel message_length ptr_cursor message
  unfolding send_loop send_chunk
  send_loop-Sends zero n cursor m e h = absurd (omega arith)
  send_loop-Sends (suc fuel) n cursor m e h =
      let rest = drop cursor m.content in
      let size : length rest ≡ n = length-drop cursor m.content ∙ sym e in
      elim (Bool-cases (ltb buffer_size n)) [
        | inl more ↦
            let big = ltb→lt buffer_size n more in
            let ih =
              send_loop-Sends fuel (n - buffer_size) (cursor + buffer_size) m (omega arith)
                (omega (arith, buffer_size-pos)) in
            let after_chunk : drop buffer_size rest ≡ drop (cursor + buffer_size) m.content =
              drop-drop buffer_size cursor m.content in
            record {
              chunks = take buffer_size rest ∷ ih.chunks;
              splits =
                  full (take buffer_size rest) (drop buffer_size rest)
                    (sym (take-append-drop buffer_size rest))
                    (omega (arith, length-take buffer_size rest))
                    (omega (arith, length-drop buffer_size rest)) (rw after_chunk ih.splits);
              writes = λ s. rw more (ap (after _) (fun_ext λ _. fun_ext ih.writes));
            }
        | inr end ↦ record {
          chunks = rest ∷ [];
          splits = last (omega (arith, ltb_false→le buffer_size n end));
          writes = λ s. rw (end, take-length n rest (omega arith)) (sym (after-give _));
        }
      ]

  -- `send` writes the chunks of the content in order, each with its header, and stops at the first
  -- write that fails, with that write's exception: for every message the loop ends by itself.
  pub send-write_frames :
      (message : Message)
      → (chunks : List Bytes) × Splits message.content chunks
        × ((s : Socket t H) → send t message s ≡ write_frames t message.type chunks s)
  unfolding send
  send-write_frames m =
      let all =
        send_loop-Sends (suc (length m.content)) (length m.content) 0 m (omega arith)
          (omega arith) in
      (all.chunks, all.splits, all.writes)
