-- ===== src/Tests/Sockets.antt =====
-- Sockets, streamers and viewers over a stream in memory.
use screen_viewer.Prelude.{
  ℕ, ◌≡◌, ◌≤◌, refl, ap, ◌∙◌, arith, some, none, true, [], ◌∷◌, ◌++◌, List, Bytes, codes, length,
  map, replicate, length-replicate,
}
use screen_viewer.Message.{Message, MessageHeader, login, serialize_header}
use screen_viewer.Outcome.{done, final}
use screen_viewer.Socket.{
  Socket, header_read, buffer_size, send, receive, receive_to_buffer, poll, safe_disconnect,
}
use screen_viewer.Socket.Framing.{
  Splits, Splits-fits, concat, frame, write_frames, send-write_frames,
}
use screen_viewer.Socket.Delivery.{Holds, Gets, receive_all, send-receive_all}
use screen_viewer.Socket.Async.{poll_delivers, poll_too_long}
use screen_viewer.Socket.Buffer.{kept, receive_to_buffer-receive}
use screen_viewer.Socket.Bounds.{IsBounded, poll-IsBounded}
use screen_viewer.Tests.Fixtures.{pipe, pipe-Lawful}

abbrev hello : Message
hello = record { type = login; content = codes "hello" }

abbrev idle : Bytes → Socket pipe ℕ
idle bytes = record {
  stream = record { incoming = bytes; outgoing = []; live = true };
  data_buffer = [];
  pending = none;
}

abbrev reading : ℕ → Bytes → Socket pipe ℕ
reading max bytes = record (idle bytes) { pending = some (header_read 5 max) }

abbrev hello_frame : Bytes
hello_frame = frame login (codes "hello")

abbrev sender_after : Socket pipe ℕ
sender_after = record (idle []) {
  stream = record { incoming = []; outgoing = hello_frame; live = true };
}

hello_fits : length (codes "hello") ≤ buffer_size
unfolding buffer_size
hello_fits = omega arith

thousand_fits : 1000 ≤ buffer_size
unfolding buffer_size
thousand_fits = omega arith

hello_sent : send pipe hello (idle []) ≡ done tt sender_after
hello_sent =
    let (chunks, splits, same) = send-write_frames pipe hello in
    same (idle []) ∙ ap (λ c. write_frames pipe login c (idle [])) (Splits-fits hello_fits splits)

send-write_frames_example :
    (chunks : List Bytes) × Splits (codes "hello") chunks
    × ((s : Socket pipe ℕ) → send pipe hello s ≡ write_frames pipe login chunks s)
send-write_frames_example = send-write_frames pipe hello

send-receive_all_example :
    (chunks : List Bytes) × Splits (codes "hello") chunks
    × (concat chunks ≡ codes "hello")
    × Gets pipe pipe-Lawful
        (receive_all pipe (length chunks) (idle (hello_frame ++ 1 ∷ [])))
        (map (λ c. record { type = login; content = c }) chunks)
        (1 ∷ [])
send-receive_all_example =
    send-receive_all pipe pipe-Lawful hello (idle []) sender_after (idle (hello_frame ++ 1 ∷ []))
      hello_frame (1 ∷ []) hello_sent refl (refl, refl)

poll_delivers_example :
    (s1 s2 : Socket pipe ℕ) × (poll pipe (reading 1000 (hello_frame ++ [])) ≡ done none s1)
    × (poll pipe s1 ≡ done (some (5, hello)) s2)
    × (s2.pending ≡ none)
    × Holds pipe pipe-Lawful [] s2
poll_delivers_example =
    poll_delivers pipe pipe-Lawful 5 1000 hello [] (reading 1000 (hello_frame ++ [])) refl
      (omega arith) (omega arith) (refl, refl)

abbrev large : MessageHeader
large = record { message_size = 2000; type = login }

poll_too_long_example :
    (s1 : Socket pipe ℕ) × (poll pipe (reading 1000 (serialize_header large ++ 1 ∷ []))
      ≡ done none s1)
    × (s1.pending ≡ none)
    × (s' : Socket pipe ℕ) × (s'.stream.incoming ≡ 1 ∷ [])
    × (s1 ≡ final (safe_disconnect pipe (some (codes "error")) s'))
poll_too_long_example =
    poll_too_long pipe pipe-Lawful 5 1000 large (1 ∷ [])
      (reading 1000 (serialize_header large ++ 1 ∷ [])) refl (omega arith) (omega arith)
      (refl, refl)

receive_to_buffer-receive_example :
    receive_to_buffer pipe (idle (hello_frame ++ []))
    ≡ kept pipe pipe-Lawful (receive pipe (idle (hello_frame ++ [])))
receive_to_buffer-receive_example =
    receive_to_buffer-receive pipe pipe-Lawful (idle (hello_frame ++ []))

abbrev whole : Socket pipe ℕ
whole = record (reading 1000 hello_frame) { data_buffer = replicate buffer_size 0 }

poll-IsBounded_example : IsBounded pipe pipe-Lawful (final (poll pipe whole))
poll-IsBounded_example =
    poll-IsBounded pipe pipe-Lawful whole
      (record { whole = length-replicate buffer_size 0; fits = thousand_fits })
