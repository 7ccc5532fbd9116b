-- ===== src/Socket/Bounds.antt =====
-- Asynchronous reads never run past the end of `data_buffer`.
use screen_viewer.Prelude.{
  ℕ, ◌≤◌, ◌≡◌, refl, ap, ◌∙◌, arith, ◌++◌, Option, none, some, Bytes, length, length-append, drop,
  length-drop,
}
use screen_viewer.Message.{
  Message, MessageHeader, header_size, deserialize, Checked, ok, err, HeaderError,
}
use screen_viewer.Message.Header.{deserialize-ok_iff}
use screen_viewer.Outcome.{Outcome, done, thrown, final, message_header_exception, final-after}
use screen_viewer.Transport.{Transport, Lawful}
use screen_viewer.Socket.Keeps.{safe_disconnect-Keeps}
use screen_viewer.Socket.Framing.{buffer_size-header}
use screen_viewer.Socket.{
  Socket, Pending, header_read, content_read, buffer_size, poll, poll_pending, header_read_ended,
  content_read_ended, header_checked, header_arrived, content_arrived,
}

fill-whole :
    (bytes buffer : Bytes)
    → length buffer ≡ buffer_size
    → length bytes ≤ buffer_size
    → length (bytes ++ drop (length bytes) buffer) ≡ buffer_size
fill-whole bytes buffer e h =
    omega
      (arith, length-append bytes (drop (length bytes) buffer), length-drop (length bytes) buffer)

module _ (t : Transport) (law : Lawful t) {H : Type 0} where
  -- No outstanding read asks for more than the buffer holds.
  abbrev pub Fits : Option (Pending H) → Type 0
  Fits none = Unit {0}
  Fits (some (header_read h max)) = max ≤ buffer_size
  Fits (some (content_read h header)) = header.message_size ≤ buffer_size

  pub record IsBounded (s : Socket t H) : Type 0 where
    pub whole : length s.data_buffer ≡ buffer_size
    pub fits : Fits s.pending

  header_checked-IsBounded :
      (h : H) (max size : ℕ) (s : Socket t H)
      → max ≤ buffer_size
      → length s.data_buffer ≡ buffer_size
      → s.pending ≡ none
      → IsBounded (final (header_checked t h (deserialize s.data_buffer size max) s))
  unfolding header_checked
  header_checked-IsBounded h max size s small whole idle =
      go (deserialize s.data_buffer size max) refl
    where
      go :
          (r : Checked HeaderError MessageHeader)
          → deserialize s.data_buffer size max ≡ r
          → IsBounded (final (header_checked t h r s))
      go (ok header) e = record {
        whole = whole;
        fits = omega (arith, ((deserialize-ok_iff s.data_buffer size max header).0 e).1);
      }
      go (err x) e =
          let (buffer, read) =
            safe_disconnect-Keeps t (some (t.what (message_header_exception x))) s in
          record { whole = ap length buffer ∙ whole; fits = rw (read, idle) tt }

  header_read_ended-IsBounded :
      (h : H) (max : ℕ) (s : Socket t H) (o : Outcome t.Stream Bytes)
      → ((bytes : Bytes) (x : t.Stream) → o ≡ done bytes x → length bytes ≡ header_size)
      → max ≤ buffer_size
      → length s.data_buffer ≡ buffer_size
      → IsBounded (final (header_read_ended t h max s o))
  unfolding header_read_ended header_arrived
  header_read_ended-IsBounded h max s (done bytes x) size small whole =
      let fits : length bytes ≤ buffer_size =
        omega (arith, size bytes x refl, buffer_size-header) in
      let filled : Socket t H = record {
        stream = x;
        data_buffer = bytes ++ drop (length bytes) s.data_buffer;
        pending = none;
      } in
      rw
        (final-after {B = Option (H × Message)}
          (header_arrived t h max bytes (record s { stream = x; pending = none })) none)
        (header_checked-IsBounded h max (length bytes) filled small
          (fill-whole bytes s.data_buffer whole fits) refl)
  header_read_ended-IsBounded h max s (thrown e x) size small whole = record {
    whole = whole;
    fits = tt;
  }

  content_read_ended-IsBounded :
      (h : H) (header : MessageHeader) (s : Socket t H) (o : Outcome t.Stream Bytes)
      → ((bytes : Bytes) (x : t.Stream) → o ≡ done bytes x → length bytes ≡ header.message_size)
      → header.message_size ≤ buffer_size
      → length s.data_buffer ≡ buffer_size
      → IsBounded (final (content_read_ended t h header s o))
  unfolding content_read_ended content_arrived
  content_read_ended-IsBounded h header s (done bytes x) size small whole = record {
    whole = fill-whole bytes s.data_buffer whole (omega (arith, size bytes x refl));
    fits = tt;
  }
  content_read_ended-IsBounded h header s (thrown e x) size small whole = record {
    whole = whole;
    fits = tt;
  }

  -- With the buffer whole and no outstanding read larger than it, the completion of a read, of the
  -- header or of the content, failed or not, leaves the buffer whole and schedules no larger read.
  pub poll-IsBounded : (s : Socket t H) → IsBounded s → IsBounded (final (poll t s))
  unfolding poll poll_pending
  poll-IsBounded s b = go s.pending refl
    where
      go : (p : Option (Pending H)) → s.pending ≡ p → IsBounded (final (poll_pending t p s))
      go none e = b
      go (some (header_read h max)) e =
          header_read_ended-IsBounded h max s _
            (λ bytes x. law.read_length header_size bytes s.stream x) (rw e at b.fits) b.whole
      go (some (content_read h header)) e =
          content_read_ended-IsBounded h header s _
            (λ bytes x. law.read_length header.message_size bytes s.stream x) (rw e at b.fits)
            b.whole
