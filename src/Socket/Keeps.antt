-- ===== src/Socket/Keeps.antt =====
-- Writing, closing and disconnecting change nothing of a socket but its stream.
use screen_viewer.Prelude.{◌≡◌, refl, ◌∙◌, List, [], ◌∷◌, Option, none, some, Bytes}
use screen_viewer.Message.{disconnect as disconnect_type, MessageType, Message}
use screen_viewer.Outcome.{Outcome, done, thrown, M, after, final, give, handled}
use screen_viewer.Transport.{Transport}
use screen_viewer.Socket.Framing.{frame, write_frames, send-write_frames}
use screen_viewer.Socket.{Socket, on_stream, with_stream, safe_disconnect, disconnect, send}

module _ (t : Transport) {H : Type 0} where
  -- The call changes at most the stream.
  abbrev pub Keeps {κ} : {A : Type κ} → Socket t H → Outcome (Socket t H) A → Type 0
  Keeps s o = ((final o).data_buffer ≡ s.data_buffer) × ((final o).pending ≡ s.pending)

  pub after-Keeps {κ ι} :
      {A : Type κ} {B : Type ι} (s : Socket t H) (o : Outcome (Socket t H) A)
      (f : A → M (Socket t H) B)
      → Keeps s o
      → ((a : A) (s' : Socket t H) → Keeps s' (f a s'))
      → Keeps s (after o f)
  after-Keeps s (done a s') f k h = ((h a s').0 ∙ k.0, (h a s').1 ∙ k.1)
  after-Keeps s (thrown e s') f k h = k

  with_stream-Keeps {κ} :
      {A : Type κ} (s : Socket t H) (o : Outcome t.Stream A) → Keeps s (with_stream t s o)
  with_stream-Keeps s (done a x) = (refl, refl)
  with_stream-Keeps s (thrown e x) = (refl, refl)

  pub on_stream-Keeps {κ} :
      {A : Type κ} (m : M t.Stream A) (s : Socket t H) → Keeps s (on_stream t m s)
  on_stream-Keeps m s = with_stream-Keeps s (m s.stream)

  write_frames-Keeps :
      (type : MessageType) (chunks : List Bytes) (s : Socket t H)
      → Keeps s (write_frames t type chunks s)
  write_frames-Keeps type [] s = (refl, refl)
  write_frames-Keeps type (c ∷ cs) s =
      after-Keeps s (on_stream t (t.write (frame type c)) s) (λ _. write_frames t type cs)
        (on_stream-Keeps (t.write (frame type c)) s) (λ _ s'. write_frames-Keeps type cs s')

  pub send-Keeps : (message : Message) (s : Socket t H) → Keeps s (send t message s)
  send-Keeps m s =
      let (chunks, _, writes) = send-write_frames t m in
      rw (writes s) (write_frames-Keeps m.type chunks s)

  close_stream-Keeps :
      (s : Socket t H) → Keeps s (after (on_stream t t.shutdown s) (λ _. on_stream t t.close))
  close_stream-Keeps s =
      after-Keeps s (on_stream t t.shutdown s) (λ _. on_stream t t.close)
        (on_stream-Keeps t.shutdown s) (λ _ s'. on_stream-Keeps t.close s')

  pub disconnect-Keeps : (reason : Option Bytes) (s : Socket t H) → Keeps s (disconnect t reason s)
  unfolding disconnect
  disconnect-Keeps none s = close_stream-Keeps s
  disconnect-Keeps (some text) s =
      let message : Message = record { type = disconnect_type; content = text } in
      after-Keeps s (send t message s) _ (send-Keeps message s) (λ _ s'. close_stream-Keeps s')

  caught-Keeps :
      (s : Socket t H) (o : Outcome (Socket t H) (Unit {0}))
      → Keeps s o
      → Keeps s (handled o (λ e. give tt))
  caught-Keeps s (done a s') k = k
  caught-Keeps s (thrown e s') k = k

  pub safe_disconnect-Keeps :
      (reason : Option Bytes) (s : Socket t H) → Keeps s (safe_disconnect t reason s)
  unfolding safe_disconnect
  safe_disconnect-Keeps reason s =
      caught-Keeps s (disconnect t reason s) (disconnect-Keeps reason s)
