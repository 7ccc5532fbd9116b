-- ===== src/Streamer/Screenshots/Frames.antt =====
-- What is on the wire: whole screen updates, one after the other, with the packets of the screenshots.
use screen_viewer.Prelude.{
  ℕ, zero, suc, ◌≡◌, refl, sym, ap, ◌∙◌, subst, List, [], ◌∷◌, ◌++◌, append-nil, append_assoc,
  Option, none, some, Bytes,
}
use screen_viewer.Message.{MessageType, screen_update}
use screen_viewer.Outcome.{Outcome, done, thrown, M, after-eq-done, final}
use screen_viewer.Transport.{Transport, Lawful}
use screen_viewer.Socket.Framing.{frame, frames}
use screen_viewer.IoController.{IoController}
use screen_viewer.VideoEncoder.{Codec, VideoEncoder, encode}
use screen_viewer.Streamer.{with_controller}
use screen_viewer.Streamer.Screenshots.{
  Sender, with_streamer, async_send_message, packet_encoded, schedule_async_send_screenshots,
  write_ended, write_pending, complete_write, complete_writes,
}
use screen_viewer.Streamer.Screenshots.Packets.{
  packet_list, encoded_packets, encoder_behind, encoder_behind-append, encoded_packets-append,
  Captures, nothing, next, Captures-trans,
}

abbrev pub bytes_of : Option Bytes → Bytes
bytes_of none = []
bytes_of (some bytes) = bytes

frames-append :
    (type : MessageType) (xs ys : List Bytes)
    → frames type (xs ++ ys) ≡ frames type xs ++ frames type ys
frames-append type [] ys = refl
frames-append type (x ∷ xs) ys =
    ap (λ z. frame type x ++ z) (frames-append type xs ys)
    ∙ sym (append_assoc (frame type x) (frames type xs) (frames type ys))

module _ (t : Transport) (law : Lawful t) (io : IoController) (codec : Codec)
    (capture_screenshot : M io.State codec.Picture) where
  open law use {outgoing}

  -- What has been written and is being written.
  abbrev pub wire : Sender t io codec capture_screenshot → Bytes
  wire s = outgoing s.streamer.socket.stream ++ bytes_of s.sending

  abbrev pub camera : Sender t io codec capture_screenshot → io.State
  camera s = s.streamer.io_controller

  abbrev camera_after :
      Outcome (Sender t io codec capture_screenshot) codec.Picture → Outcome io.State codec.Picture
  camera_after (done picture s) = done picture (camera s)
  camera_after (thrown e s) = thrown e (camera s)

  -- From `s` to `s'` screenshots have been made and encoded in turn, and for each packet a whole screen
  -- update has been added.
  pub record Adds (s s' : Sender t io codec capture_screenshot) : Type 0 where
    pub pictures : List codec.Picture
    pub captured : Captures capture_screenshot (camera s) pictures (camera s')
    pub encoder : s'.encoder ≡ encoder_behind codec s.encoder pictures
    pub added : wire s' ≡ wire s ++ frames screen_update (encoded_packets codec s.encoder pictures)

  Adds-trans : (a b c : Sender t io codec capture_screenshot) → Adds a b → Adds b c → Adds a c
  Adds-trans a b c p q =
      let first = encoded_packets codec a.encoder p.pictures in
      let second = encoded_packets codec (encoder_behind codec a.encoder p.pictures) q.pictures in
      record {
        pictures = p.pictures ++ q.pictures;
        captured = Captures-trans p.captured q.captured;
        encoder =
            q.encoder
            ∙ ap (λ e. encoder_behind codec e q.pictures) p.encoder
            ∙ sym (encoder_behind-append codec a.encoder p.pictures q.pictures);
        added =
            q.added
            ∙ ap (λ e. wire b ++ frames screen_update (encoded_packets codec e q.pictures))
                p.encoder
            ∙ ap (λ z. z ++ frames screen_update second) p.added
            ∙ append_assoc (wire a) (frames screen_update first) (frames screen_update second)
            ∙ ap (λ z. wire a ++ z)
                (sym (frames-append screen_update first second)
                  ∙ ap (frames screen_update)
                      (sym (encoded_packets-append codec a.encoder p.pictures q.pictures)));
      }

  Adds-none : (s s' : Sender t io codec capture_screenshot) → s ≡ s' → Adds s s'
  Adds-none s s' same = subst (Adds s) same (record {
    pictures = [];
    captured = nothing;
    encoder = refl;
    added = sym (append-nil (wire s));
  })

  packet_encoded-wire :
      (r : Option Bytes × VideoEncoder codec) (s s' : Sender t io codec capture_screenshot)
      → s.sending ≡ none
      → packet_encoded t io codec capture_screenshot r s ≡ done tt s'
      → (wire s' ≡ wire s ++ frames screen_update (packet_list codec r.0))
        × (s'.encoder ≡ r.1)
        × (camera s' ≡ camera s)
  unfolding packet_encoded async_send_message
  packet_encoded-wire (none, encoder) s s' idle e =
      let same : record s { encoder = encoder } ≡ s' = ap final e in
      (
        ap wire (sym same) ∙ sym (append-nil (wire s)),
        ap (λ x. x.encoder) (sym same),
        ap camera (sym same),
      )
  packet_encoded-wire (some packet, encoder) s s' idle e =
      let whole = frame screen_update packet in
      let same : record s { encoder = encoder; sending = some whole } ≡ s' = ap final e in
      let front = outgoing s.streamer.socket.stream in
      (
        ap wire (sym same)
            ∙ ap (λ z. z ++ whole)
                (sym (append-nil front) ∙ ap (λ o. front ++ bytes_of o) (sym idle))
            ∙ ap (λ z. wire s ++ z) (sym (append-nil whole)),
        ap (λ x. x.encoder) (sym same),
        ap camera (sym same),
      )

  -- A screenshot changes the controller alone.
  captured-wire :
      (s s1 : Sender t io codec capture_screenshot) (o : Outcome io.State codec.Picture)
      (picture : codec.Picture)
      → with_streamer t io codec capture_screenshot s (with_controller t io s.streamer o)
        ≡ done picture s1
      → (wire s1 ≡ wire s)
        × (s1.sending ≡ s.sending)
        × (s1.encoder ≡ s.encoder)
        × (o ≡ done picture (camera s1))
  captured-wire s s1 (done p c) picture e =
      let same = ap final e in
      (
        ap wire (sym same),
        ap (λ z. z.sending) (sym same),
        ap (λ z. z.encoder) (sym same),
        ap camera_after e,
      )
  captured-wire s s1 (thrown x c) picture e = cc

  schedule-Adds :
      (s s' : Sender t io codec capture_screenshot)
      → s.sending ≡ none
      → schedule_async_send_screenshots t io codec capture_screenshot s ≡ done tt s'
      → Adds s s'
  unfolding schedule_async_send_screenshots
  schedule-Adds s s' idle e =
      let (picture, s1, e1, e2) =
        after-eq-done
          (with_streamer t io codec capture_screenshot s
            (with_controller t io s.streamer (capture_screenshot s.streamer.io_controller)))
          _ e in
      let (same, quiet, encoder, shot) =
        captured-wire s s1 (capture_screenshot s.streamer.io_controller) picture e1 in
      let (rest, behind, still) =
        packet_encoded-wire (encode codec picture s1.encoder) s1 s' (quiet ∙ idle) e2 in
      let packets = λ (x : VideoEncoder codec). packet_list codec (encode codec picture x).0 in
      record {
        pictures = picture ∷ [];
        captured =
            subst (Captures capture_screenshot (camera s) (picture ∷ [])) (sym still)
              (next shot nothing);
        encoder = behind ∙ ap (λ x. (encode codec picture x).1) encoder;
        added =
            rest
            ∙ ap (λ z. z ++ frames screen_update (packets s1.encoder)) same
            ∙ ap (λ x. wire s ++ frames screen_update (packets x)) encoder
            ∙ ap (λ l. wire s ++ frames screen_update l) (sym (append-nil (packets s.encoder)));
      }

  module _
      (writes : (bytes : Bytes) (x : t.Stream)
        → (x' : t.Stream) × (t.write bytes x ≡ done tt x')) where
    write_pending-Adds :
        (o : Option Bytes) (s s' : Sender t io codec capture_screenshot)
        → s.sending ≡ o
        → write_pending t io codec capture_screenshot o s ≡ done tt s'
        → Adds s s'
    unfolding write_pending write_ended
    write_pending-Adds none s s' is e = Adds-none s s' (ap final e)
    write_pending-Adds (some bytes) s s' is e =
        let (x, wrote) = writes bytes s.streamer.socket.stream in
        let next : Sender t io codec capture_screenshot = record s {
          streamer = record s.streamer { socket = record s.streamer.socket { stream = x } };
          sending = none;
        } in
        let rest = schedule-Adds next s' refl (rw wrote at e) in
        let same : wire next ≡ wire s =
          append-nil (outgoing x)
          ∙ (law.write_done bytes s.streamer.socket.stream x wrote).0
          ∙ ap (λ o. outgoing s.streamer.socket.stream ++ bytes_of o) (sym is) in
        record {
          pictures = rest.pictures;
          captured = rest.captured;
          encoder = rest.encoder;
          added =
              rest.added
              ∙ ap (λ z. z ++ frames screen_update (encoded_packets codec s.encoder rest.pictures))
                  same;
        }

    -- If every write succeeds, then after any number of completed writes that end without an exception
    -- the controller has made screenshots one after the other, the encoder has encoded them in
    -- their order, and what has been written and is being written has grown by whole frames, a screen
    -- update for each packet: two screenshots never mix on the wire.
    pub complete_writes-Adds :
        (n : ℕ) (s s' : Sender t io codec capture_screenshot)
        → complete_writes t io codec capture_screenshot n s ≡ done tt s'
        → Adds s s'
    unfolding complete_writes complete_write
    complete_writes-Adds zero s s' e = Adds-none s s' (ap final e)
    complete_writes-Adds (suc n) s s' e =
        let (_, s1, e1, e2) = after-eq-done (complete_write t io codec capture_screenshot s) _ e in
        Adds-trans s s1 s' (write_pending-Adds s.sending s s1 refl e1)
          (complete_writes-Adds n s1 s' e2)
