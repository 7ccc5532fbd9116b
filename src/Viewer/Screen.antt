-- ===== src/Viewer/Screen.antt =====
-- The streamer's screen at the viewer: `scheduleAsyncSendScreenshots` of
-- src/streamer/ScreenViewerStreamer.cpp on one end, `runLoop` of src/ScreenViewerClient.cpp on the other.
use screen_viewer.Prelude.{
  ℕ, suc, ◌≤◌, ◌≡◌, refl, sym, ap, ◌∙◌, List, [], ◌∷◌, ◌++◌, some, All, All-append, map, Bytes,
  length,
}
use mathlib.Core.List.{append_cancel_left}
use screen_viewer.Message.{screen_update}
use screen_viewer.Outcome.{done, M}
use screen_viewer.Transport.{Transport, Lawful}
use screen_viewer.Socket.{buffer_size}
use screen_viewer.Socket.Framing.{frames}
use screen_viewer.Socket.Delivery.{Holds}
use screen_viewer.IoController.{IoController}
use screen_viewer.VideoEncoder.{Codec, VideoEncoder, encode}
use screen_viewer.VideoDecoder.{Decoder}
use screen_viewer.Streamer.Screenshots.{Sender, complete_writes}
use screen_viewer.Streamer.Screenshots.Packets.{packet_list, encoded_packets, Captures}
use screen_viewer.Streamer.Screenshots.Frames.{wire, complete_writes-Adds}
use screen_viewer.Viewer.Window.{Sdl}
use screen_viewer.Viewer.{SdlEvent}
use screen_viewer.Viewer.Loop.{Client, run_loop}
use screen_viewer.Viewer.Loop.Playback.{images, decoded_images, run_loop-decoded_images}

-- A round without an event for each packet.
abbrev pub idle : List Bytes → List (ℕ × List (ℕ × ℕ × SdlEvent))
idle packets = map (λ start. (start, [])) (map (λ packet. 0) packets)

encoded_packets-All :
    (codec : Codec) (P : Bytes → Type 0)
    → ((picture : codec.Picture) (e : VideoEncoder codec)
        → All P (packet_list codec (encode codec picture e).0))
    → (encoder : VideoEncoder codec) (pictures : List codec.Picture)
    → All P (encoded_packets codec encoder pictures)
encoded_packets-All codec P small encoder [] = tt
encoded_packets-All codec P small encoder (picture ∷ pictures) =
    All-append P (packet_list codec (encode codec picture encoder).0) _ (small picture encoder)
      (encoded_packets-All codec P small (encode codec picture encoder).1 pictures)

same_length :
    (packets : List Bytes) → length {A = ℕ} (map (λ (p : Bytes). 0) packets) ≡ length packets
same_length [] = refl
same_length (p ∷ ps) = ap suc (same_length ps)

module _ (t : Transport) (law : Lawful t) (io : IoController) (codec : Codec)
    (capture_screenshot : M io.State codec.Picture) (u : Transport) (viewer_law : Lawful u)
    (sdl_key_sym_to_x11 : ℕ → ℕ) (d : Decoder) (sdl : Sdl) where
  -- If the streamer has completed some writes of screenshots without an exception, all writes succeed and
  -- no packet of the encoder is longer than the buffer, and what it has written and is writing
  -- since has arrived at a viewer's open socket, then the viewer, whose user does nothing and whose
  -- `cv::resize` to the size that an image has leaves it as it is, renders exactly the images that its
  -- decoder makes of what the encoder has made of the screenshots that the controller has taken, each
  -- once and in their order, and leaves what stood behind; if SDL makes every texture that is asked for.
  pub complete_writes-decoded_images :
      (n : ℕ) (s s' : Sender t io codec capture_screenshot) (sent rest : Bytes)
      (c : Client u sdl_key_sym_to_x11 d sdl)
      → ((bytes : Bytes) (x : t.Stream) → (x' : t.Stream) × (t.write bytes x ≡ done tt x'))
      → ((picture : codec.Picture) (e : VideoEncoder codec)
          → All
              (λ packet. length packet ≤ buffer_size)
              (packet_list codec (encode codec picture e).0))
      → ((image : d.Image) → d.resize image (d.cols image) (d.rows image) ≡ image)
      → ((renderer w h : ℕ) (x : sdl.State)
          → (texture : ℕ) × (x' : sdl.State) × (sdl.create_texture renderer w h x
              ≡ (some texture, x')))
      → complete_writes t io codec capture_screenshot n s ≡ done tt s'
      → wire t law io codec capture_screenshot s' ≡ wire t law io codec capture_screenshot s ++ sent
      → Holds u viewer_law (sent ++ rest) c.viewer.socket
      → (pictures : List codec.Picture) × (c' : Client u sdl_key_sym_to_x11 d sdl) × Captures
          capture_screenshot s.streamer.io_controller pictures s'.streamer.io_controller
        × (run_loop u sdl_key_sym_to_x11 d sdl (idle (encoded_packets codec s.encoder pictures)) c
            ≡ done tt c')
        × Holds u viewer_law rest c'.viewer.socket
        × (images u sdl_key_sym_to_x11 d sdl c'
            ≡ images u sdl_key_sym_to_x11 d sdl c
              ++ decoded_images d c.decoder (encoded_packets codec s.encoder pictures))
  complete_writes-decoded_images n s s' sent rest c writes small same_size textures e out held =
      let adds = complete_writes-Adds t law io codec capture_screenshot writes n s s' e in
      let packets = encoded_packets codec s.encoder adds.pictures in
      let whole : sent ≡ frames screen_update packets =
        append_cancel_left (wire t law io codec capture_screenshot s) sent
          (frames screen_update packets) (sym out ∙ adds.added) in
      let (c', ran, left, context, seen) =
        run_loop-decoded_images u sdl_key_sym_to_x11 d sdl same_size textures viewer_law packets
          (map (λ (p : Bytes). 0) packets) rest c
          (encoded_packets-All codec (λ packet. length packet ≤ buffer_size) small s.encoder
            adds.pictures)
          (same_length packets) (held.0, held.1 ∙ ap (λ z. z ++ rest) whole) in
      (adds.pictures, c', adds.captured, ran, left, seen)
