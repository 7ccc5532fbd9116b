-- ===== src/Viewer/Loop/Playback.antt =====
-- What the viewer shows of a stream of packets.
use screen_viewer.Prelude.{
  ℕ, ◌≤◌, ◌==◌, ◌≡◌, refl, sym, ap, ◌∙◌, arith, ◌&&◌, Bool-cases, inl, inr, List, [], ◌∷◌, ◌++◌,
  All, map, subst, append-nil, append_assoc, Option, none, some, Bytes, length,
}
use mathlib.Core.List.{map-append}
use screen_viewer.Message.{screen_update}
use screen_viewer.Message.Header.{is_type_self}
use screen_viewer.Outcome.{done}
use screen_viewer.Transport.{Transport, Lawful}
use screen_viewer.Socket.{buffer_size}
use screen_viewer.Socket.Framing.{frame, frames}
use screen_viewer.Socket.Delivery.{Holds}
use screen_viewer.ClientSocket.Requests.{receive_to_buffer-frame}
use screen_viewer.Viewer.Window.{Sdl, create_texture}
use screen_viewer.Viewer.{handle_io_events}
use screen_viewer.VideoDecoder.{Decoder, decode}
use screen_viewer.Viewer.Loop.{
  Rendered, Client, resized, frame_of, get_new_frame, with_texture, render, show_message, round,
  run_loop,
}

-- The pictures that the decoder makes of these packets.
module _ (d : Decoder) where
  abbrev pub image_list : Option d.Image → List d.Image
  image_list none = []
  image_list (some image) = image ∷ []

  abbrev pub decoded_images : d.State → List Bytes → List d.Image
  decoded_images context [] = []
  decoded_images context (packet ∷ packets) =
      image_list (decode d packet context).0 ++ decoded_images (decode d packet context).1 packets

  abbrev pub decoded_context : d.State → List Bytes → d.State
  decoded_context context [] = context
  decoded_context context (packet ∷ packets) = decoded_context (decode d packet context).1 packets

module _ (t : Transport) (sdl_key_sym_to_x11 : ℕ → ℕ) (d : Decoder) (sdl : Sdl) where
  abbrev pub images : Client t sdl_key_sym_to_x11 d sdl → List d.Image
  images c = map (λ (r : Rendered t sdl_key_sym_to_x11 d sdl). r.image) c.rendered

  -- A message has been shown: the socket is as it was, and `o` is the picture that was made of it.
  record Shown (o : Option d.Image) (context : d.State) (c c' : Client t sdl_key_sym_to_x11 d sdl)
      : Type 0 where
    socket : c'.viewer.socket ≡ c.viewer.socket
    decoder : c'.decoder ≡ context
    seen : images c' ≡ images c ++ image_list d o

  one_more :
      (r : Rendered t sdl_key_sym_to_x11 d sdl) (c : Client t sdl_key_sym_to_x11 d sdl)
      → map (λ (x : Rendered t sdl_key_sym_to_x11 d sdl). x.image) (c.rendered ++ r ∷ [])
        ≡ images c ++ r.image ∷ []
  one_more r c =
      map-append (λ (x : Rendered t sdl_key_sym_to_x11 d sdl). x.image) c.rendered (r ∷ [])

  -- `cv::resize` to the size that the image has, and SDL where it makes every texture.
  module _ (same_size : (image : d.Image) → d.resize image (d.cols image) (d.rows image) ≡ image)
      (textures : (renderer w h : ℕ) (s : sdl.State)
        → (texture : ℕ) × (s' : sdl.State) × (sdl.create_texture renderer w h s
            ≡ (some texture, s'))) where
    -- Where the picture has another size, the texture is made anew.
    frame_of-Shown :
        (o : Option d.Image) (c : Client t sdl_key_sym_to_x11 d sdl)
        → (i : Option d.Image) × (c' : Client t sdl_key_sym_to_x11 d sdl) × (frame_of t
              sdl_key_sym_to_x11 d sdl o c
            ≡ done i c')
          × Shown o c.decoder c (render t sdl_key_sym_to_x11 d sdl i c')
    unfolding frame_of resized with_texture create_texture render
    frame_of-Shown none c = (
      none,
      c,
      refl,
      record { socket = refl; decoder = refl; seen = sym (append-nil (images c)) },
    )
    frame_of-Shown (some image) c =
        elim (Bool-cases
          (d.rows image == c.viewer.frame_height && d.cols image == c.viewer.frame_width)) [
            | inl same ↦ (
              some image,
              c,
              rw same refl,
              record { socket = refl; decoder = refl; seen = one_more _ c },
            )
            | inr other ↦
                let (texture, s, made) =
                  textures c.drawing.renderer (d.cols image) (d.rows image) c.sdl_state in
                (
                  some (d.resize image (d.cols image) (d.rows image)),
                  record c {
                    viewer = record c.viewer {
                      frame_height = d.rows image;
                      frame_width = d.cols image;
                    };
                    drawing = record c.drawing { texture = texture };
                    sdl_state = sdl.destroy_texture c.drawing.texture s;
                    texture_width = d.cols image;
                    texture_height = d.rows image;
                  },
                  rw (other, made) refl,
                  record {
                    socket = refl;
                    decoder = refl;
                    seen = one_more _ c ∙ ap (λ i. images c ++ i ∷ []) (same_size image);
                  },
                )
          ]

    module _ (law : Lawful t) where
      -- A round in which the user does nothing.
      round-Shown :
          (packet rest : Bytes) (start : ℕ) (c : Client t sdl_key_sym_to_x11 d sdl)
          → length packet ≤ buffer_size
          → Holds t law (frame screen_update packet ++ rest) c.viewer.socket
          → (c' : Client t sdl_key_sym_to_x11 d sdl) × (round t sdl_key_sym_to_x11 d sdl
                (start, [])
                c
              ≡ done tt c')
            × Holds t law rest c'.viewer.socket
            × (c'.decoder ≡ (decode d packet c.decoder).1)
            × (images c' ≡ images c ++ image_list d (decode d packet c.decoder).0)
      unfolding round show_message get_new_frame handle_io_events
      round-Shown packet rest start c fits held =
          let (s, got, left) =
            receive_to_buffer-frame t law (record { type = screen_update; content = packet }) rest
              c.viewer.socket fits held in
          let c1 : Client t sdl_key_sym_to_x11 d sdl = record c {
            viewer = record c.viewer { socket = s };
          } in
          let (o, context) = decode d packet c.decoder in
          let (i, c2, made, shown) = frame_of-Shown o (record c1 { decoder = context }) in
          (
            render t sdl_key_sym_to_x11 d sdl i c2,
            rw (got, is_type_self screen_update, made) refl,
            subst (Holds t law rest) (sym shown.socket) left,
            shown.decoder,
            shown.seen,
          )

      -- If the frames of screen updates, each with a packet that fits the buffer, have arrived at a
      -- viewer's open socket, and the user does nothing for as many rounds, the loop takes them all and
      -- leaves what stands behind them; the pictures rendered are exactly those that the decoder makes
      -- of the packets, one after the other, in their order, whatever their sizes; if `cv::resize` to
      -- the size that an image has leaves it as it is and SDL makes every texture.
      pub run_loop-decoded_images :
          (packets : List Bytes) (starts : List ℕ) (rest : Bytes)
          (c : Client t sdl_key_sym_to_x11 d sdl)
          → All (λ packet. length packet ≤ buffer_size) packets
          → length starts ≡ length packets
          → Holds t law (frames screen_update packets ++ rest) c.viewer.socket
          → (c' : Client t sdl_key_sym_to_x11 d sdl) × (run_loop t sdl_key_sym_to_x11 d sdl
                (map (λ start. (start, [])) starts)
                c
              ≡ done tt c')
            × Holds t law rest c'.viewer.socket
            × (c'.decoder ≡ decoded_context d c.decoder packets)
            × (images c' ≡ images c ++ decoded_images d c.decoder packets)
      unfolding run_loop
      run_loop-decoded_images [] [] rest c fit n held =
          (c, refl, held, refl, sym (append-nil (images c)))
      run_loop-decoded_images (p ∷ ps) (start ∷ starts) rest c fit n held =
          let (c1, e1, held1, context1, seen1) =
            round-Shown p (frames screen_update ps ++ rest) start c fit.0 (
              held.0,
              held.1 ∙ append_assoc (frame screen_update p) (frames screen_update ps) rest,
            ) in
          let (c2, e2, held2, context2, seen2) =
            run_loop-decoded_images ps starts rest c1 fit.1 (omega arith) held1 in
          (
            c2,
            rw e1 e2,
            held2,
            context2 ∙ ap (λ s. decoded_context d s ps) context1,
            seen2
                ∙ ap (λ s. images c1 ++ decoded_images d s ps) context1
                ∙ ap (λ l. l ++ decoded_images d (decode d p c.decoder).1 ps) seen1
                ∙ append_assoc (images c) (image_list d (decode d p c.decoder).0)
                    (decoded_images d (decode d p c.decoder).1 ps),
          )
      run_loop-decoded_images [] (start ∷ starts) rest c fit n held = absurd (omega arith)
      run_loop-decoded_images (p ∷ ps) [] rest c fit n held = absurd (omega arith)
