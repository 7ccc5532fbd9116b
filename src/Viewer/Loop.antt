-- ===== src/Viewer/Loop.antt =====
-- `run`, `runLoop` and `getNewFrame` of src/ScreenViewerClient.cpp, over VideoDecoder.antt and Window.antt.
-- What is rendered is an image together with the size of the texture that takes it.
pub mod Textures
pub mod Playback
use screen_viewer.Prelude.{
  ℕ, ◌==◌, ◌&&◌, Bool, if◌then◌else◌, List, [], ◌∷◌, ◌++◌, Option, none, some, Bytes,
}
use screen_viewer.Message.{Message, MessageType, screen_update, is_type}
use screen_viewer.Outcome.{
  Exception, system_error, Outcome, done, thrown, M, after, ◌>>=◌, ◌>>◌, give, throw, handled,
  try_catch, modify,
}
use screen_viewer.Transport.{Transport}
use screen_viewer.Socket.{Socket, receive_to_buffer}
use screen_viewer.VideoDecoder.{Decoder, decode}
use screen_viewer.Viewer.Window.{Sdl, Drawing, create_texture}
use screen_viewer.Viewer.{Viewer, SdlEvent, handle_io_events, on_socket, with_socket}

module _ (t : Transport) (sdl_key_sym_to_x11 : ℕ → ℕ) (d : Decoder) (sdl : Sdl) where
  pub record Rendered : Type 0 where
    pub image : d.Image
    pub texture_width : ℕ
    pub texture_height : ℕ

  pub record Client : Type 0 where
    pub viewer : Viewer t
    pub decoder : d.State
    pub drawing : Drawing sdl
    pub sdl_state : sdl.State
    -- The size of the texture.
    pub texture_width : ℕ
    pub texture_height : ℕ
    pub rendered : List Rendered

  abbrev with_viewer {κ} : {A : Type κ} → Client → Outcome (Viewer t) A → Outcome Client A
  with_viewer c (done a v) = done a (record c { viewer = v })
  with_viewer c (thrown e v) = thrown e (record c { viewer = v })

  abbrev on_viewer {κ} : {A : Type κ} → M (Viewer t) A → M Client A
  on_viewer m c = with_viewer c (m c.viewer)

  -- The constructor, with the defaults of the class, once its members are made.
  pub new_client : Socket t (Unit {0}) → d.State → Drawing sdl → sdl.State → Client
  new_client socket decoder drawing sdl_state = record {
    viewer = record {
      socket = socket;
      window_width = 800;
      window_height = 600;
      frame_width = 800;
      frame_height = 600;
      last_pos_update = none;
    };
    decoder = decoder;
    drawing = drawing;
    sdl_state = sdl_state;
    texture_width = 800;
    texture_height = 600;
    rendered = [];
  }

  -- The assignment to `texture` destroys the old one. An exception of `createTexture` leaves it.
  with_texture : d.Image → Client → Outcome sdl.State ℕ → Outcome Client (Option d.Image)
  with_texture image c (done texture s) =
      done (some (d.resize image c.viewer.frame_width c.viewer.frame_height)) (record c {
        drawing = record c.drawing { texture = texture };
        sdl_state = sdl.destroy_texture c.drawing.texture s;
        texture_width = c.viewer.frame_width;
        texture_height = c.viewer.frame_height;
      })
  with_texture image c (thrown e s) = thrown e (record c { sdl_state = s })

  -- The size of the frame is set before the texture is made.
  resized : d.Image → M Client (Option d.Image)
  unfolding with_texture
  resized image c =
      with_texture image
        (record c {
          viewer = record c.viewer { frame_height = d.rows image; frame_width = d.cols image };
        })
        (create_texture sdl c.drawing.renderer (d.cols image) (d.rows image) c.sdl_state)

  frame_of : Option d.Image → M Client (Option d.Image)
  frame_of none c = done none c
  frame_of (some image) c =
      let other = resized image c in
      if d.rows image == c.viewer.frame_height && d.cols image == c.viewer.frame_width
      then done (some image) c
      else other

  pub get_new_frame : Bytes → M Client (Option d.Image)
  unfolding frame_of
  get_new_frame content c =
      let (decoded_image, decoder) = decode d content c.decoder in
      frame_of decoded_image (record c { decoder = decoder })

  render : Option d.Image → Client → Client
  render none c = c
  render (some image) c = record c {
    rendered =
        c.rendered
        ++ record {
          image = image;
          texture_width = c.texture_width;
          texture_height = c.texture_height;
        }
          ∷ [];
  }

  pub show_message : Message → M Client (Unit {0})
  unfolding render
  show_message msg =
      if is_type msg.type screen_update
      then (do resized_img ← get_new_frame msg.content; modify (render resized_img))
      else give tt

  -- One round of the loop: the time of its start and SDL's events.
  pub round : ℕ × List (ℕ × ℕ × SdlEvent) → M Client (Unit {0})
  round (start, events) = do
    msg ← on_viewer (on_socket t sdl_key_sym_to_x11 (receive_to_buffer t))
    show_message msg
    on_viewer (handle_io_events t sdl_key_sym_to_x11 5 50 start events)

  -- These rounds; the code's loop only ends by an exception.
  pub run_loop : List (ℕ × List (ℕ × ℕ × SdlEvent)) → M Client (Unit {0})
  run_loop [] = give tt
  run_loop (r ∷ rounds) = do round r; run_loop rounds

  broken_connection : Exception → M Client (Unit {0})
  broken_connection (system_error code) = give tt
  broken_connection e = throw e

  pub run : List (ℕ × List (ℕ × ℕ × SdlEvent)) → M Client (Unit {0})
  unfolding broken_connection
  run rounds = try_catch (run_loop rounds) broken_connection
