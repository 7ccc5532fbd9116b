-- ===== src/Tests/Screens.antt =====
-- The viewer's rendering, the cursor and the encoder at concrete inputs.
use screen_viewer.Prelude.{
  ℕ, ◌+◌, ◌-◌, Bool, false, if◌then◌else◌, ◌≤◌, All, ◌≡◌, ◌++◌, refl, arith, some, none, true, List,
  [], ◌∷◌, Bytes, length,
}
use screen_viewer.Message.{screen_update}
use screen_viewer.Outcome.{done}
use screen_viewer.Socket.{Socket, buffer_size}
use screen_viewer.Socket.Delivery.{Holds}
use screen_viewer.Socket.Framing.{frame}
use screen_viewer.Outcome.Ends.{Ends}
use screen_viewer.Viewer.Window.{Sdl, Drawing}
use screen_viewer.VideoDecoder.{Decoder}
use screen_viewer.Viewer.Loop.{Client, run as run_viewer, run_loop}
use screen_viewer.Viewer.Loop.Playback.{images, decoded_images}
use screen_viewer.Viewer.Screen.{idle, complete_writes-decoded_images}
use screen_viewer.Viewer.Loop.Textures.{Resizes}
use screen_viewer.IoController.Cursor.{CursorImage, Screenshot, capture_cursor}
use screen_viewer.IoController.Cursor.Blending.{shown, capture_cursor-here}
use screen_viewer.IoController.X11.{Screen, x11_io_controller}
use screen_viewer.Streamer.Screenshots.{
  Sender, complete_write, complete_writes, schedule_async_send_screenshots,
}
use screen_viewer.Streamer.Screenshots.Packets.{Captures, packet_list, encoded_packets}
use screen_viewer.Streamer.Screenshots.Frames.{Adds, complete_writes-Adds}
use screen_viewer.VideoEncoder.{encode, Codec, VideoEncoder, sent}
use screen_viewer.Tests.Fixtures.{pipe, pipe-Lawful}

abbrev connected : Bytes → Socket pipe (Unit {0})
connected bytes = record {
  stream = record { incoming = bytes; outgoing = []; live = true };
  data_buffer = [];
  pending = none;
}

-- An image is its size, and every content is an image.
abbrev decoder : Decoder
decoder = record {
  State = ℕ;
  Image = ℕ × ℕ;
  rows = λ image. image.0;
  cols = λ image. image.1;
  Frame = ℕ;
  send_packet = λ content n. length content;
  receive_frame = λ n. (some n, n);
  convert = λ n. (n, 7);
  resize = λ image w h. (h, w);
}

abbrev decoder-Resizes : Resizes decoder
decoder-Resizes = record { resized_cols = λ image w h. refl; resized_rows = λ image w h. refl }

abbrev screen_frame : Bytes
screen_frame = frame screen_update (1 ∷ 2 ∷ [])

-- The state is the number of resources. Whether textures can be made is the argument.
abbrev sdl : Bool → Sdl
sdl works = record {
  State = ℕ;
  create_window = λ w h n. (some n, n + 1);
  create_renderer = λ window n. (some n, n + 1);
  create_texture = λ renderer w h n. if works then (some n, n + 1) else (none, n);
  destroy_window = λ window n. n - 1;
  destroy_renderer = λ renderer n. n - 1;
  destroy_texture = λ texture n. n - 1;
  quit = λ n. n;
}

abbrev drawing : Drawing (sdl false)
drawing = record { window = 0; renderer = 1; texture = 2 }

abbrev viewer_client : Bytes → Client pipe (λ sym. sym) decoder (sdl true)
viewer_client incoming = record {
  viewer = record {
    socket = connected incoming;
    window_width = 800;
    window_height = 600;
    frame_width = 7;
    frame_height = 2;
    last_pos_update = none;
  };
  decoder = 0;
  drawing = record { window = 0; renderer = 1; texture = 2 };
  sdl_state = 3;
  texture_width = 7;
  texture_height = 2;
  rendered = [];
}

abbrev cursor : CursorImage
cursor = record {
  x = 10;
  y = 20;
  xhot = 1;
  yhot = 1;
  width = 4;
  height = 4;
  pixels = λ i. 4278190335;
}

abbrev screenshot : Screenshot
screenshot = record {
  cols = 800;
  rows = 600;
  at = λ p q. record { blue = 5; green = 5; red = 5; alpha = 0 };
}

capture_cursor-here_example :
    (capture_cursor (some cursor) screenshot).at 9 19
    ≡ shown cursor 0 0 (record { blue = 5; green = 5; red = 5; alpha = 0 })
capture_cursor-here_example =
    capture_cursor-here cursor 0 0 9 19 screenshot (omega arith) (omega arith)
      (refl, refl, omega arith, omega arith)

abbrev codec : Codec
codec = record {
  State = ℕ;
  Picture = ℕ;
  Frame = ℕ;
  convert = λ mat. mat;
  send_frame = λ frame pts n. (sent, n);
  receive_packet = λ n. ([], n);
}

abbrev screen : Screen
screen = record { x_org = 0; y_org = 0; keysym_to_keycode = λ sym. 38 }

-- A streamer in the middle of a write.
abbrev sender : Bytes → ℕ → Bytes → Sender pipe (x11_io_controller screen) codec (λ c. done 7 c)
sender written frame_id bytes = record {
  streamer = record {
    socket = record {
      stream = record { incoming = []; outgoing = written; live = true };
      data_buffer = [];
      pending = none;
    };
    io_controller = record { queued = []; delivered = [] };
    messages = [];
  };
  encoder = record { context = 0; framerate = 2; frame_id = frame_id };
  sending = some bytes;
}

abbrev empty_frame : Bytes
empty_frame = frame screen_update []

two_writes :
    complete_writes pipe (x11_io_controller screen) codec (λ c. done 7 c) 2 (sender [] 1 (1 ∷ []))
    ≡ done tt (sender ((1 ∷ []) ++ empty_frame) 1 empty_frame)
unfolding complete_writes complete_write schedule_async_send_screenshots encode
two_writes = refl

complete_writes-Adds_example :
    Adds pipe pipe-Lawful
      (x11_io_controller screen)
      codec
      (λ c. done 7 c)
      (sender [] 1 (1 ∷ []))
      (sender ((1 ∷ []) ++ empty_frame) 1 empty_frame)
complete_writes-Adds_example =
    complete_writes-Adds pipe pipe-Lawful (x11_io_controller screen) codec (λ c. done 7 c)
      (λ bytes x. (record x { outgoing = x.outgoing ++ bytes }, refl)) 2 (sender [] 1 (1 ∷ []))
      (sender ((1 ∷ []) ++ empty_frame) 1 empty_frame) two_writes

packets_fit :
    (picture : ℕ) (e : VideoEncoder codec)
    → All (λ packet. length packet ≤ buffer_size) (packet_list codec (encode codec picture e).0)
unfolding encode buffer_size
packets_fit picture e = (omega arith, tt)

complete_writes-decoded_images_example :
    (pictures : List ℕ) × (c' : Client pipe (λ sym. sym) decoder (sdl true)) × Captures
      {Picture = ℕ}
      (λ c. done 7 c)
      (sender [] 1 (1 ∷ [])).streamer.io_controller
      pictures
      (sender ((1 ∷ []) ++ empty_frame) 1 empty_frame).streamer.io_controller
    × (run_loop pipe
          (λ sym. sym)
          decoder
          (sdl true)
          (idle (encoded_packets codec (sender [] 1 (1 ∷ [])).encoder pictures))
          (viewer_client ((empty_frame ++ empty_frame) ++ 9 ∷ []))
        ≡ done tt c')
    × Holds pipe pipe-Lawful (9 ∷ []) c'.viewer.socket
    × (images pipe (λ sym. sym) decoder (sdl true) c'
        ≡ decoded_images decoder 0 (encoded_packets codec (sender [] 1 (1 ∷ [])).encoder pictures))
complete_writes-decoded_images_example =
    complete_writes-decoded_images pipe pipe-Lawful (x11_io_controller screen) codec (λ c. done 7 c)
      pipe pipe-Lawful (λ sym. sym) decoder (sdl true) 2 (sender [] 1 (1 ∷ []))
      (sender ((1 ∷ []) ++ empty_frame) 1 empty_frame) (empty_frame ++ empty_frame) (9 ∷ [])
      (viewer_client ((empty_frame ++ empty_frame) ++ 9 ∷ []))
      (λ bytes x. (record x { outgoing = x.outgoing ++ bytes }, refl)) packets_fit (λ image. refl)
      (λ renderer w h n. (n, n + 1, refl)) two_writes refl (refl, refl)
