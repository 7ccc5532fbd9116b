-- ===== src/Tests/Devices.antt =====
-- The encoder's memory, the X server and the client's thread at concrete inputs.
use screen_viewer.Prelude.{
  ℕ, ap, ◌==◌, if◌then◌else◌, drop, codes, Bool-cases, inl, inr, ◌+◌, ◌-◌, ◌≡◌, refl, arith, true,
  false, List, [], ◌∷◌, some, none, Bytes,
}
use screen_viewer.Outcome.{M, done, thrown, system_error, capture_failed, io_controller_exception}
use screen_viewer.Outcome.Ends.{Ends, returns, throws}
use screen_viewer.SessionsManager.{Manager}
use screen_viewer.SessionsManager.Registry.{initial}
use screen_viewer.Server.Launch.{Asio, LawfulAsio, Server, proxy_server_port, launch, launch-Ends}
use screen_viewer.Ffmpeg.{Ffmpeg, LawfulFfmpeg, AvContext, AvFrame, yuv420p, other_format}
use screen_viewer.VideoEncoder.Context.{new_context_and_frame, convert_to_av_frame, configured}
use screen_viewer.VideoEncoder.Context.Allocated.{Built, Left, Suits, new_context_and_frame-Ends}
use screen_viewer.Viewer.Window.{Sdl, LawfulSdl}
use screen_viewer.IoController.X11.{Display}
use screen_viewer.IoController.Cursor.{Pixel, Screenshot, capture_cursor}
use screen_viewer.IoController.Controller.{XServer, Controller, new_controller, capture_screenshot}
use screen_viewer.IoController.Controller.Captures.{Ready, Refused, new_controller-Ready}
use screen_viewer.Streamer.Encoder.{create_video_encoder, to_mat, capture_screenshot-Suits}
use screen_viewer.ClientSocket.Thread.{
  Worker, Connection, Step, waits, begins_handler, ends_handler, runs_out, handles, Handle, holds,
  destroy, disconnect, resource_deadlock_would_occur,
}
use screen_viewer.ClientSocket.Thread.Joins.{Over, destroy-returns, disconnect-own_thread}
use screen_viewer.Tests.Fixtures.{pipe}

-- The memory is the number of structures.
abbrev ffmpeg : Ffmpeg
ffmpeg = record {
  State = ℕ;
  Codec = ℕ;
  find_encoder = some 27;
  find_decoder = some 27;
  alloc_context = λ codec n. (
    some (record {
      pointer = n;
      height = 0;
      width = 0;
      time_base = record { num = 0; den = 1 };
      framerate = record { num = 0; den = 1 };
      pix_fmt = other_format 0;
      gop_size = 12;
    }),
    n + 1,
  );
  opt_set = λ c name value n. n;
  bits_per_pixel = some 24;
  open2 = λ c codec n. (true, n);
  free_context = λ c n. n - 1;
  frame_alloc = λ n. (
    some (record { pointer = n; height = 0; width = 0; format = other_format 0; data_planes = [] }),
    n + 1,
  );
  frame_get_buffer = λ f n. (true, n);
  frame_make_writable = λ f n. (true, n);
  sws_scale = λ from to w h bytes planes. bytes;
}

abbrev ffmpeg-Lawful : LawfulFfmpeg ffmpeg
ffmpeg-Lawful = record {
  allocated = λ n. n;
  alloc_context_allocated = λ codec n. refl;
  opt_set_allocated = λ c name value n. refl;
  open2_allocated = λ c codec n. refl;
  free_context_allocated = λ c n. refl;
  frame_alloc_allocated = λ n. refl;
  frame_get_buffer_allocated = λ f n. refl;
  frame_make_writable_allocated = λ f n. refl;
}

new_context_and_frame-Ends_example :
    Ends
      (Built ffmpeg ffmpeg-Lawful 30 600 800 5)
      (Left ffmpeg ffmpeg-Lawful 5)
      (new_context_and_frame ffmpeg 30 600 800 5)
new_context_and_frame-Ends_example =
    new_context_and_frame-Ends ffmpeg ffmpeg-Lawful 30 600 800 5 5 refl

-- The state is the number of resources, and no texture can be made.
abbrev sdl : Sdl
sdl = record {
  State = ℕ;
  create_window = λ w h n. (some n, n + 1);
  create_renderer = λ window n. (some n, n + 1);
  create_texture = λ renderer w h n. (none, n);
  destroy_window = λ window n. n - 1;
  destroy_renderer = λ renderer n. n - 1;
  destroy_texture = λ texture n. n - 1;
  quit = λ n. n;
}

abbrev sdl-Lawful : LawfulSdl sdl
sdl-Lawful = record {
  resources = λ n. n;
  window_created = λ w h n. refl;
  renderer_created = λ window n. refl;
  texture_created = λ renderer w h n. refl;
  window_destroyed = λ window n. refl;
  renderer_destroyed = λ renderer n. refl;
}

-- The state is the list of ports, and the second one is taken.
abbrev listen : ℕ → M (List ℕ) (Unit {0})
listen port ports =
    if port == proxy_server_port then thrown (system_error 98) ports else done tt (port ∷ ports)

abbrev asio : Asio
asio = record {
  State = List ℕ;
  listen = listen;
  set_options = λ ports. done tt ports;
  use_certificate_chain_file = λ file ports. done tt ports;
  use_private_key_file = λ file ports. done tt ports;
  close = λ port ports. drop 1 ports;
}

listen-Ends :
    (port : ℕ) (ports : List ℕ)
    → Ends (λ (_ : Unit {0}) s'. s' ≡ port ∷ ports) (λ _ s'. s' ≡ ports) (listen port ports)
listen-Ends port ports = elim (Bool-cases (port == proxy_server_port)) [
  | inl taken ↦ rw taken (throws refl)
  | inr free ↦ rw free (returns refl)
]

abbrev asio-Lawful : LawfulAsio asio
asio-Lawful = record {
  ports = λ ports. ports;
  listens = listen-Ends;
  options_silent = λ ports. returns refl;
  certificate_silent = λ file ports. returns refl;
  key_silent = λ file ports. returns refl;
  closes = λ port others ports e. ap (drop 1) e;
}

launch-Ends_example :
    Ends
      (λ (_ : Server × Server × Manager) ports. ports ≡ 44321 ∷ 4321 ∷ 80 ∷ [])
      (λ _ ports. ports ≡ 80 ∷ [])
      (launch asio (codes "certs") initial (80 ∷ []))
launch-Ends_example = launch-Ends asio asio-Lawful (codes "certs") initial (80 ∷ []) (80 ∷ []) refl

abbrev quiet : Display
quiet = record { queued = []; delivered = [] }

abbrev black : Pixel
black = record { blue = 0; green = 0; red = 0; alpha = 255 }

abbrev x_server : XServer
x_server = record {
  x_open_display = some quiet;
  xinerama_is_active = true;
  xinerama_query_screens = some (record { x_org = 0; y_org = 0; width = 3; height = 2 } ∷ []);
  default_root_window = 9;
  x_get_image = λ d x y w h. some (λ i j. black);
  x_fixes_get_cursor_image = λ d. none;
}

new_controller-Ready_example :
    Ends (λ c _. Ready x_server c) (λ e _. Refused e) (new_controller x_server tt)
new_controller-Ready_example = new_controller-Ready x_server

abbrev controller : Controller
controller = record {
  screen_count = 1;
  display = quiet;
  screens = record { x_org = 0; y_org = 0; width = 3; height = 2 } ∷ [];
  root = 9;
}

abbrev context : AvContext
context = record {
  pointer = 0;
  height = 2;
  width = 3;
  time_base = record { num = 1; den = 30 };
  framerate = record { num = 30; den = 1 };
  pix_fmt = yuv420p;
  gop_size = 60;
}

abbrev av_frame : AvFrame
av_frame = record { pointer = 1; height = 2; width = 3; format = yuv420p; data_planes = [] }

constructed : new_controller x_server tt ≡ done controller tt
unfolding new_controller
constructed = refl

prepared :
    create_video_encoder ffmpeg (capture_screenshot x_server) (controller, 0)
    ≡ done (context, av_frame) (controller, 2)
unfolding create_video_encoder capture_screenshot new_context_and_frame capture_cursor configured
prepared = refl

abbrev pixels : Screenshot → Bytes
pixels s = []

capture_screenshot-Suits_example :
    Ends
      (λ shot _.
        (f : AvFrame) × (convert_to_av_frame ffmpeg (to_mat pixels shot) av_frame ≡ some f)
        × Suits context f)
      (λ e _. e ≡ io_controller_exception capture_failed)
      (capture_screenshot x_server controller)
capture_screenshot-Suits_example =
    capture_screenshot-Suits x_server ffmpeg ffmpeg-Lawful pixels controller controller 0 2 context
      av_frame quiet constructed prepared

-- Steps of the thread, which a handler delays.
abbrev steps : List Step
steps = waits ∷ ends_handler ∷ begins_handler ∷ waits ∷ runs_out ∷ []

abbrev worker : Worker
worker = record {
  position = handles;
  stop_requested = false;
  stopped = false;
  joinable = true;
  id = 7;
}

destroy-returns_example :
    (h' : Handle) × (destroy 9 (waits ∷ []) steps (holds worker) ≡ done tt h')
    × Over 9 (holds worker) h'
destroy-returns_example =
    destroy-returns 9 (waits ∷ []) (waits ∷ []) (begins_handler ∷ waits ∷ runs_out ∷ [])
      (holds worker) (λ e. absurd (omega arith)) (omega arith)

abbrev connection : Connection pipe (Unit {0})
connection = record {
  socket = record {
    stream = record { incoming = []; outgoing = []; live = true };
    data_buffer = [];
    pending = none;
  };
  worker = worker;
}

disconnect-own_thread_example :
    (c' : Connection pipe (Unit {0})) × (disconnect pipe 7 [] steps connection
      ≡ thrown (system_error resource_deadlock_would_occur) c')
disconnect-own_thread_example = disconnect-own_thread pipe [] steps connection refl
