-- ===== src/Streamer/Run.antt =====
-- `run` of src/streamer/ScreenViewerStreamer.cpp. The io_context's thread completes reads and writes while
-- the main thread makes its rounds: a run is told by the order in which these happen. Each takes
-- effect at once: the queue is a concurrent one and the controller has a mutex.
pub mod Fifo
pub mod Order
use screen_viewer.Prelude.{
  if◌then◌else◌, Bool, true, false, not, ◌||◌, List, [], ◌∷◌, ◌++◌, Option, none, some,
}
use screen_viewer.Message.{Message}
use screen_viewer.Outcome.{Outcome, done, thrown, M, after, ◌>>=◌, ◌>>◌, give}
use screen_viewer.Transport.{Transport}
use screen_viewer.Socket.{poll, is_open}
use screen_viewer.IoController.{IoController}
use screen_viewer.VideoEncoder.{Codec}
use screen_viewer.Streamer.{
  Streamer, on_socket, with_socket, handler_called, schedule_async_poll_io_events, handle_io_events,
}
use screen_viewer.Streamer.Screenshots.{
  Sender, on_streamer, with_streamer, schedule_async_send_screenshots, complete_write,
}

pub data Event : Type 0 where
  reads writes rounds : Event

abbrev pub is_empty : List Message → Bool
is_empty [] = true
is_empty (m ∷ ms) = false

abbrev pub arrived_in : Option (Unit {0} × Message) → List Message
arrived_in none = []
arrived_in (some (_, message)) = message ∷ []

module _ (t : Transport) (io : IoController) where
  -- `poll_io_events` with the message that it queues.
  unfoldable pub read_completed : M (Streamer t io) (List Message)
  read_completed = do
    called ← on_socket t io (poll t)
    handler_called t io called
    give (arrived_in called)

module _ (t : Transport) (io : IoController) (codec : Codec)
    (capture_screenshot : M io.State codec.Picture) where
  abbrev pub running : Sender t io codec capture_screenshot → Bool
  running s = is_open t s.streamer.socket || not (is_empty s.streamer.messages)

  -- Whether the loop has ended, and the messages that have arrived.
  unfoldable pub run_loop :
      List Event → M (Sender t io codec capture_screenshot) (Bool × List Message)
  run_loop [] s = done (false, []) s
  run_loop (reads ∷ events) s =
      let rest = run_loop events in
      (do
        arrived ← on_streamer t io codec capture_screenshot (read_completed t io)
        later ← rest
        give (later.0, arrived ++ later.1))
        s
  run_loop (writes ∷ events) s =
      let rest = run_loop events in (do complete_write t io codec capture_screenshot; rest) s
  run_loop (rounds ∷ events) s =
      let rest = run_loop events in
      if running s
      then (do on_streamer t io codec capture_screenshot (handle_io_events t io); rest) s
      else done (true, []) s

  unfoldable pub run : List Event → M (Sender t io codec capture_screenshot) (Bool × List Message)
  unfolding run_loop
  run events = do
    on_streamer t io codec capture_screenshot (schedule_async_poll_io_events t io)
    schedule_async_send_screenshots t io codec capture_screenshot
    run_loop events
