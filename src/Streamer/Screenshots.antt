-- ===== src/Streamer/Screenshots.antt =====
-- `scheduleAsyncSendScreenshots` of src/streamer/ScreenViewerStreamer.cpp and `asyncSendMessage` of
-- include/SocketBase.hpp: one screenshot after the other is encoded and written.
pub mod Packets
pub mod Frames
use screen_viewer.Prelude.{ℕ, zero, suc, ◌++◌, Option, none, some, Bytes, length}
use screen_viewer.Message.{Message, MessageHeader, screen_update, serialize_header}
use screen_viewer.Outcome.{Outcome, done, thrown, M, after, ◌>>=◌, ◌>>◌, give}
use screen_viewer.Transport.{Transport}
use screen_viewer.IoController.{IoController}
use screen_viewer.VideoEncoder.{Codec, VideoEncoder, encode}
use screen_viewer.Streamer.{Streamer, with_controller, on_controller}

-- `capture_screenshot` is the controller's, with `cv::cvtColor` behind it.
module _ (t : Transport) (io : IoController) (codec : Codec)
    (capture_screenshot : M io.State codec.Picture) where
  pub record Sender : Type 0 where
    pub streamer : Streamer t io
    pub encoder : VideoEncoder codec
    -- The bytes of the `async_write` that is under way.
    pub sending : Option Bytes

  abbrev pub with_streamer {κ} :
      {A : Type κ} → Sender → Outcome (Streamer t io) A → Outcome Sender A
  with_streamer s (done a x) = done a (record s { streamer = x })
  with_streamer s (thrown e x) = thrown e (record s { streamer = x })

  abbrev pub on_streamer {κ} : {A : Type κ} → M (Streamer t io) A → M Sender A
  on_streamer m s = with_streamer s (m s.streamer)

  -- The message is one frame, whatever its size.
  unfoldable pub async_send_message : Message → M Sender (Unit {0})
  async_send_message message s =
      let header : MessageHeader = record {
        message_size = length message.content;
        type = message.type;
      } in
      done tt (record s { sending = some (serialize_header header ++ message.content) })

  unfoldable pub packet_encoded : Option Bytes × VideoEncoder codec → M Sender (Unit {0})
  unfolding async_send_message
  packet_encoded (none, encoder) s = done tt (record s { encoder = encoder })
  packet_encoded (some packet, encoder) s =
      async_send_message (record { type = screen_update; content = packet })
        (record s { encoder = encoder })

  unfoldable pub schedule_async_send_screenshots : M Sender (Unit {0})
  unfolding packet_encoded
  schedule_async_send_screenshots = do
    screenshot ← on_streamer (on_controller t io capture_screenshot)
    (λ s. packet_encoded (encode codec screenshot s.encoder) s)

  -- The completion handler of the write: the next screenshot, unless the write failed.
  unfoldable pub write_ended : Sender → Outcome t.Stream (Unit {0}) → Outcome Sender (Unit {0})
  write_ended s (done _ x) = schedule_async_send_screenshots (record s {
    streamer = record s.streamer { socket = record s.streamer.socket { stream = x } };
    sending = none;
  })
  write_ended s (thrown e x) = done tt (record s {
    streamer = record s.streamer { socket = record s.streamer.socket { stream = x } };
    sending = none;
  })

  unfoldable pub write_pending : Option Bytes → M Sender (Unit {0})
  unfolding write_ended
  write_pending none s = done tt s
  write_pending (some bytes) s = write_ended s (t.write bytes s.streamer.socket.stream)

  -- The io_context completes the write that is under way.
  unfoldable pub complete_write : M Sender (Unit {0})
  unfolding write_pending
  complete_write s = write_pending s.sending s

  unfoldable pub complete_writes : ℕ → M Sender (Unit {0})
  complete_writes zero = give tt
  complete_writes (suc n) = do complete_write; complete_writes n
