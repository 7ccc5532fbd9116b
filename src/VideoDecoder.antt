-- ===== src/VideoDecoder.antt =====
-- src/VideoDecoder.cpp: `decode`, over the calls of ffmpeg and OpenCV that it makes.
pub mod Context
use screen_viewer.Prelude.{ℕ, Option, none, some, Bytes}

-- `avcodec_send_packet`, whose result is not looked at; `avcodec_receive_frame`, with no frame where it
-- fails; and the conversion of `avframeToCvmat`. `resize` is `cv::resize`.
pub record Decoder : Type 1 where
  pub State : Type 0
  pub Frame : Type 0
  pub Image : Type 0
  pub rows : Image → ℕ
  pub cols : Image → ℕ
  pub send_packet : Bytes → State → State
  pub receive_frame : State → Option Frame × State
  pub convert : Frame → Image
  pub resize : Image → ℕ → ℕ → Image

module _ (d : Decoder) where
  frame_received : Option d.Frame × d.State → Option d.Image × d.State
  frame_received (none, context) = (none, context)
  frame_received (some frame, context) = (some (d.convert frame), context)

  -- An empty image is `none`.
  pub decode : Bytes → d.State → Option d.Image × d.State
  unfolding frame_received
  decode packet context = frame_received (d.receive_frame (d.send_packet packet context))
