-- ===== src/VideoEncoder.antt =====
-- src/VideoEncoder.cpp: `encode` and the timestamps that it gives. The codec and the conversion of the
-- picture to the codec's format are arguments. The framerate is positive where a frame is sent.
pub mod Timestamps
pub mod Context
use screen_viewer.Prelude.{ℕ, suc, ◌+◌, ◌%◌, Option, none, some, Bytes, List, [], ◌∷◌}

-- What `avcodec_send_frame` returns: 0, AVERROR(EAGAIN) or another error.
pub data SendResult : Type 0 where
  sent again refused : SendResult

pub record Codec : Type 1 where
  pub State : Type 0
  pub Picture : Type 0
  pub Frame : Type 0
  -- `convertToAVFrame`.
  pub convert : Picture → Frame
  pub send_frame : Frame → ℕ → State → SendResult × State
  -- The packet is left empty by a failing call.
  pub receive_packet : State → Bytes × State

module _ (codec : Codec) where
  pub record VideoEncoder : Type 0 where
    pub context : codec.State
    -- `context->framerate.num`.
    pub framerate : ℕ
    pub frame_id : ℕ

  pub new_video_encoder : codec.State → ℕ → VideoEncoder
  new_video_encoder context fps = record { context = context; framerate = fps; frame_id = 1 }

  received : VideoEncoder → Bytes × codec.State → Option Bytes × VideoEncoder
  received e (packet, c) = (some packet, record e { context = c })

  -- After `avcodec_send_frame`.
  frame_sent : VideoEncoder → SendResult × codec.State → Option Bytes × VideoEncoder
  unfolding received
  frame_sent e (sent, c) =
      received (record e { frame_id = e.frame_id % e.framerate + 1 }) (codec.receive_packet c)
  frame_sent e (again, c) = received e (codec.receive_packet c)
  frame_sent e (refused, c) = (none, record e { context = c })

  unfoldable pub encode : codec.Picture → VideoEncoder → Option Bytes × VideoEncoder
  unfolding frame_sent
  encode mat e = frame_sent e (codec.send_frame (codec.convert mat) e.frame_id e.context)
