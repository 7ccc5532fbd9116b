-- ===== src/VideoEncoder/Timestamps.antt =====
-- The timestamps of a sequence of frames.
use screen_viewer.Prelude.{ℕ, ◌≤◌, ◌≡◌, refl, arith, List, [], ◌∷◌}
use native.Mathlib.Nat.{mod-lt}
use screen_viewer.VideoEncoder.{
  Codec, SendResult, sent, again, refused, VideoEncoder, new_video_encoder, encode, frame_sent,
  received,
}

module _ (codec : Codec) where
  abbrev pub encode_all : List codec.Picture → VideoEncoder codec → VideoEncoder codec
  encode_all [] e = e
  encode_all (mat ∷ mats) e = encode_all mats (encode codec mat e).1

  -- The timestamp stays within a second, and the framerate is kept.
  abbrev pub Within : ℕ → VideoEncoder codec → Type 0
  Within fps e = (e.framerate ≡ fps) × (1 ≤ e.frame_id) × (e.frame_id ≤ fps)

  frame_sent-Within :
      (fps : ℕ) (e : VideoEncoder codec) (r : SendResult × codec.State)
      → 1 ≤ fps
      → Within fps e
      → Within fps (frame_sent codec e r).1
  unfolding frame_sent received
  frame_sent-Within fps e (sent, c) some_fps w =
      let below = mod-lt e.frame_id {m = e.framerate} (omega (arith, w.0)) in
      (w.0, omega arith, omega (arith, w.0, below))
  frame_sent-Within fps e (again, c) some_fps w = w
  frame_sent-Within fps e (refused, c) some_fps w = w

  encode_all-Within :
      (fps : ℕ) (mats : List codec.Picture) (e : VideoEncoder codec)
      → 1 ≤ fps
      → Within fps e
      → Within fps (encode_all mats e)
  unfolding encode
  encode_all-Within fps [] e some_fps w = w
  encode_all-Within fps (mat ∷ mats) e some_fps w =
      encode_all-Within fps mats (encode codec mat e).1 some_fps (
        frame_sent-Within fps e (codec.send_frame (codec.convert mat) e.frame_id e.context) some_fps
          w)

  -- Whatever the codec answers, every timestamp that an encoder of at least one frame per second
  -- gives lies between 1 and the number of frames per second, which stays as it was.
  pub encode_all-frame_id :
      (fps : ℕ) (context : codec.State) (mats : List codec.Picture)
      → 1 ≤ fps
      → Within fps (encode_all mats (new_video_encoder codec context fps))
  unfolding new_video_encoder
  encode_all-frame_id fps context mats some_fps =
      encode_all-Within fps mats (new_video_encoder codec context fps) some_fps
        (refl, omega arith, some_fps)
