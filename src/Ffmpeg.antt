-- ===== src/Ffmpeg.antt =====
-- FFmpeg's libavcodec, libavutil and libswscale, as far as include/VideoEncoder.hpp and
-- include/VideoDecoder.hpp use them: structures with the fields that the code sets or reads, and the
-- calls on them. `convert_picture` is the conversion of a picture's format, which the two classes write alike.
use screen_viewer.Prelude.{ℕ, ◌+◌, ◌-◌, ◌≡◌, Bool, Option, none, some, Bytes}

pub data PixelFormat : Type 0 where
  bgr24 rgb24 yuv420p : PixelFormat
  other_format : ℕ → PixelFormat

pub record Rational : Type 0 where
  pub num : ℕ
  pub den : ℕ

-- `AVCodecContext`; `pointer` is its address.
pub record AvContext : Type 0 where
  pub pointer : ℕ
  pub height : ℕ
  pub width : ℕ
  pub time_base : Rational
  pub framerate : Rational
  pub pix_fmt : PixelFormat
  pub gop_size : ℕ

-- `AVFrame`; `data` are its planes.
pub record AvFrame : Type 0 where
  pub pointer : ℕ
  pub height : ℕ
  pub width : ℕ
  pub format : PixelFormat
  pub data_planes : Bytes

pub record Ffmpeg : Type 1 where
  pub State : Type 0
  pub Codec : Type 0
  -- `avcodec_find_encoder` and `avcodec_find_decoder` of `AV_CODEC_ID_H264`.
  pub find_encoder : Option Codec
  pub find_decoder : Option Codec
  pub alloc_context : Codec → State → Option AvContext × State
  -- `av_opt_set` on the context's private data; its result is not looked at.
  pub opt_set : AvContext → Bytes → Bytes → State → State
  -- `av_pix_fmt_desc_get(AV_PIX_FMT_RGB24)`, and `av_get_bits_per_pixel` of it.
  pub bits_per_pixel : Option ℕ
  -- `avcodec_open2`: whether it succeeds.
  pub open2 : AvContext → Codec → State → Bool × State
  pub free_context : AvContext → State → State
  pub frame_alloc : State → Option AvFrame × State
  pub frame_get_buffer : AvFrame → State → Bool × State
  pub frame_make_writable : AvFrame → State → Bool × State
  -- `sws_scale`, from the source's to the target's format: width, height, source, planes before.
  pub sws_scale : PixelFormat → PixelFormat → ℕ → ℕ → Bytes → Bytes → Bytes

abbrev pub grown : {A : Type 0} → Option A → ℕ → ℕ
grown none n = n
grown (some a) n = n + 1

-- How many contexts and frames are allocated: the allocating calls add one where they return one, and
-- `avcodec_free_context` takes one away.
pub record LawfulFfmpeg (av : Ffmpeg) : Type 0 where
  pub allocated : av.State → ℕ
  pub alloc_context_allocated :
      (codec : av.Codec) (s : av.State)
      → allocated (av.alloc_context codec s).1 ≡ grown (av.alloc_context codec s).0 (allocated s)
  pub opt_set_allocated :
      (c : AvContext) (name value : Bytes) (s : av.State)
      → allocated (av.opt_set c name value s) ≡ allocated s
  pub open2_allocated :
      (c : AvContext) (codec : av.Codec) (s : av.State)
      → allocated (av.open2 c codec s).1 ≡ allocated s
  pub free_context_allocated :
      (c : AvContext) (s : av.State) → allocated (av.free_context c s) ≡ allocated s - 1
  pub frame_alloc_allocated :
      (s : av.State) → allocated (av.frame_alloc s).1 ≡ grown (av.frame_alloc s).0 (allocated s)
  pub frame_get_buffer_allocated :
      (f : AvFrame) (s : av.State) → allocated (av.frame_get_buffer f s).1 ≡ allocated s
  pub frame_make_writable_allocated :
      (f : AvFrame) (s : av.State) → allocated (av.frame_make_writable f s).1 ≡ allocated s

-- `cv::Mat` of three bytes for each pixel.
pub record Mat : Type 0 where
  pub rows : ℕ
  pub cols : ℕ
  pub pixels : Bytes
