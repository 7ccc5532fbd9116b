-- ===== src/VideoEncoder/Context.antt =====
-- The constructor of src/VideoEncoder.cpp, with `createEncodeContext` and `createFrame`, and
-- `convertToAVFrame`.
pub mod Allocated
use screen_viewer.Prelude.{ℕ, ◌*◌, ◌==◌, leb, if◌then◌else◌, ◌&&◌, Bytes, codes, Option, none, some}
use screen_viewer.Outcome.{
  Outcome, M, ◌>>=◌, ◌>>◌, give, modify, obtain, demand, present, require, on_throw, CodecError,
  codec_not_found, context_not_allocated, no_descriptor, bad_bits, not_opened, frame_not_allocated,
  frame_data_not_allocated, not_writable, codec_exception,
}
use screen_viewer.Ffmpeg.{Ffmpeg, AvContext, AvFrame, Mat, yuv420p, bgr24}

-- The fields that are set before the context is opened.
unfoldable pub configured : ℕ → ℕ → ℕ → AvContext → AvContext
configured fps height width c = record c {
  height = height;
  width = width;
  time_base = record { num = 1; den = fps };
  framerate = record { num = fps; den = 1 };
  pix_fmt = yuv420p;
  gop_size = fps * 2;
}

module _ (av : Ffmpeg) where
  -- The three options of the H.264 encoder.
  unfoldable pub set_options : AvContext → M av.State (Unit {0})
  set_options c = do
    modify (av.opt_set c (codes "preset") (codes "ultrafast"))
    modify (av.opt_set c (codes "crf") (codes "30"))
    modify (av.opt_set c (codes "tune") (codes "zerolatency"))

  -- The test that a pixel has three bytes, which the decoder repeats.
  unfoldable pub check_format : M av.State (Unit {0})
  check_format = do
    bits ← present av.bits_per_pixel (codec_exception no_descriptor)
    require (bits == 3 * 8) (codec_exception bad_bits)

  unfoldable pub create_encode_context : ℕ → ℕ → ℕ → M av.State AvContext
  unfolding set_options check_format
  create_encode_context fps height width = do
    codec ← present av.find_encoder (codec_exception codec_not_found)
    allocated ← obtain (av.alloc_context codec) (codec_exception context_not_allocated)
    let context = configured fps height width allocated
    set_options context
    check_format
    demand (av.open2 context codec) (codec_exception not_opened)
    give context

  unfoldable pub create_frame : AvContext → M av.State AvFrame
  create_frame context = do
    allocated ← obtain av.frame_alloc (codec_exception frame_not_allocated)
    let frame = record allocated {
      format = context.pix_fmt;
      height = context.height;
      width = context.width;
    }
    demand (av.frame_get_buffer frame) (codec_exception frame_data_not_allocated)
    demand (av.frame_make_writable frame) (codec_exception not_writable)
    give frame

  -- The members are constructed in their order; where the second throws, the first is destroyed.
  unfoldable pub new_context_and_frame : ℕ → ℕ → ℕ → M av.State (AvContext × AvFrame)
  unfolding create_encode_context create_frame
  new_context_and_frame fps height width = do
    context ← create_encode_context fps height width
    frame ← on_throw (create_frame context) (av.free_context context)
    give (context, frame)

  -- `sws_scale` reads and writes as many rows and columns as the image has: a frame that is smaller is
  -- overrun, which is `none`.
  unfoldable pub convert_to_av_frame : Mat → AvFrame → Option AvFrame
  convert_to_av_frame image frame =
      if leb image.cols frame.width && leb image.rows frame.height
      then some (record frame {
        data_planes =
            av.sws_scale bgr24 frame.format image.cols image.rows image.pixels frame.data_planes;
      })
      else none
