-- ===== src/VideoDecoder/Context.antt =====
-- The constructor of src/VideoDecoder.cpp, with `createDecodeContext`, and `avframeToCvmat`.
use screen_viewer.Prelude.{ℕ, ◌+◌, ◌≡◌, ap, ◌∙◌, arith, Bytes, Option}
use screen_viewer.Outcome.{
  M, ◌>>=◌, ◌>>◌, give, obtain, demand, present, context_not_allocated, codec_not_found, not_opened,
  codec_exception,
}
use screen_viewer.Outcome.Ends.{
  Ends, returns, obtain-Ends, present-Ends, demand-Ends, after-Ends, weaken-Ends,
}
use screen_viewer.Ffmpeg.{Ffmpeg, LawfulFfmpeg, AvContext, AvFrame, Mat, bgr24, grown}
use screen_viewer.VideoEncoder.Context.{check_format}
use screen_viewer.VideoEncoder.Context.Allocated.{Left, left, check_format-Ends}

module _ (av : Ffmpeg) where
  -- `check_format` is the same test as the encoder's, behind `avcodec_open2` here.
  unfoldable pub create_decode_context : M av.State AvContext
  create_decode_context = do
    codec ← present av.find_decoder (codec_exception codec_not_found)
    context ← obtain (av.alloc_context codec) (codec_exception context_not_allocated)
    demand (av.open2 context codec) (codec_exception not_opened)
    check_format av
    give context

  -- The frame comes first, and may be null.
  unfoldable pub new_frame_and_context : M av.State (Option AvFrame × AvContext)
  unfolding create_decode_context
  new_frame_and_context s =
      let (frame, s') = av.frame_alloc s in
      (do context ← create_decode_context; give (frame, context)) s'

  -- `uninitialised` is the memory of the new image.
  unfoldable pub avframe_to_cvmat : Bytes → AvFrame → Mat
  avframe_to_cvmat uninitialised frame = record {
    rows = frame.height;
    cols = frame.width;
    pixels =
        av.sws_scale frame.format bgr24 frame.width frame.height frame.data_planes uninitialised;
  }

module _ (av : Ffmpeg) (law : LawfulFfmpeg av) where
  open law use {allocated}

  -- A context that is returned is one more structure. What an exception leaves is what it leaves in
  -- the encoder.
  pub create_decode_context-Ends :
      (n : ℕ) (s : av.State)
      → allocated s ≡ n
      → Ends (λ _ s'. allocated s' ≡ n + 1) (Left av law n) (create_decode_context av s)
  unfolding create_decode_context
  create_decode_context-Ends n s e =
      present-Ends av.find_decoder (codec_exception codec_not_found) _ s
        (λ codec _.
          obtain-Ends (av.alloc_context codec) (codec_exception context_not_allocated) _ s
            (λ c got.
              let s1 = (av.alloc_context codec s).1 in
              let e1 : allocated s1 ≡ n + 1 =
                law.alloc_context_allocated codec s
                ∙ ap (λ o. grown o (allocated s)) got
                ∙ ap (λ k. k + 1) e in
              let s2 = (av.open2 c codec s1).1 in
              let e2 = law.open2_allocated c codec s1 ∙ e1 in
              demand-Ends (av.open2 c codec) (codec_exception not_opened) _ s1
                (after-Ends (check_format av s2) _ (
                  weaken-Ends (check_format av s2) (λ _ s3 e3. returns e3)
                    (check_format-Ends av law n s2 e2)))
                (left av law n not_opened s2 e2))
            (λ missing. left av law n context_not_allocated _ (
              law.alloc_context_allocated codec s
              ∙ ap (λ o. grown o (allocated s)) missing
              ∙ e
              ∙ omega arith)))
        (λ _. left av law n codec_not_found s (omega arith))
