-- ===== src/VideoEncoder/Context/Allocated.antt =====
-- What the constructor of the encoder has allocated when it ends.
use screen_viewer.Prelude.{ℕ, ◌+◌, ◌-◌, ◌*◌, ◌==◌, ◌≡◌, refl, ap, ◌∙◌, arith}
use screen_viewer.Outcome.{
  Exception, CodecError, codec_not_found, context_not_allocated, no_descriptor, bad_bits,
  not_opened, frame_not_allocated, frame_data_not_allocated, not_writable, codec_exception,
  on_throw, final, ◌>>◌, demand, give,
}
use screen_viewer.Outcome.Ends.{
  Ends, after-Ends, obtain-Ends, present-Ends, demand-Ends, demand_last-Ends, on_throw-Ends,
  weaken-Ends, returns,
}
use screen_viewer.Ffmpeg.{Ffmpeg, LawfulFfmpeg, AvContext, AvFrame, yuv420p, grown}
use screen_viewer.VideoEncoder.Context.{
  configured, set_options, check_format, create_encode_context, create_frame, new_context_and_frame,
}

-- How many structures an exception leaves allocated, with nobody to free them.
abbrev pub left_behind : CodecError → ℕ
left_behind codec_not_found = 0
left_behind context_not_allocated = 0
left_behind frame_not_allocated = 0
left_behind _ = 1

-- What is asked of the codec's context.
pub record Configured (fps height width : ℕ) (c : AvContext) : Type 0 where
  pub height_set : c.height ≡ height
  pub width_set : c.width ≡ width
  pub time_base_set : c.time_base ≡ record { num = 1; den = fps }
  pub framerate_set : c.framerate ≡ record { num = fps; den = 1 }
  pub pix_fmt_set : c.pix_fmt ≡ yuv420p
  pub gop_size_set : c.gop_size ≡ fps * 2

configured-Configured :
    (fps height width : ℕ) (c : AvContext)
    → Configured fps height width (configured fps height width c)
unfolding configured
configured-Configured fps height width c = record {
  height_set = refl;
  width_set = refl;
  time_base_set = refl;
  framerate_set = refl;
  pix_fmt_set = refl;
  gop_size_set = refl;
}

-- The frame has the context's size and format.
pub record Suits (c : AvContext) (f : AvFrame) : Type 0 where
  pub height_suits : f.height ≡ c.height
  pub width_suits : f.width ≡ c.width
  pub format_suits : f.format ≡ c.pix_fmt

module _ (av : Ffmpeg) (law : LawfulFfmpeg av) where
  open law use {allocated}

  -- `n` structures were allocated before.
  pub record Left (n : ℕ) (e : Exception) (s : av.State) : Type 0 where
    pub error : CodecError
    pub is_error : e ≡ codec_exception error
    pub still_allocated : allocated s ≡ n + left_behind error

  pub record Prepared (fps height width n : ℕ) (c : AvContext) (s : av.State) : Type 0 where
    pub one_more : allocated s ≡ n + 1
    pub is_configured : Configured fps height width c

  pub record Built (fps height width n : ℕ) (made : AvContext × AvFrame) (s : av.State)
      : Type 0 where
    pub two_more : allocated s ≡ n + 2
    pub is_configured : Configured fps height width made.0
    pub suits : Suits made.0 made.1

  -- An exception of the codec, with what it leaves.
  pub left :
      (n : ℕ) (x : CodecError) (s : av.State)
      → allocated s ≡ n + left_behind x
      → Left n (codec_exception x) s
  left n x s e = record { error = x; is_error = refl; still_allocated = e }

  pub check_format-Ends :
      (n : ℕ) (s : av.State)
      → allocated s ≡ n + 1
      → Ends (λ _ s'. allocated s' ≡ n + 1) (Left n) (check_format av s)
  unfolding check_format
  check_format-Ends n s e =
      present-Ends av.bits_per_pixel (codec_exception no_descriptor) _ s
        (λ bits _. demand_last-Ends (λ s'. (bits == 3 * 8, s')) _ s e (left n bad_bits s e))
        (λ _. left n no_descriptor s e)

  -- What `open2` is asked for.
  opened-Ends :
      (fps height width n : ℕ) (codec : av.Codec) (c : AvContext) (s : av.State)
      → Prepared fps height width n c s
      → Ends
          (Prepared fps height width n)
          (Left n)
          ((demand (av.open2 c codec) (codec_exception not_opened) >> give c) s)
  opened-Ends fps height width n codec c s p =
      let same = law.open2_allocated c codec s ∙ p.one_more in
      demand-Ends (av.open2 c codec) (codec_exception not_opened) (give c) s
        (returns (record { one_more = same; is_configured = p.is_configured }))
        (left n not_opened _ same)

  set_options-allocated :
      (c : AvContext) (s : av.State) → allocated (final (set_options av c s)) ≡ allocated s
  unfolding set_options
  set_options-allocated c s =
      law.opt_set_allocated c _ _ _ ∙ law.opt_set_allocated c _ _ _ ∙ law.opt_set_allocated c _ _ s

  create_encode_context-Ends :
      (fps height width n : ℕ) (s : av.State)
      → allocated s ≡ n
      → Ends (Prepared fps height width n) (Left n) (create_encode_context av fps height width s)
  unfolding create_encode_context configured set_options
  create_encode_context-Ends fps height width n s e =
      present-Ends av.find_encoder (codec_exception codec_not_found) _ s
        (λ codec _.
          obtain-Ends (av.alloc_context codec) (codec_exception context_not_allocated) _ s
            (λ c got.
              let c' = configured fps height width c in
              let s1 = (av.alloc_context codec s).1 in
              let more : allocated s1 ≡ n + 1 =
                law.alloc_context_allocated codec s
                ∙ ap (λ o. grown o (allocated s)) got
                ∙ ap (λ k. k + 1) e in
              let s2 = final (set_options av c' s1) in
              after-Ends (check_format av s2) _ (
                weaken-Ends (check_format av s2)
                  (λ _ s3 e3. opened-Ends fps height width n codec c' s3 (record {
                    one_more = e3;
                    is_configured = configured-Configured fps height width c;
                  }))
                  (check_format-Ends n s2 (set_options-allocated c' s1 ∙ more))))
            (λ missing. left n context_not_allocated _ (
              law.alloc_context_allocated codec s
              ∙ ap (λ o. grown o (allocated s)) missing
              ∙ e
              ∙ omega arith)))
        (λ _. left n codec_not_found s (omega arith))

  free_context-eq :
      (n : ℕ) (c : AvContext) (s : av.State)
      → allocated s ≡ n + 1
      → allocated (av.free_context c s) ≡ n
  free_context-eq n c s e = law.free_context_allocated c s ∙ ap (λ k. k - 1) e ∙ omega arith

  create_frame-Ends :
      (fps height width n : ℕ) (c : AvContext) (s : av.State)
      → Prepared fps height width n c s
      → Ends
          (λ f. Built fps height width n (c, f))
          (λ x s'. Left n x (av.free_context c s'))
          (create_frame av c s)
  unfolding create_frame
  create_frame-Ends fps height width n c s p =
      let n1 = n + 1 in
      obtain-Ends av.frame_alloc (codec_exception frame_not_allocated) _ s
        (λ allocated_frame got.
          let s1 = (av.frame_alloc s).1 in
          let frame = record allocated_frame {
            format = c.pix_fmt;
            height = c.height;
            width = c.width;
          } in
          let more : allocated s1 ≡ n + 2 =
            law.frame_alloc_allocated s
            ∙ ap (λ o. grown o (allocated s)) got
            ∙ omega (arith, p.one_more) in
          let s2 = (av.frame_get_buffer frame s1).1 in
          let e2 : allocated s2 ≡ n + 2 = law.frame_get_buffer_allocated frame s1 ∙ more in
          let e3 = law.frame_make_writable_allocated frame s2 ∙ e2 in
          demand-Ends (av.frame_get_buffer frame) (codec_exception frame_data_not_allocated) _ s1
            (demand-Ends (av.frame_make_writable frame) (codec_exception not_writable) _ s2
              (returns (record {
                two_more = e3;
                is_configured = p.is_configured;
                suits = record { height_suits = refl; width_suits = refl; format_suits = refl };
              }))
              (left n not_writable _ (free_context-eq (n + 1) c _ (e3 ∙ omega arith))))
            (left n frame_data_not_allocated _ (free_context-eq (n + 1) c _ (e2 ∙ omega arith))))
        (λ missing. left n frame_not_allocated _ (
          free_context-eq n c _
            (law.frame_alloc_allocated s ∙ ap (λ o. grown o (allocated s)) missing ∙ p.one_more)
          ∙ omega arith))

  -- If the codec's context and frame are created, two more structures are allocated, the context has the
  -- framerate and both have the size that were asked for, and the frame has the context's format.
  -- If the constructor throws, its exception is one of the encoder's, and the context that could
  -- not be configured or opened, or the frame that got no writable buffer, stays allocated for ever.
  pub new_context_and_frame-Ends :
      (fps height width n : ℕ) (s : av.State)
      → allocated s ≡ n
      → Ends (Built fps height width n) (Left n) (new_context_and_frame av fps height width s)
  unfolding new_context_and_frame
  new_context_and_frame-Ends fps height width n s e =
      after-Ends (create_encode_context av fps height width s) _ (
        weaken-Ends (create_encode_context av fps height width s)
          (λ c s1 p. after-Ends (on_throw (create_frame av c) (av.free_context c) s1) _ (
            on_throw-Ends (create_frame av c) (av.free_context c) s1 (
              weaken-Ends (create_frame av c s1) (λ f s2 b. returns b)
                (create_frame-Ends fps height width n c s1 p))))
          (create_encode_context-Ends fps height width n s e))
