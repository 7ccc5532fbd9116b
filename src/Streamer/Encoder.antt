-- ===== src/Streamer/Encoder.antt =====
-- `createVideoEncoder` of src/streamer/ScreenViewerStreamer.cpp, and `cv::cvtColor` of
-- `scheduleAsyncSendScreenshots`: the encoder is made for the size of one screenshot and converts all the
-- later ones.
use screen_viewer.Prelude.{◌≡◌, refl, sym, ◌∙◌, ap, leb, ◌&&◌, true, arith, List, ◌∷◌, some, Bytes}
use screen_viewer.Outcome.{
  done, M, ◌>>=◌, on_first, on_second, capture_failed, io_controller_exception,
}
use screen_viewer.Outcome.Ends.{
  Ends, returned, after-Ends, on_first-Ends, on_second-Ends, weaken-Ends, map-Ends,
}
use screen_viewer.Ffmpeg.{Ffmpeg, LawfulFfmpeg, AvContext, AvFrame, Mat, bgr24}
use screen_viewer.VideoEncoder.Context.{new_context_and_frame, convert_to_av_frame}
use screen_viewer.VideoEncoder.Context.Allocated.{Suits, new_context_and_frame-Ends}
use screen_viewer.IoController.X11.{Display}
use screen_viewer.IoController.Cursor.{Screenshot}
use screen_viewer.IoController.Controller.{
  ScreenInfo, XServer, Controller, new_controller, capture_screenshot,
}
use screen_viewer.IoController.Controller.Captures.{new_controller-Ready, capture_screenshot-Taken}

-- `cvt_color` drops the fourth byte of each pixel; the size stays.
pub to_mat : (Screenshot → Bytes) → Screenshot → Mat
to_mat cvt_color s = record { rows = s.rows; cols = s.cols; pixels = cvt_color s }

module _ (av : Ffmpeg) {S : Type 0} (capture : M S Screenshot) where
  unfoldable pub create_video_encoder : M (S × av.State) (AvContext × AvFrame)
  create_video_encoder = do
    screenshot ← on_first capture
    on_second (new_context_and_frame av 30 screenshot.rows screenshot.cols)

-- The image has the frame's size.
convert_to_av_frame-Suits :
    (av : Ffmpeg) (image : Mat) (c : AvContext) (f : AvFrame)
    → Suits c f
    → image.rows ≡ f.height
    → image.cols ≡ f.width
    → (f' : AvFrame) × (convert_to_av_frame av image f ≡ some f') × Suits c f'
unfolding convert_to_av_frame to_mat
convert_to_av_frame-Suits av image c f suits h w =
    let fits : (leb image.cols f.width && leb image.rows f.height) ≡ true = ground arith in
    (
      record f {
        data_planes = av.sws_scale bgr24 f.format image.cols image.rows image.pixels f.data_planes;
      },
      rw fits refl,
      record {
        height_suits = suits.height_suits;
        width_suits = suits.width_suits;
        format_suits = suits.format_suits;
      },
    )

module _ (x : XServer) (av : Ffmpeg) (law : LawfulFfmpeg av) (cvt_color : Screenshot → Bytes) where
  -- The size of the frame is that of the first screen.
  record Sized (screen : ScreenInfo) (c : Controller) (made : AvContext × AvFrame) (c' : Controller)
      : Type 0 where
    suits : Suits made.0 made.1
    height_sized : made.1.height ≡ screen.height
    width_sized : made.1.width ≡ screen.width
    unchanged : c' ≡ c

  create_video_encoder-Sized :
      (screen : ScreenInfo) (others : List ScreenInfo) (c : Controller) (s : av.State)
      → c.screens ≡ screen ∷ others
      → Ends
          (λ made (z : Controller × av.State). Sized screen c made z.0)
          (λ _ _. Unit {0})
          (create_video_encoder av (capture_screenshot x) (c, s))
  unfolding create_video_encoder
  create_video_encoder-Sized screen others c s e =
      after-Ends (on_first (capture_screenshot x) (c, s)) _ (
        on_first-Ends (capture_screenshot x) c s (
          map-Ends (capture_screenshot x c)
            (λ shot c1 taken.
              on_second-Ends (new_context_and_frame av 30 shot.rows shot.cols) c1 s (
                map-Ends (new_context_and_frame av 30 shot.rows shot.cols s)
                  (λ made s1 built. record {
                    suits = built.suits;
                    height_sized =
                        built.suits.height_suits ∙ built.is_configured.height_set
                        ∙ taken.height_taken;
                    width_sized =
                        built.suits.width_suits ∙ built.is_configured.width_set ∙ taken.width_taken;
                    unchanged = taken.unchanged;
                  })
                  (λ _ _ _. tt)
                  (new_context_and_frame-Ends av law 30 shot.rows shot.cols _ s refl)))
            (λ _ _ _. tt) (capture_screenshot-Taken x screen others c e)))

  -- If the controller could be constructed and the encoder be made from its screenshot, then every later
  -- screenshot, whatever the display shows by then, is refused by the X server or converted into
  -- the encoder's frame without overrunning it, and the frame keeps the context's size and format.
  pub capture_screenshot-Suits :
      (c c' : Controller) (s s' : av.State) (context : AvContext) (frame : AvFrame) (d : Display)
      → new_controller x tt ≡ done c tt
      → create_video_encoder av (capture_screenshot x) (c, s) ≡ done (context, frame) (c', s')
      → Ends
          (λ shot _.
            (f : AvFrame) × (convert_to_av_frame av (to_mat cvt_color shot) frame ≡ some f)
            × Suits context f)
          (λ e _. e ≡ io_controller_exception capture_failed)
          (capture_screenshot x (record c' { display = d }))
  unfolding to_mat
  capture_screenshot-Suits c c' s s' context frame d made encoder =
      let ready = returned (new_controller x tt) c tt (new_controller-Ready x) made in
      let sized =
        returned (create_video_encoder av (capture_screenshot x) (c, s)) (context, frame) (c', s')
          (create_video_encoder-Sized ready.first ready.others c s ready.screens_kept) encoder in
      let still : c'.screens ≡ ready.first ∷ ready.others =
        ap (λ k. k.screens) sized.unchanged ∙ ready.screens_kept in
      weaken-Ends (capture_screenshot x (record c' { display = d }))
        (λ shot _ taken.
          convert_to_av_frame-Suits av (to_mat cvt_color shot) context frame sized.suits
            (taken.height_taken ∙ sym sized.height_sized)
            (taken.width_taken ∙ sym sized.width_sized))
        (capture_screenshot-Taken x ready.first ready.others (record c' { display = d }) still)
