-- ===== src/Viewer/Members.antt =====
-- The constructor of include/ScreenViewerClient.hpp with all its members: what SDL makes, and behind that the
-- decoder, which may throw as well.
use screen_viewer.Prelude.{ℕ, ◌+◌, ◌-◌, ◌≡◌, arith, Option}
use screen_viewer.Outcome.{Outcome, done, thrown, M, ◌>>=◌, give, on_throw, on_first, on_second}
use screen_viewer.Outcome.Ends.{
  Ends, returns, throws, after-Ends, on_throw-Ends, on_first-Ends, on_second-Ends, map-Ends,
}
use screen_viewer.Ffmpeg.{Ffmpeg, AvContext, AvFrame}
use screen_viewer.VideoDecoder.Context.{new_frame_and_context}
use screen_viewer.Viewer.Window.{Sdl, LawfulSdl, Drawing, new_drawing, new_drawing-resources}

module _ (sdl : Sdl) (av : Ffmpeg) where
  pub record Members : Type 0 where
    pub drawing : Drawing sdl
    pub decoder : Option AvFrame × AvContext

  -- The destructors of the three members, the last one first.
  destroy_members : Drawing sdl → sdl.State × av.State → sdl.State × av.State
  destroy_members drawing (s, a) = (
    sdl.destroy_window drawing.window
        (sdl.destroy_renderer drawing.renderer (sdl.destroy_texture drawing.texture s)),
    a,
  )

  with_decoder : Drawing sdl → M (sdl.State × av.State) Members
  with_decoder drawing = do
    decoder ← on_second (new_frame_and_context av)
    give (record { drawing = drawing; decoder = decoder })

  unfoldable pub new_members : M (sdl.State × av.State) Members
  unfolding with_decoder destroy_members
  new_members = do
    drawing ← on_first (new_drawing sdl)
    on_throw (with_decoder drawing) (destroy_members drawing)

module _ (sdl : Sdl) (law : LawfulSdl sdl) (av : Ffmpeg) where
  open law use {resources}

  anyhow :
      {A : Type 0} (n k : ℕ) (o : Outcome av.State A)
      → k ≡ n
      → Ends (λ (_ : A) (_ : av.State). k ≡ n) (λ _ (_ : av.State). k ≡ n) o
  anyhow n k (done x a) e = returns e
  anyhow n k (thrown x a) e = throws e

  -- A call on ffmpeg leaves SDL alone.
  second-resources :
      {A : Type 0} (n : ℕ) (m : M av.State A) (s : sdl.State) (a : av.State)
      → resources s ≡ n
      → Ends (λ (_ : A) s'. resources s'.0 ≡ n) (λ _ s'. resources s'.0 ≡ n) (on_second m (s, a))
  second-resources n m s a e = on_second-Ends m s a (anyhow n (resources s) (m a) e)

  -- Whatever throws, the window, the renderer and the texture are gone again.
  pub new_members-resources :
      (n : ℕ) (s : sdl.State) (a : av.State)
      → ((texture : ℕ) (x : sdl.State)
          → resources (sdl.destroy_texture texture x) ≡ resources x - 1)
      → resources s ≡ n
      → Ends
          (λ (_ : Members sdl av) s'. resources s'.0 ≡ n + 3)
          (λ _ s'. resources s'.0 ≡ n)
          (new_members sdl av (s, a))
  unfolding new_members with_decoder destroy_members
  new_members-resources n s a texture_destroyed e =
      after-Ends (on_first (new_drawing sdl) (s, a)) _ (
        on_first-Ends (new_drawing sdl) s a (
          map-Ends (new_drawing sdl s)
            (λ drawing s1 h.
              on_throw-Ends (with_decoder sdl av drawing) (destroy_members sdl av drawing) (s1, a)
                (after-Ends (on_second (new_frame_and_context av) (s1, a)) _ (
                  map-Ends (on_second (new_frame_and_context av) (s1, a)) (λ decoder x k. returns k)
                    (λ ex x k.
                      let s2 = x.0 in
                      let s3 = sdl.destroy_texture drawing.texture s2 in
                      let s4 = sdl.destroy_renderer drawing.renderer s3 in
                      let e3 = texture_destroyed drawing.texture s2 in
                      let e4 = law.renderer_destroyed drawing.renderer s3 in
                      let e5 = law.window_destroyed drawing.window s4 in
                      omega (arith, e3, e4, e5, k))
                    (second-resources (n + 3) (new_frame_and_context av) s1 a h))))
            (λ ex s1 h. h) (new_drawing-resources sdl law n s e)))
