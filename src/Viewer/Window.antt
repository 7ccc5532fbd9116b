-- ===== src/Viewer/Window.antt =====
-- `createWindow`, `createRenderer`, `createTexture`, the constructor and the destructor of
-- src/ScreenViewerClient.cpp, over SDL. A resource is a number.
use screen_viewer.Prelude.{ℕ, ◌+◌, ◌-◌, ◌≡◌, ap, ◌∙◌, arith, Option}
use screen_viewer.Outcome.{
  M, ◌>>=◌, give, obtain, on_throw, no_window, no_renderer, no_texture, sdl_exception,
}
use screen_viewer.Outcome.Ends.{Ends, returns, obtain-Ends, on_throw-Ends, map-Ends}
use screen_viewer.Ffmpeg.{grown}

-- Each creation takes the size that it is made for.
pub record Sdl : Type 1 where
  pub State : Type 0
  pub create_window : ℕ → ℕ → State → Option ℕ × State
  pub create_renderer : ℕ → State → Option ℕ × State
  pub create_texture : ℕ → ℕ → ℕ → State → Option ℕ × State
  pub destroy_window : ℕ → State → State
  pub destroy_renderer : ℕ → State → State
  pub destroy_texture : ℕ → State → State
  pub quit : State → State

-- How many windows, renderers and textures there are.
pub record LawfulSdl (sdl : Sdl) : Type 0 where
  pub resources : sdl.State → ℕ
  pub window_created :
      (w h : ℕ) (s : sdl.State)
      → resources (sdl.create_window w h s).1 ≡ grown (sdl.create_window w h s).0 (resources s)
  pub renderer_created :
      (window : ℕ) (s : sdl.State)
      → resources (sdl.create_renderer window s).1
        ≡ grown (sdl.create_renderer window s).0 (resources s)
  pub texture_created :
      (renderer w h : ℕ) (s : sdl.State)
      → resources (sdl.create_texture renderer w h s).1
        ≡ grown (sdl.create_texture renderer w h s).0 (resources s)
  pub window_destroyed :
      (window : ℕ) (s : sdl.State) → resources (sdl.destroy_window window s) ≡ resources s - 1
  pub renderer_destroyed :
      (renderer : ℕ) (s : sdl.State) → resources (sdl.destroy_renderer renderer s) ≡ resources s - 1

module _ (sdl : Sdl) where
  -- The members of the viewer that SDL has made.
  pub record Drawing : Type 0 where
    pub window : ℕ
    pub renderer : ℕ
    pub texture : ℕ

  unfoldable pub create_window : ℕ → ℕ → M sdl.State ℕ
  create_window window_width window_height =
      obtain (sdl.create_window window_width window_height) (sdl_exception no_window)

  unfoldable pub create_renderer : ℕ → M sdl.State ℕ
  create_renderer window = obtain (sdl.create_renderer window) (sdl_exception no_renderer)

  unfoldable pub create_texture : ℕ → ℕ → ℕ → M sdl.State ℕ
  create_texture renderer width height =
      obtain (sdl.create_texture renderer width height) (sdl_exception no_texture)

  with_renderer : ℕ → ℕ → M sdl.State Drawing
  with_renderer window renderer = do
    texture ← create_texture renderer 800 600
    give (record { window = window; renderer = renderer; texture = texture })

  with_window : ℕ → M sdl.State Drawing
  with_window window = do
    renderer ← create_renderer window
    on_throw (with_renderer window renderer) (sdl.destroy_renderer renderer)

  -- The constructor, for the default sizes: what was made before an exception is destroyed.
  unfoldable pub new_drawing : M sdl.State Drawing
  unfolding with_window with_renderer create_window create_renderer create_texture
  new_drawing = do
    window ← create_window 800 600
    on_throw (with_window window) (sdl.destroy_window window)

  -- The destructor: its body quits SDL, and the members are destroyed behind it.
  pub destroy_drawing : Drawing → sdl.State → sdl.State
  destroy_drawing d s =
      sdl.destroy_window d.window
        (sdl.destroy_renderer d.renderer (sdl.destroy_texture d.texture (sdl.quit s)))

module _ (sdl : Sdl) (law : LawfulSdl sdl) where
  open law use {resources}

  with_renderer-resources :
      (n window renderer : ℕ) (s : sdl.State)
      → resources s ≡ n
      → Ends
          (λ (_ : Drawing sdl) s'. resources s' ≡ n + 1)
          (λ _ s'. resources s' ≡ n)
          (with_renderer sdl window renderer s)
  unfolding with_renderer create_texture
  with_renderer-resources n window renderer s e =
      obtain-Ends (sdl.create_texture renderer 800 600) (sdl_exception no_texture) _ s
        (λ texture got. returns (
          law.texture_created renderer 800 600 s
          ∙ ap (λ o. grown o (resources s)) got
          ∙ ap (λ k. k + 1) e))
        (λ missing.
          law.texture_created renderer 800 600 s ∙ ap (λ o. grown o (resources s)) missing ∙ e)

  with_window-resources :
      (n window : ℕ) (s : sdl.State)
      → resources s ≡ n
      → Ends
          (λ (_ : Drawing sdl) s'. resources s' ≡ n + 2)
          (λ _ s'. resources s' ≡ n)
          (with_window sdl window s)
  unfolding with_window create_renderer
  with_window-resources n window s e =
      obtain-Ends (sdl.create_renderer window) (sdl_exception no_renderer) _ s
        (λ renderer got.
          let s1 = (sdl.create_renderer window s).1 in
          let e1 : resources s1 ≡ n + 1 =
            law.renderer_created window s
            ∙ ap (λ o. grown o (resources s)) got
            ∙ ap (λ k. k + 1) e in
          on_throw-Ends (with_renderer sdl window renderer) (sdl.destroy_renderer renderer) s1 (
            map-Ends (with_renderer sdl window renderer s1) (λ _ s2 h. h ∙ omega arith)
              (λ _ s2 h. law.renderer_destroyed renderer s2 ∙ ap (λ k. k - 1) h ∙ omega arith)
              (with_renderer-resources (n + 1) window renderer s1 e1)))
        (λ missing. law.renderer_created window s ∙ ap (λ o. grown o (resources s)) missing ∙ e)

  pub new_drawing-resources :
      (n : ℕ) (s : sdl.State)
      → resources s ≡ n
      → Ends
          (λ (_ : Drawing sdl) s'. resources s' ≡ n + 3)
          (λ _ s'. resources s' ≡ n)
          (new_drawing sdl s)
  unfolding new_drawing create_window
  new_drawing-resources n s e =
      obtain-Ends (sdl.create_window 800 600) (sdl_exception no_window) _ s
        (λ window got.
          let s1 = (sdl.create_window 800 600 s).1 in
          let e1 : resources s1 ≡ n + 1 =
            law.window_created 800 600 s
            ∙ ap (λ o. grown o (resources s)) got
            ∙ ap (λ k. k + 1) e in
          on_throw-Ends (with_window sdl window) (sdl.destroy_window window) s1 (
            map-Ends (with_window sdl window s1) (λ _ s2 h. h ∙ omega arith)
              (λ _ s2 h. law.window_destroyed window s2 ∙ ap (λ k. k - 1) h ∙ omega arith)
              (with_window-resources (n + 1) window s1 e1)))
        (λ missing. law.window_created 800 600 s ∙ ap (λ o. grown o (resources s)) missing ∙ e)
