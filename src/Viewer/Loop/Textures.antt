-- ===== src/Viewer/Loop/Textures.antt =====
-- Every image is rendered through a texture of its own size.
use screen_viewer.Prelude.{ℕ, ◌≡◌, ◌⊎◌, All, Option, none, some}
use screen_viewer.Message.{Message}
use screen_viewer.Outcome.{Exception, sdl_exception, no_texture, Outcome}
use screen_viewer.Outcome.Ends.{Ends}
use screen_viewer.Viewer.Window.{Sdl}
use screen_viewer.Transport.{Transport}
use screen_viewer.Socket.{Socket}
use screen_viewer.Viewer.{Viewer}
use screen_viewer.VideoDecoder.{Decoder}
use screen_viewer.Viewer.Keeps.{Keeps}
use screen_viewer.Viewer.Loop.{Rendered, Client}

-- What `cv::resize` promises: the image has the size that was asked for.
pub record Resizes (d : Decoder) : Type 0 where
  pub resized_cols : (image : d.Image) (w h : ℕ) → d.cols (d.resize image w h) ≡ w
  pub resized_rows : (image : d.Image) (w h : ℕ) → d.rows (d.resize image w h) ≡ h

module _ (t : Transport) (sdl_key_sym_to_x11 : ℕ → ℕ) (d : Decoder) (sdl : Sdl)
    (law : Resizes d) where
  abbrev pub OfSize : d.Image → ℕ → ℕ → Type 0
  OfSize image w h = (d.cols image ≡ w) × (d.rows image ≡ h)

  -- Each rendered image had the size of its texture.
  abbrev pub Fitted : Client t sdl_key_sym_to_x11 d sdl → Type 0
  Fitted c =
      All
        (λ (r : Rendered t sdl_key_sym_to_x11 d sdl).
          OfSize r.image r.texture_width r.texture_height)
        c.rendered

  -- The texture has the size of a frame.
  abbrev pub Level : Client t sdl_key_sym_to_x11 d sdl → Type 0
  Level c = (c.texture_width ≡ c.viewer.frame_width) × (c.texture_height ≡ c.viewer.frame_height)

  pub record Matches (c : Client t sdl_key_sym_to_x11 d sdl) : Type 0 where
    pub images : Fitted c
    pub texture : Level c

  -- Where an exception ends the viewer: the texture may have the old size if it was the new one that could
  -- not be made.
  pub record MatchesUnless (e : Exception) (c : Client t sdl_key_sym_to_x11 d sdl) : Type 0 where
    pub images : Fitted c
    pub texture : Level c ⊎ (e ≡ sdl_exception no_texture)

  abbrev pub Good : {A : Type 0} → Outcome (Client t sdl_key_sym_to_x11 d sdl) A → Type 0
  Good = Ends (λ _. Matches) MatchesUnless

  -- An image that is about to be rendered has the size of the texture.
  abbrev Fits : Option d.Image → Client t sdl_key_sym_to_x11 d sdl → Type 0
  Fits none c = Matches c
  Fits (some image) c = Matches c × OfSize image c.texture_width c.texture_height
