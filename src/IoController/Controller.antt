-- ===== src/IoController/Controller.antt =====
-- The constructor and `captureScreenshot` of src/streamer/X11IOController.cpp, over the answers of the X
-- server. `screens` points to the first of the screens.
pub mod Captures
use screen_viewer.Prelude.{
  ℕ, ltb, if◌then◌else◌, Bool, not, List, [], ◌∷◌, length, Option, none, some,
}
use screen_viewer.Outcome.{
  IoError, no_display, xinerama_inactive, screens_not_queried, too_few_screens, capture_failed,
  io_controller_exception, undefined, Exception, done, M, ◌>>=◌, ◌>>◌, give, throw, present,
  require,
}
use screen_viewer.IoController.X11.{Display}
use screen_viewer.IoController.Cursor.{Pixel, Screenshot, CursorImage, capture_cursor}

-- `XineramaScreenInfo`.
pub record ScreenInfo : Type 0 where
  pub x_org : ℕ
  pub y_org : ℕ
  pub width : ℕ
  pub height : ℕ

-- Each call, with null as `none`. `x_get_image` takes the origin and the size; its answer is the image's
-- pixels by column and row.
pub record XServer : Type 0 where
  pub x_open_display : Option Display
  pub xinerama_is_active : Bool
  pub xinerama_query_screens : Option (List ScreenInfo)
  pub default_root_window : ℕ
  pub x_get_image : Display → ℕ → ℕ → ℕ → ℕ → Option (ℕ → ℕ → Pixel)
  pub x_fixes_get_cursor_image : Display → Option CursorImage

pub record Controller : Type 0 where
  pub screen_count : ℕ
  pub display : Display
  pub screens : List ScreenInfo
  pub root : ℕ

module _ (x : XServer) where
  create_display : M (Unit {0}) Display
  create_display = present x.x_open_display (io_controller_exception no_display)

  get_screens_info : M (Unit {0}) (List ScreenInfo)
  get_screens_info = do
    require x.xinerama_is_active (io_controller_exception xinerama_inactive)
    screens ← present x.xinerama_query_screens (io_controller_exception screens_not_queried)
    require (not (ltb (length screens) 1))
        (io_controller_exception (too_few_screens (length screens)))
    give screens

  get_window : ℕ
  get_window = x.default_root_window

  unfoldable pub new_controller : M (Unit {0}) Controller
  unfolding create_display get_screens_info get_window
  new_controller = do
    display ← create_display
    screens ← get_screens_info
    give (record {
      screen_count = length screens;
      display = display;
      screens = screens;
      root = get_window;
    })

  -- With the first screen. Without one the code would read behind the end of an array.
  capture_first : List ScreenInfo → M Controller Screenshot
  capture_first [] s = throw undefined s
  capture_first (screen ∷ screens) s =
      (do
        image ←
            present (x.x_get_image s.display screen.x_org screen.y_org screen.width screen.height)
              (io_controller_exception capture_failed)
        give (
            capture_cursor (x.x_fixes_get_cursor_image s.display)
              (record { cols = screen.width; rows = screen.height; at = image })))
        s

  unfoldable pub capture_screenshot : M Controller Screenshot
  unfolding capture_first
  capture_screenshot s = capture_first s.screens s
