-- ===== src/IoController/Controller/Captures.antt =====
-- The screen that the controller shows, and the sizes of its screenshots.
use screen_viewer.Prelude.{ltb, not, ◌≡◌, refl, sym, subst, true, List, [], ◌∷◌, length, some}
use screen_viewer.Outcome.{
  Exception, no_display, xinerama_inactive, screens_not_queried, too_few_screens, capture_failed,
  io_controller_exception, IoError,
}
use screen_viewer.Outcome.Ends.{Ends, returns, present-Ends, require-Ends, after-Ends, weaken-Ends}
use screen_viewer.IoController.Cursor.{Screenshot}
use screen_viewer.IoController.Cursor.Blending.{capture_cursor-SameSize}
use screen_viewer.IoController.Controller.{
  ScreenInfo, XServer, Controller, new_controller, create_display, get_screens_info, capture_first,
  capture_screenshot,
}

at_least_one :
    (screens : List ScreenInfo)
    → not (ltb (length screens) 1) ≡ true
    → (first : ScreenInfo) × (others : List ScreenInfo) × (screens ≡ first ∷ others)
at_least_one [] h = cc
at_least_one (screen ∷ screens) h = (screen, screens, refl)

-- An exception of the controller.
pub record Refused (e : Exception) : Type 0 where
  pub error : IoError
  pub is_error : e ≡ io_controller_exception error

refused : (error : IoError) → Refused (io_controller_exception error)
refused error = record { error = error; is_error = refl }

module _ (x : XServer) where
  -- The controller stands on the first of the screens that the server names.
  pub record Ready (c : Controller) : Type 0 where
    pub first : ScreenInfo
    pub others : List ScreenInfo
    pub display_opened : x.x_open_display ≡ some c.display
    pub xinerama_active : x.xinerama_is_active ≡ true
    pub screens_queried : x.xinerama_query_screens ≡ some c.screens
    pub screens_kept : c.screens ≡ first ∷ others
    pub screens_counted : c.screen_count ≡ length c.screens

  -- The first screen and the others, and what the server answered.
  abbrev Queried : List ScreenInfo → Type 0
  Queried screens =
      (first : ScreenInfo) × (others : List ScreenInfo) × (x.xinerama_is_active ≡ true)
      × (x.xinerama_query_screens ≡ some screens)
      × (screens ≡ first ∷ others)

  get_screens_info-Ends :
      (s : Unit {0}) → Ends (λ l _. Queried l) (λ e _. Refused e) (get_screens_info x s)
  unfolding get_screens_info
  get_screens_info-Ends s =
      require-Ends x.xinerama_is_active (io_controller_exception xinerama_inactive) _ s
        (λ active.
          present-Ends x.xinerama_query_screens (io_controller_exception screens_not_queried) _ s
            (λ screens queried.
              require-Ends (not (ltb (length screens) 1))
                (io_controller_exception (too_few_screens (length screens))) _ s
                (λ enough.
                  let (first, others, e) = at_least_one screens enough in
                  returns (first, others, active, queried, e))
                (λ _. refused (too_few_screens (length screens))))
            (λ _. refused screens_not_queried))
        (λ _. refused xinerama_inactive)

  -- A controller that is constructed has an open display, an active Xinerama and at least one screen; the
  -- constructor ends otherwise with one of the controller's own exceptions.
  pub new_controller-Ready : Ends (λ c _. Ready c) (λ e _. Refused e) (new_controller x tt)
  unfolding new_controller create_display
  new_controller-Ready =
      present-Ends x.x_open_display (io_controller_exception no_display) _ tt
        (λ display opened. after-Ends (get_screens_info x tt) _ (
          weaken-Ends (get_screens_info x tt)
            (λ screens s (first, others, active, queried, kept). returns (record {
              first = first;
              others = others;
              display_opened = opened;
              xinerama_active = active;
              screens_queried = queried;
              screens_kept = kept;
              screens_counted = refl;
            }))
            (get_screens_info-Ends tt)))
        (λ _. refused no_display)

  -- The screenshot has the size of the first screen, and the controller is as it was.
  pub record Taken (screen : ScreenInfo) (c : Controller) (shot : Screenshot) (c' : Controller)
      : Type 0 where
    pub width_taken : shot.cols ≡ screen.width
    pub height_taken : shot.rows ≡ screen.height
    pub unchanged : c' ≡ c

  pub capture_screenshot-Taken :
      (screen : ScreenInfo) (others : List ScreenInfo) (c : Controller)
      → c.screens ≡ screen ∷ others
      → Ends
          (Taken screen c)
          (λ e _. e ≡ io_controller_exception capture_failed)
          (capture_screenshot x c)
  unfolding capture_screenshot capture_first
  capture_screenshot-Taken screen others c e =
      subst
        (λ l.
          Ends (Taken screen c) (λ e _. e ≡ io_controller_exception capture_failed)
            (capture_first x l c))
        (sym e)
        (present-Ends (x.x_get_image c.display screen.x_org screen.y_org screen.width screen.height)
          (io_controller_exception capture_failed) _ c
          (λ image _.
            let size =
              capture_cursor-SameSize (x.x_fixes_get_cursor_image c.display)
                (record { cols = screen.width; rows = screen.height; at = image }) in
            returns (record {
              width_taken = size.same_cols;
              height_taken = size.same_rows;
              unchanged = refl;
            }))
          (λ _. refl))
