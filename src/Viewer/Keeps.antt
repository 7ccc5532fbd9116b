-- ===== src/Viewer/Keeps.antt =====
-- No event of the window changes the size of the frame.
use screen_viewer.Prelude.{
  ℕ, ◌+◌, ◌-◌, ◌≡◌, refl, sym, ◌∙◌, ltb, Bool-cases, inl, inr, if◌then◌else◌, List, [], ◌∷◌, Option,
  none, some,
}
use screen_viewer.Mouse.{move, convert_to_mask, set_clicked}
use screen_viewer.Outcome.{Outcome, done, thrown, M, after, final}
use screen_viewer.Transport.{Transport}
use screen_viewer.Socket.{Socket}
use screen_viewer.Viewer.{
  Viewer, SdlEvent, mouse_motion, mouse_wheel, mouse_button, key, window_resized, quit, other_event,
  handle_event, handle_io_events, with_socket, motion_after, motion_since, moved, send_mouse,
  defined, scaled, scaled_x, scaled_y,
}

module _ (t : Transport) (sdl_key_sym_to_x11 : ℕ → ℕ) where
  -- The size of the frame has not changed.
  pub record Keeps {κ} {A : Type κ} (v : Viewer t) (o : Outcome (Viewer t) A) : Type 0 where
    pub width : (final o).frame_width ≡ v.frame_width
    pub height : (final o).frame_height ≡ v.frame_height

  pub with_socket-Keeps {κ} :
      {A : Type κ} (v : Viewer t) (o : Outcome (Socket t (Unit {0})) A)
      → Keeps v (with_socket t sdl_key_sym_to_x11 v o)
  with_socket-Keeps v (done a s) = record { width = refl; height = refl }
  with_socket-Keeps v (thrown e s) = record { width = refl; height = refl }

  after-Keeps {κ ι} :
      {A : Type κ} {B : Type ι} (v : Viewer t) (o : Outcome (Viewer t) A) (f : A → M (Viewer t) B)
      → Keeps v o
      → ((a : A) (w : Viewer t) → Keeps w (f a w))
      → Keeps v (after o f)
  after-Keeps v (done a w) f k g = record {
    width = (g a w).width ∙ k.width;
    height = (g a w).height ∙ k.height;
  }
  after-Keeps v (thrown e w) f k g = record { width = k.width; height = k.height }

  defined-Keeps : (v : Viewer t) (o : Option ℕ) → Keeps v (defined t sdl_key_sym_to_x11 o v)
  defined-Keeps v (some n) = record { width = refl; height = refl }
  defined-Keeps v none = record { width = refl; height = refl }

  send_mouse-Keeps :
      (button_mask x y : ℕ) (v : Viewer t)
      → Keeps v (send_mouse t sdl_key_sym_to_x11 button_mask x y v)
  unfolding send_mouse
  send_mouse-Keeps button_mask x y v = with_socket-Keeps v _

  -- Both coordinates are scaled before anything is sent.
  scaled-Keeps {κ} :
      {A : Type κ} (x y : ℕ) (v : Viewer t) (f : ℕ → ℕ → M (Viewer t) A)
      → ((x' y' : ℕ) (w : Viewer t) → Keeps w (f x' y' w))
      → Keeps v (
          after
            (scaled_x t sdl_key_sym_to_x11 x v)
            (λ x' w. after (scaled_y t sdl_key_sym_to_x11 y w) (f x')))
  scaled-Keeps x y v f k =
      after-Keeps v (scaled_x t sdl_key_sym_to_x11 x v) _
        (defined-Keeps v (scaled x v.frame_width v.window_width))
        λ x' w.
          after-Keeps w (scaled_y t sdl_key_sym_to_x11 y w) (f x')
            (defined-Keeps w (scaled y w.frame_height w.window_height)) (k x')

  moved-Keeps :
      (sent_at x y : ℕ) (v : Viewer t) → Keeps v (moved t sdl_key_sym_to_x11 sent_at x y v)
  unfolding moved
  moved-Keeps sent_at x y v = scaled-Keeps x y v _ λ x' y' w.
      after-Keeps w (send_mouse t sdl_key_sym_to_x11 move x' y' w) _ (send_mouse-Keeps move x' y' w)
        (λ _ u. record { width = refl; height = refl })

  motion_after-Keeps :
      (last interval now sent_at x y : ℕ) (v : Viewer t)
      → Keeps v (motion_after t sdl_key_sym_to_x11 last interval now sent_at x y v)
  unfolding motion_after
  motion_after-Keeps last interval now sent_at x y v =
      elim (Bool-cases (ltb interval (now - last))) [
        | inl later ↦ rw later (moved-Keeps sent_at x y v)
        | inr soon ↦ rw soon (record { width = refl; height = refl })
      ]

  motion_since-Keeps :
      (last : Option ℕ) (interval now sent_at x y : ℕ) (v : Viewer t)
      → Keeps v (motion_since t sdl_key_sym_to_x11 last interval now sent_at x y v)
  unfolding motion_since
  motion_since-Keeps none interval now = motion_after-Keeps now interval now
  motion_since-Keeps (some last) interval now = motion_after-Keeps last interval now

  handle_event-Keeps :
      (interval now sent_at : ℕ) (e : SdlEvent) (v : Viewer t)
      → Keeps v (handle_event t sdl_key_sym_to_x11 interval now sent_at e v)
  unfolding handle_event
  handle_event-Keeps interval now sent_at (mouse_motion x y) v =
      motion_since-Keeps v.last_pos_update interval now sent_at x y v
  handle_event-Keeps interval now sent_at (mouse_wheel up) v = send_mouse-Keeps _ 0 0 v
  handle_event-Keeps interval now sent_at (mouse_button down button x y) v =
      scaled-Keeps x y v _ λ x' y' w.
        after-Keeps w (defined t sdl_key_sym_to_x11 (convert_to_mask button) w) _
          (defined-Keeps w (convert_to_mask button))
          (λ button_mask.
            send_mouse-Keeps (if down then set_clicked button_mask else button_mask) x' y')
  handle_event-Keeps interval now sent_at (key down sym) v = with_socket-Keeps v _
  handle_event-Keeps interval now sent_at (window_resized w h) v = record {
    width = refl;
    height = refl;
  }
  handle_event-Keeps interval now sent_at quit v = record { width = refl; height = refl }
  handle_event-Keeps interval now sent_at other_event v = record { width = refl; height = refl }

  pub handle_io_events-Keeps :
      (max_poll_time interval start : ℕ) (events : List (ℕ × ℕ × SdlEvent)) (v : Viewer t)
      → Keeps v (handle_io_events t sdl_key_sym_to_x11 max_poll_time interval start events v)
  unfolding handle_io_events
  handle_io_events-Keeps max interval start [] v = record { width = refl; height = refl }
  handle_io_events-Keeps max interval start ((passed, sent, e) ∷ events) v =
      elim (Bool-cases (ltb passed max)) [
        | inl early ↦ rw early (
            after-Keeps v
              (handle_event t sdl_key_sym_to_x11 interval (start + passed) (start + sent) e v) _
              (handle_event-Keeps interval (start + passed) (start + sent) e v)
              (λ _. handle_io_events-Keeps max interval start events))
        | inr late ↦ rw late (record { width = refl; height = refl })
      ]
