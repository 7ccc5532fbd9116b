-- ===== src/Mouse/Buttons.antt =====
-- What a mask made from an SDL button says to the side that reads it.
use screen_viewer.Prelude.{
  ℕ, zero, suc, ◌≤◌, ◌<◌, ◌^◌, ◌==◌, ◌≡◌, ◌≢◌, refl, arith, ltb, if◌then◌else◌, Bool, true, false,
  some,
}
use screen_viewer.Mouse.{
  move, extract_button_id, convert_to_mask, is_clicked, is_scroll_moved, set_clicked,
}

-- The X11 button that stands for an SDL button: left, middle, right, back and forward.
abbrev pub x11_button : ℕ → ℕ
x11_button sdl = if ltb sdl 4 then sdl else if sdl == 4 then 8 else 9

pub record Reads (sdl : ℕ) (down : Bool) (mask : ℕ) : Type 0 where
  pub button : extract_button_id mask ≡ x11_button sdl
  pub held : is_clicked mask ≡ down
  pub no_scroll : is_scroll_moved mask ≡ false
  pub no_move : mask ≢ move
  pub fits : mask < 2 ^ 31

-- Each of the five SDL buttons has a mask from which the reader takes the matching X11 button.
-- A press is read as a press and a release as a release, and neither as a move or the wheel;
-- and the mask fits an `int`.
pub convert_to_mask-Reads :
    (sdl : ℕ)
    → 1 ≤ sdl
    → sdl ≤ 5
    → (mask : ℕ) × (convert_to_mask sdl ≡ some mask)
      × Reads sdl false mask
      × Reads sdl true (set_clicked mask)
unfolding convert_to_mask extract_button_id is_clicked is_scroll_moved set_clicked
convert_to_mask-Reads zero lo hi = absurd (omega arith)
convert_to_mask-Reads (suc zero) lo hi = (1, refl, ground arith, ground arith)
convert_to_mask-Reads (suc (suc zero)) lo hi = (2, refl, ground arith, ground arith)
convert_to_mask-Reads (suc (suc (suc zero))) lo hi = (4, refl, ground arith, ground arith)
convert_to_mask-Reads (suc (suc (suc (suc zero)))) lo hi = (128, refl, ground arith, ground arith)
convert_to_mask-Reads (suc (suc (suc (suc (suc zero))))) lo hi =
    (64, refl, ground arith, ground arith)
convert_to_mask-Reads (suc (suc (suc (suc (suc (suc n)))))) lo hi = absurd (omega arith)
