-- ===== src/IoController/Cursor.antt =====
-- `captureCursor` of src/streamer/X11IOController.cpp: the cursor's image is blended into the screenshot.
-- The pointer's position is a natural number, and a pixel has four bytes.
pub mod Blending
use screen_viewer.Prelude.{
  ℕ, zero, suc, ◌+◌, ◌-◌, ◌*◌, ◌/◌, ◌%◌, ◌^◌, ◌==◌, ltb, leb, if◌then◌else◌, Bool, ◌&&◌, Option,
  none, some,
}

-- `cv::Vec4b`.
pub record Pixel : Type 0 where
  pub blue : ℕ
  pub green : ℕ
  pub red : ℕ
  pub alpha : ℕ

pub record Screenshot : Type 0 where
  pub cols : ℕ
  pub rows : ℕ
  pub at : ℕ → ℕ → Pixel

-- `XFixesCursorImage`.
pub record CursorImage : Type 0 where
  pub x : ℕ
  pub y : ℕ
  pub xhot : ℕ
  pub yhot : ℕ
  pub width : ℕ
  pub height : ℕ
  pub pixels : ℕ → ℕ

-- The bytes of a pixel of the cursor.
pub cursor_pixel : ℕ → Pixel
cursor_pixel pixel = record {
  blue = pixel % 256;
  green = pixel / 2 ^ 8 % 256;
  red = pixel / 2 ^ 16 % 256;
  alpha = pixel / 2 ^ 24 % 256;
}

-- One colour: `over` with the opacity `alpha`, on `under`.
pub blend : ℕ → ℕ → ℕ → ℕ
blend over alpha under = ((over * alpha + under * (255 - alpha)) / 255) % 256

blend_alpha : ℕ → ℕ → ℕ
blend_alpha alpha under = (alpha + under * (255 - alpha) / 255) % 256

pub blended : Pixel → Pixel → Pixel
unfolding blend blend_alpha
blended c bg = record {
  blue = blend c.blue c.alpha bg.blue;
  green = blend c.green c.alpha bg.green;
  red = blend c.red c.alpha bg.red;
  alpha = blend_alpha c.alpha bg.alpha;
}

abbrev set_at : Screenshot → ℕ → ℕ → Pixel → Screenshot
set_at s px py p = record s { at = λ i j. if i == px && j == py then p else s.at i j }

-- The innermost `if`.
paint : Pixel → ℕ → ℕ → Screenshot → Screenshot
paint c dst_x dst_y s =
    if ltb 0 c.alpha then set_at s dst_x dst_y (blended c (s.at dst_x dst_y)) else s

-- The body of the loops: the target has to lie on the screenshot, on all four sides.
draw_pixel : CursorImage → ℕ → ℕ → Screenshot → Screenshot
unfolding paint
draw_pixel cursor y x s =
    let dst_x = cursor.x + x - cursor.xhot in
    let dst_y = cursor.y + y - cursor.yhot in
    if leb cursor.xhot (cursor.x + x)
      && ltb dst_x s.cols
      && leb cursor.yhot (cursor.y + y)
      && ltb dst_y s.rows
    then paint (cursor_pixel (cursor.pixels (y * cursor.width + x))) dst_x dst_y s
    else s

-- The first `x` columns of the cursor's row `y`, and its first `y` rows.
pub draw_row : CursorImage → ℕ → ℕ → Screenshot → Screenshot
draw_row cursor y zero s = s
draw_row cursor y (suc x) s = draw_pixel cursor y x (draw_row cursor y x s)

draw_rows : CursorImage → ℕ → Screenshot → Screenshot
draw_rows cursor zero s = s
draw_rows cursor (suc y) s = draw_row cursor y cursor.width (draw_rows cursor y s)

-- There may be no image of the cursor.
unfoldable pub capture_cursor : Option CursorImage → Screenshot → Screenshot
unfolding draw_rows
capture_cursor none s = s
capture_cursor (some cursor) s = draw_rows cursor cursor.height s
