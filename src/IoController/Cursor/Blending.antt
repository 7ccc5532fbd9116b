-- ===== src/IoController/Cursor/Blending.antt =====
-- What the blending of the cursor does to the screenshot.
use screen_viewer.Prelude.{
  ℕ, zero, suc, ◌+◌, ◌-◌, ◌*◌, ◌/◌, ◌≤◌, ◌<◌, ◌≡◌, refl, sym, ◌∙◌, ap, arith, ltb, ◌==◌,
  if◌then◌else◌, ◌&&◌, Option, none, some,
}
use native.Mathlib.Nat.{mul-le-mul_right, mul-add}
use native.Mathlib.Decide.{dec_lt}
use screen_viewer.IoController.Cursor.{
  Pixel, Screenshot, CursorImage, cursor_pixel, blend, blended, paint, draw_pixel, draw_row,
  draw_rows, capture_cursor,
}

-- For an opacity of a byte, the mixture of two colours is at most any bound of both that fits a
-- byte, and the cast to a byte takes nothing off the quotient.
pub blend-le :
    (over alpha under high : ℕ)
    → alpha ≤ 255
    → over ≤ high
    → under ≤ high
    → high ≤ 255
    → (blend over alpha under ≤ high)
      × (blend over alpha under ≡ (over * alpha + under * (255 - alpha)) / 255)
unfolding blend
blend-le over alpha under high ha ho hu hh =
    let a = mul-le-mul_right alpha ho in
    let b = mul-le-mul_right (255 - alpha) hu in
    let sum : alpha + (255 - alpha) ≡ 255 = omega arith in
    let whole : high * alpha + high * (255 - alpha) ≡ high * 255 =
      sym (mul-add high alpha (255 - alpha)) ∙ ap (λ k. high * k) sum in
    (omega (arith, a, b, whole), omega (arith, a, b, whole))

-- The pixel (p, q) of a screenshot of this size lies under the pixel (x, y) of the cursor's image.
abbrev pub Under : CursorImage → Screenshot → ℕ → ℕ → ℕ → ℕ → Type 0
Under cursor s p q x y =
    (p + cursor.xhot ≡ cursor.x + x)
    × (q + cursor.yhot ≡ cursor.y + y)
    × (p < s.cols)
    × (q < s.rows)

-- What a pixel of the cursor makes of the one below it.
abbrev pub shown : CursorImage → ℕ → ℕ → Pixel → Pixel
shown cursor x y under =
    let c = cursor_pixel (cursor.pixels (y * cursor.width + x)) in
    if ltb 0 c.alpha then blended c under else under

pub record SameSize (s s' : Screenshot) : Type 0 where
  pub same_cols : s'.cols ≡ s.cols
  pub same_rows : s'.rows ≡ s.rows

paint-at :
    (c : Pixel) (dst_x dst_y p q : ℕ) (s : Screenshot)
    → (paint c dst_x dst_y s).at p q ≡ (
        if p == dst_x && q == dst_y
        then (if ltb 0 c.alpha then blended c (s.at p q) else s.at p q)
        else s.at p q)
unfolding paint
paint-at c dst_x dst_y p q s = ground arith

paint-SameSize : (c : Pixel) (dst_x dst_y : ℕ) (s : Screenshot) → SameSize s (paint c dst_x dst_y s)
unfolding paint
paint-SameSize c dst_x dst_y s = record { same_cols = ground arith; same_rows = ground arith }

draw_pixel-SameSize :
    (cursor : CursorImage) (y x : ℕ) (s : Screenshot) → SameSize s (draw_pixel cursor y x s)
unfolding draw_pixel
draw_pixel-SameSize cursor y x s =
    let c = cursor_pixel (cursor.pixels (y * cursor.width + x)) in
    let r = paint-SameSize c (cursor.x + x - cursor.xhot) (cursor.y + y - cursor.yhot) s in
    record { same_cols = ground (arith, r.same_cols); same_rows = ground (arith, r.same_rows) }

draw_pixel-away :
    (cursor : CursorImage) (y x p q : ℕ) (s : Screenshot)
    → (Under cursor s p q x y → ⊥)
    → (draw_pixel cursor y x s).at p q ≡ s.at p q
unfolding draw_pixel
draw_pixel-away cursor y x p q s away =
    let c = cursor_pixel (cursor.pixels (y * cursor.width + x)) in
    ground (arith, paint-at c (cursor.x + x - cursor.xhot) (cursor.y + y - cursor.yhot) p q s)

draw_pixel-here :
    (cursor : CursorImage) (y x p q : ℕ) (s : Screenshot)
    → Under cursor s p q x y
    → (draw_pixel cursor y x s).at p q ≡ shown cursor x y (s.at p q)
unfolding draw_pixel
draw_pixel-here cursor y x p q s u =
    let c = cursor_pixel (cursor.pixels (y * cursor.width + x)) in
    ground (arith, paint-at c (cursor.x + x - cursor.xhot) (cursor.y + y - cursor.yhot) p q s)

draw_row-SameSize :
    (cursor : CursorImage) (y n : ℕ) (s : Screenshot) → SameSize s (draw_row cursor y n s)
unfolding draw_row
draw_row-SameSize cursor y zero s = record { same_cols = refl; same_rows = refl }
draw_row-SameSize cursor y (suc n) s =
    let r = draw_row-SameSize cursor y n s in
    let p = draw_pixel-SameSize cursor y n (draw_row cursor y n s) in
    record { same_cols = p.same_cols ∙ r.same_cols; same_rows = p.same_rows ∙ r.same_rows }

draw_row-away :
    (cursor : CursorImage) (y n p q : ℕ) (s : Screenshot)
    → ((x : ℕ) → x < n → Under cursor s p q x y → ⊥)
    → (draw_row cursor y n s).at p q ≡ s.at p q
unfolding draw_row
draw_row-away cursor y zero p q s away = refl
draw_row-away cursor y (suc n) p q s away =
    let before = draw_row cursor y n s in
    let size = draw_row-SameSize cursor y n s in
    draw_pixel-away cursor y n p q before (λ (u : Under cursor before p q n y).
      away n (omega arith)
        (u.0, u.1, omega (arith, u.2, size.same_cols), omega (arith, u.3, size.same_rows)))
    ∙ draw_row-away cursor y n p q s (λ x h u. away x (omega arith) u)

draw_row-here :
    (cursor : CursorImage) (y n x p q : ℕ) (s : Screenshot)
    → x < n
    → Under cursor s p q x y
    → (draw_row cursor y n s).at p q ≡ shown cursor x y (s.at p q)
unfolding draw_row
draw_row-here cursor y zero x p q s h u = absurd (omega arith)
draw_row-here cursor y (suc n) x p q s h u =
    let before = draw_row cursor y n s in
    let size = draw_row-SameSize cursor y n s in
    elim (dec_lt x n) [
      | yes earlier ↦
          draw_pixel-away cursor y n p q before
            (λ (v : Under cursor before p q n y). omega (arith, u.0, v.0))
          ∙ draw_row-here cursor y n x p q s earlier u
      | no now ↦
          let last : x ≡ n = omega arith in
          let u' : Under cursor before p q n y = (
            u.0 ∙ ap (λ k. cursor.x + k) last,
            u.1,
            omega (arith, u.2, size.same_cols),
            omega (arith, u.3, size.same_rows),
          ) in
          draw_pixel-here cursor y n p q before u'
          ∙ ap (λ bg. shown cursor n y bg)
              (draw_row-away cursor y n p q s (λ x' h' v. omega (arith, u.0, v.0)))
          ∙ ap (λ k. shown cursor k y (s.at p q)) (sym last)
    ]

draw_rows-SameSize :
    (cursor : CursorImage) (n : ℕ) (s : Screenshot) → SameSize s (draw_rows cursor n s)
unfolding draw_rows
draw_rows-SameSize cursor zero s = record { same_cols = refl; same_rows = refl }
draw_rows-SameSize cursor (suc n) s =
    let r = draw_rows-SameSize cursor n s in
    let p = draw_row-SameSize cursor n cursor.width (draw_rows cursor n s) in
    record { same_cols = p.same_cols ∙ r.same_cols; same_rows = p.same_rows ∙ r.same_rows }

pub capture_cursor-SameSize :
    (cursor : Option CursorImage) (s : Screenshot) → SameSize s (capture_cursor cursor s)
unfolding capture_cursor
capture_cursor-SameSize none s = record { same_cols = refl; same_rows = refl }
capture_cursor-SameSize (some cursor) s = draw_rows-SameSize cursor cursor.height s

draw_rows-away :
    (cursor : CursorImage) (n p q : ℕ) (s : Screenshot)
    → ((x y : ℕ) → x < cursor.width → y < n → Under cursor s p q x y → ⊥)
    → (draw_rows cursor n s).at p q ≡ s.at p q
unfolding draw_rows
draw_rows-away cursor zero p q s away = refl
draw_rows-away cursor (suc n) p q s away =
    let before = draw_rows cursor n s in
    let size = draw_rows-SameSize cursor n s in
    draw_row-away cursor n cursor.width p q before (λ x h (u : Under cursor before p q x n).
      away x n h (omega arith)
        (u.0, u.1, omega (arith, u.2, size.same_cols), omega (arith, u.3, size.same_rows)))
    ∙ draw_rows-away cursor n p q s (λ x y h k u. away x y h (omega arith) u)

draw_rows-here :
    (cursor : CursorImage) (n x y p q : ℕ) (s : Screenshot)
    → x < cursor.width
    → y < n
    → Under cursor s p q x y
    → (draw_rows cursor n s).at p q ≡ shown cursor x y (s.at p q)
unfolding draw_rows
draw_rows-here cursor zero x y p q s w h u = absurd (omega arith)
draw_rows-here cursor (suc n) x y p q s w h u =
    let before = draw_rows cursor n s in
    let size = draw_rows-SameSize cursor n s in
    elim (dec_lt y n) [
      | yes earlier ↦
          draw_row-away cursor n cursor.width p q before
            (λ x' h' (v : Under cursor before p q x' n). omega (arith, u.1, v.1))
          ∙ draw_rows-here cursor n x y p q s w earlier u
      | no now ↦
          let last : y ≡ n = omega arith in
          let u' : Under cursor before p q x n = (
            u.0,
            u.1 ∙ ap (λ k. cursor.y + k) last,
            omega (arith, u.2, size.same_cols),
            omega (arith, u.3, size.same_rows),
          ) in
          draw_row-here cursor n cursor.width x p q before w u'
          ∙ ap (λ bg. shown cursor x n bg)
              (draw_rows-away cursor n p q s (λ x' y' h' k' v. omega (arith, u.1, v.1)))
          ∙ ap (λ k. shown cursor x k (s.at p q)) (sym last)
    ]

-- Each pixel of the screenshot that lies under a pixel of the cursor's image is blended with that one
-- pixel, once, if it is not fully transparent.
pub capture_cursor-here :
    (cursor : CursorImage) (x y p q : ℕ) (s : Screenshot)
    → x < cursor.width
    → y < cursor.height
    → Under cursor s p q x y
    → (capture_cursor (some cursor) s).at p q ≡ shown cursor x y (s.at p q)
unfolding capture_cursor
capture_cursor-here cursor x y p q s = draw_rows-here cursor cursor.height x y p q s

-- A pixel under no pixel of the cursor's image stays as it was, and so does everything that lies
-- outside the screenshot.
pub capture_cursor-away :
    (cursor : CursorImage) (p q : ℕ) (s : Screenshot)
    → ((x y : ℕ) → x < cursor.width → y < cursor.height → Under cursor s p q x y → ⊥)
    → (capture_cursor (some cursor) s).at p q ≡ s.at p q
unfolding capture_cursor
capture_cursor-away cursor p q s = draw_rows-away cursor cursor.height p q s
