-- ===== src/Mouse.antt =====
-- include/MouseConfig.hpp and src/MouseConfig.cpp: one `int` carries the button of a mouse event and
-- whether it is held down. Masks are the 32-bit patterns of the `int`s.
pub mod Buttons
use screen_viewer.Prelude.{
  ℕ, ◌-◌, ◌^◌, ◌==◌, ltb, if◌then◌else◌, Bool, not, ◌||◌, Option, none, some, bit_and, bit_or,
}

abbrev pub move : ℕ
move = 0

abbrev pub left_button : ℕ
left_button = 1

abbrev pub left_button_mask : ℕ
left_button_mask = 1

abbrev pub mid_button : ℕ
mid_button = 2

abbrev pub mid_button_mask : ℕ
mid_button_mask = 2 ^ (mid_button - 1)

abbrev pub right_button : ℕ
right_button = 3

abbrev pub right_button_mask : ℕ
right_button_mask = 2 ^ (right_button - 1)

abbrev pub scroll_up : ℕ
scroll_up = 4

abbrev pub scroll_up_mask : ℕ
scroll_up_mask = 2 ^ (scroll_up - 1)

abbrev pub scroll_down : ℕ
scroll_down = 5

abbrev pub scroll_down_mask : ℕ
scroll_down_mask = 2 ^ (scroll_down - 1)

abbrev pub is_clicked_bit : ℕ
is_clicked_bit = 6

abbrev pub is_clicked_mask : ℕ
is_clicked_mask = 2 ^ (is_clicked_bit - 1)

abbrev pub forward_button : ℕ
forward_button = 9

abbrev pub forward_button_mask : ℕ
forward_button_mask = 2 ^ 6

abbrev pub back_button : ℕ
back_button = 8

abbrev pub back_button_mask : ℕ
back_button_mask = 2 ^ (back_button - 1)

-- `if (a & b)`.
abbrev pub has_bits : ℕ → ℕ → Bool
has_bits a b = not (bit_and a b == 0)

unfoldable pub extract_button_id : ℕ → ℕ
extract_button_id button_mask =
    if has_bits button_mask left_button_mask
    then left_button
    else if has_bits button_mask mid_button_mask
    then mid_button
    else if has_bits button_mask right_button_mask
    then right_button
    else if has_bits button_mask scroll_up_mask
    then scroll_up
    else if has_bits button_mask scroll_down_mask
    then scroll_down
    else if has_bits button_mask forward_button_mask
    then forward_button
    else if has_bits button_mask back_button_mask
    then back_button
    else 0

-- `none` where the shift distance is negative or 32 and more, which is undefined.
unfoldable pub convert_to_mask : ℕ → Option ℕ
convert_to_mask sdl_button_id =
    if sdl_button_id == 4
    then some back_button_mask
    else if sdl_button_id == 5
    then some forward_button_mask
    else if sdl_button_id == 0 || ltb 32 sdl_button_id
    then none
    else some (2 ^ (sdl_button_id - 1))

unfoldable pub is_clicked : ℕ → Bool
is_clicked mask = has_bits mask is_clicked_mask

unfoldable pub is_scroll_moved : ℕ → Bool
is_scroll_moved mask = has_bits mask scroll_up_mask || has_bits mask scroll_down_mask

unfoldable pub set_clicked : ℕ → ℕ
set_clicked mask = bit_or mask is_clicked_mask
