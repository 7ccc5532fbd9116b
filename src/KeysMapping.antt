-- ===== src/KeysMapping.antt =====
-- src/KeysMapping.cpp: the X11 symbol of an SDL key. The codes of both libraries are arguments.
pub mod Lookup
pub mod Injective
use screen_viewer.Prelude.{ℕ, ◌==◌, if◌then◌else◌, List, [], ◌∷◌, Option, none, some}

-- The constants of SDL and of X11 that the table names.
pub data SdlKey : Type 0 where
  sdlk_backspace sdlk_tab sdlk_clear sdlk_return sdlk_pause sdlk_escape : SdlKey
  sdlk_delete sdlk_kp_0 sdlk_kp_1 sdlk_kp_2 sdlk_kp_3 sdlk_kp_4 sdlk_kp_5 : SdlKey
  sdlk_kp_6 sdlk_kp_7 sdlk_kp_8 sdlk_kp_9 sdlk_kp_period sdlk_kp_divide : SdlKey
  sdlk_kp_multiply sdlk_kp_minus sdlk_kp_plus sdlk_kp_enter sdlk_kp_equals sdlk_up : SdlKey
  sdlk_down sdlk_right sdlk_left sdlk_insert sdlk_home sdlk_end sdlk_pageup : SdlKey
  sdlk_pagedown sdlk_f1 sdlk_f2 sdlk_f3 sdlk_f4 sdlk_f5 sdlk_f6 sdlk_f7 sdlk_f8 : SdlKey
  sdlk_f9 sdlk_f10 sdlk_f11 sdlk_f12 sdlk_f13 sdlk_f14 sdlk_f15 sdlk_numlockclear : SdlKey
  sdlk_capslock sdlk_scrolllock sdlk_rshift sdlk_lshift sdlk_rctrl sdlk_lctrl : SdlKey
  sdlk_ralt sdlk_lalt sdlk_lgui sdlk_rgui sdlk_mode sdlk_help sdlk_printscreen : SdlKey
  sdlk_sysreq : SdlKey

pub data XKey : Type 0 where
  xk_back_space xk_tab xk_clear xk_return xk_pause xk_escape xk_delete xk_kp_0 : XKey
  xk_kp_1 xk_kp_2 xk_kp_3 xk_kp_4 xk_kp_5 xk_kp_6 xk_kp_7 xk_kp_8 xk_kp_9 : XKey
  xk_kp_decimal xk_kp_divide xk_kp_multiply xk_kp_subtract xk_kp_add xk_kp_enter : XKey
  xk_kp_equal xk_up xk_down xk_right xk_left xk_insert xk_home xk_end xk_page_up : XKey
  xk_page_down xk_f1 xk_f2 xk_f3 xk_f4 xk_f5 xk_f6 xk_f7 xk_f8 xk_f9 xk_f10 xk_f11 : XKey
  xk_f12 xk_f13 xk_f14 xk_f15 xk_num_lock xk_caps_lock xk_scroll_lock xk_shift_r : XKey
  xk_shift_l xk_control_r xk_control_l xk_alt_r xk_alt_l xk_super_l xk_super_r : XKey
  xk_mode_switch xk_help xk_print xk_sys_req : XKey

pub record KeyCodes : Type 0 where
  pub sdlk : SdlKey → ℕ
  pub xk : XKey → ℕ

-- The rows of `sdl_to_x11`.
unfoldable pub row_of : SdlKey → XKey
row_of sdlk_backspace = xk_back_space
row_of sdlk_tab = xk_tab
row_of sdlk_clear = xk_clear
row_of sdlk_return = xk_return
row_of sdlk_pause = xk_pause
row_of sdlk_escape = xk_escape
row_of sdlk_delete = xk_delete
row_of sdlk_kp_0 = xk_kp_0
row_of sdlk_kp_1 = xk_kp_1
row_of sdlk_kp_2 = xk_kp_2
row_of sdlk_kp_3 = xk_kp_3
row_of sdlk_kp_4 = xk_kp_4
row_of sdlk_kp_5 = xk_kp_5
row_of sdlk_kp_6 = xk_kp_6
row_of sdlk_kp_7 = xk_kp_7
row_of sdlk_kp_8 = xk_kp_8
row_of sdlk_kp_9 = xk_kp_9
row_of sdlk_kp_period = xk_kp_decimal
row_of sdlk_kp_divide = xk_kp_divide
row_of sdlk_kp_multiply = xk_kp_multiply
row_of sdlk_kp_minus = xk_kp_subtract
row_of sdlk_kp_plus = xk_kp_add
row_of sdlk_kp_enter = xk_kp_enter
row_of sdlk_kp_equals = xk_kp_equal
row_of sdlk_up = xk_up
row_of sdlk_down = xk_down
row_of sdlk_right = xk_right
row_of sdlk_left = xk_left
row_of sdlk_insert = xk_insert
row_of sdlk_home = xk_home
row_of sdlk_end = xk_end
row_of sdlk_pageup = xk_page_up
row_of sdlk_pagedown = xk_page_down
row_of sdlk_f1 = xk_f1
row_of sdlk_f2 = xk_f2
row_of sdlk_f3 = xk_f3
row_of sdlk_f4 = xk_f4
row_of sdlk_f5 = xk_f5
row_of sdlk_f6 = xk_f6
row_of sdlk_f7 = xk_f7
row_of sdlk_f8 = xk_f8
row_of sdlk_f9 = xk_f9
row_of sdlk_f10 = xk_f10
row_of sdlk_f11 = xk_f11
row_of sdlk_f12 = xk_f12
row_of sdlk_f13 = xk_f13
row_of sdlk_f14 = xk_f14
row_of sdlk_f15 = xk_f15
row_of sdlk_numlockclear = xk_num_lock
row_of sdlk_capslock = xk_caps_lock
row_of sdlk_scrolllock = xk_scroll_lock
row_of sdlk_rshift = xk_shift_r
row_of sdlk_lshift = xk_shift_l
row_of sdlk_rctrl = xk_control_r
row_of sdlk_lctrl = xk_control_l
row_of sdlk_ralt = xk_alt_r
row_of sdlk_lalt = xk_alt_l
row_of sdlk_lgui = xk_super_l
row_of sdlk_rgui = xk_super_r
row_of sdlk_mode = xk_mode_switch
row_of sdlk_help = xk_help
row_of sdlk_printscreen = xk_print
row_of sdlk_sysreq = xk_sys_req

unfoldable pub keys : List SdlKey
keys =
    sdlk_backspace ∷ sdlk_tab ∷ sdlk_clear ∷ sdlk_return ∷ sdlk_pause ∷ sdlk_escape ∷ sdlk_delete
    ∷ sdlk_kp_0 ∷ sdlk_kp_1 ∷ sdlk_kp_2 ∷ sdlk_kp_3 ∷ sdlk_kp_4 ∷ sdlk_kp_5 ∷ sdlk_kp_6 ∷ sdlk_kp_7
    ∷ sdlk_kp_8 ∷ sdlk_kp_9 ∷ sdlk_kp_period ∷ sdlk_kp_divide ∷ sdlk_kp_multiply ∷ sdlk_kp_minus
    ∷ sdlk_kp_plus ∷ sdlk_kp_enter ∷ sdlk_kp_equals ∷ sdlk_up ∷ sdlk_down ∷ sdlk_right ∷ sdlk_left
    ∷ sdlk_insert ∷ sdlk_home ∷ sdlk_end ∷ sdlk_pageup ∷ sdlk_pagedown ∷ sdlk_f1 ∷ sdlk_f2 ∷ sdlk_f3
    ∷ sdlk_f4 ∷ sdlk_f5 ∷ sdlk_f6 ∷ sdlk_f7 ∷ sdlk_f8 ∷ sdlk_f9 ∷ sdlk_f10 ∷ sdlk_f11 ∷ sdlk_f12
    ∷ sdlk_f13 ∷ sdlk_f14 ∷ sdlk_f15 ∷ sdlk_numlockclear ∷ sdlk_capslock ∷ sdlk_scrolllock
    ∷ sdlk_rshift ∷ sdlk_lshift ∷ sdlk_rctrl ∷ sdlk_lctrl ∷ sdlk_ralt ∷ sdlk_lalt ∷ sdlk_lgui
    ∷ sdlk_rgui ∷ sdlk_mode ∷ sdlk_help ∷ sdlk_printscreen ∷ sdlk_sysreq ∷ []

-- `contains` and `at`.
looked_up : KeyCodes → ℕ → List SdlKey → Option ℕ
unfolding row_of
looked_up codes sym [] = none
looked_up codes sym (k ∷ ks) =
    let rest = looked_up codes sym ks in
    if codes.sdlk k == sym then some (codes.xk (row_of k)) else rest

or_else : Option ℕ → ℕ → ℕ
or_else (some x) sym = x
or_else none sym = sym

-- An SDL code is a 32-bit pattern, which the cast keeps.
pub sdl_key_sym_to_x11 : KeyCodes → ℕ → ℕ
unfolding looked_up or_else keys
sdl_key_sym_to_x11 codes sym = or_else (looked_up codes sym keys) sym
