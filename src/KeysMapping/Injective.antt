-- ===== src/KeysMapping/Injective.antt =====
-- No two keys are confused.
use screen_viewer.Prelude.{ℕ, ◌≡◌, ◌≢◌, refl, sym, ◌∙◌, ap}
use screen_viewer.KeysMapping.{
  sdlk_backspace, xk_back_space, sdlk_tab, xk_tab, sdlk_clear, xk_clear, sdlk_return, xk_return,
  sdlk_pause, xk_pause, sdlk_escape, xk_escape, sdlk_delete, xk_delete, sdlk_kp_0, xk_kp_0,
  sdlk_kp_1, xk_kp_1, sdlk_kp_2, xk_kp_2, sdlk_kp_3, xk_kp_3, sdlk_kp_4, xk_kp_4, sdlk_kp_5,
  xk_kp_5, sdlk_kp_6, xk_kp_6, sdlk_kp_7, xk_kp_7, sdlk_kp_8, xk_kp_8, sdlk_kp_9, xk_kp_9,
  sdlk_kp_period, xk_kp_decimal, sdlk_kp_divide, xk_kp_divide, sdlk_kp_multiply, xk_kp_multiply,
  sdlk_kp_minus, xk_kp_subtract, sdlk_kp_plus, xk_kp_add, sdlk_kp_enter, xk_kp_enter,
  sdlk_kp_equals, xk_kp_equal, sdlk_up, xk_up, sdlk_down, xk_down, sdlk_right, xk_right, sdlk_left,
  xk_left, sdlk_insert, xk_insert, sdlk_home, xk_home, sdlk_end, xk_end, sdlk_pageup, xk_page_up,
  sdlk_pagedown, xk_page_down, sdlk_f1, xk_f1, sdlk_f2, xk_f2, sdlk_f3, xk_f3, sdlk_f4, xk_f4,
  sdlk_f5, xk_f5, sdlk_f6, xk_f6, sdlk_f7, xk_f7, sdlk_f8, xk_f8, sdlk_f9, xk_f9, sdlk_f10, xk_f10,
  sdlk_f11, xk_f11, sdlk_f12, xk_f12, sdlk_f13, xk_f13, sdlk_f14, xk_f14, sdlk_f15, xk_f15,
  sdlk_numlockclear, xk_num_lock, sdlk_capslock, xk_caps_lock, sdlk_scrolllock, xk_scroll_lock,
  sdlk_rshift, xk_shift_r, sdlk_lshift, xk_shift_l, sdlk_rctrl, xk_control_r, sdlk_lctrl,
  xk_control_l, sdlk_ralt, xk_alt_r, sdlk_lalt, xk_alt_l, sdlk_lgui, xk_super_l, sdlk_rgui,
  xk_super_r, sdlk_mode, xk_mode_switch, sdlk_help, xk_help, sdlk_printscreen, xk_print,
  sdlk_sysreq, xk_sys_req, SdlKey, XKey, KeyCodes, row_of, sdl_key_sym_to_x11,
}
use screen_viewer.KeysMapping.Lookup.{sdl_key_sym_to_x11-row_of, sdl_key_sym_to_x11-other}

-- The key that a symbol of X11 stands for, read from the other side.
pub key_of : XKey → SdlKey
key_of xk_back_space = sdlk_backspace
key_of xk_tab = sdlk_tab
key_of xk_clear = sdlk_clear
key_of xk_return = sdlk_return
key_of xk_pause = sdlk_pause
key_of xk_escape = sdlk_escape
key_of xk_delete = sdlk_delete
key_of xk_kp_0 = sdlk_kp_0
key_of xk_kp_1 = sdlk_kp_1
key_of xk_kp_2 = sdlk_kp_2
key_of xk_kp_3 = sdlk_kp_3
key_of xk_kp_4 = sdlk_kp_4
key_of xk_kp_5 = sdlk_kp_5
key_of xk_kp_6 = sdlk_kp_6
key_of xk_kp_7 = sdlk_kp_7
key_of xk_kp_8 = sdlk_kp_8
key_of xk_kp_9 = sdlk_kp_9
key_of xk_kp_decimal = sdlk_kp_period
key_of xk_kp_divide = sdlk_kp_divide
key_of xk_kp_multiply = sdlk_kp_multiply
key_of xk_kp_subtract = sdlk_kp_minus
key_of xk_kp_add = sdlk_kp_plus
key_of xk_kp_enter = sdlk_kp_enter
key_of xk_kp_equal = sdlk_kp_equals
key_of xk_up = sdlk_up
key_of xk_down = sdlk_down
key_of xk_right = sdlk_right
key_of xk_left = sdlk_left
key_of xk_insert = sdlk_insert
key_of xk_home = sdlk_home
key_of xk_end = sdlk_end
key_of xk_page_up = sdlk_pageup
key_of xk_page_down = sdlk_pagedown
key_of xk_f1 = sdlk_f1
key_of xk_f2 = sdlk_f2
key_of xk_f3 = sdlk_f3
key_of xk_f4 = sdlk_f4
key_of xk_f5 = sdlk_f5
key_of xk_f6 = sdlk_f6
key_of xk_f7 = sdlk_f7
key_of xk_f8 = sdlk_f8
key_of xk_f9 = sdlk_f9
key_of xk_f10 = sdlk_f10
key_of xk_f11 = sdlk_f11
key_of xk_f12 = sdlk_f12
key_of xk_f13 = sdlk_f13
key_of xk_f14 = sdlk_f14
key_of xk_f15 = sdlk_f15
key_of xk_num_lock = sdlk_numlockclear
key_of xk_caps_lock = sdlk_capslock
key_of xk_scroll_lock = sdlk_scrolllock
key_of xk_shift_r = sdlk_rshift
key_of xk_shift_l = sdlk_lshift
key_of xk_control_r = sdlk_rctrl
key_of xk_control_l = sdlk_lctrl
key_of xk_alt_r = sdlk_ralt
key_of xk_alt_l = sdlk_lalt
key_of xk_super_l = sdlk_lgui
key_of xk_super_r = sdlk_rgui
key_of xk_mode_switch = sdlk_mode
key_of xk_help = sdlk_help
key_of xk_print = sdlk_printscreen
key_of xk_sys_req = sdlk_sysreq

key_of-row_of : (k : SdlKey) → key_of (row_of k) ≡ k
unfolding key_of row_of
key_of-row_of sdlk_backspace = refl
key_of-row_of _ = refl

-- Different rows of the table have different symbols.
row_of-injective : (a b : SdlKey) → row_of a ≡ row_of b → a ≡ b
row_of-injective a b e = sym (key_of-row_of a) ∙ ap key_of e ∙ key_of-row_of b

row_of-key_of : (x : XKey) → row_of (key_of x) ≡ x
unfolding key_of row_of
row_of-key_of xk_back_space = refl
row_of-key_of _ = refl

pub key_of-injective : (x y : XKey) → key_of x ≡ key_of y → x ≡ y
key_of-injective x y e = sym (row_of-key_of x) ∙ ap row_of e ∙ row_of-key_of y

-- A code of the table, or one that is neither in the table nor the code of one of its symbols.
pub data Typed (codes : KeyCodes) : ℕ → Type 0 where
  listed : (k : SdlKey) → Typed codes (codes.sdlk k)
  plain :
      {n : ℕ}
      → ((k : SdlKey) → codes.sdlk k ≢ n)
      → ((k : SdlKey) → codes.xk (row_of k) ≢ n)
      → Typed codes n

-- If SDL gives different keys different codes and X11 different symbols different codes, then no two
-- keys of the viewer's user reach the streamer as the same symbol: codes that are mapped to the same
-- one are equal, each of them in the table, or neither there nor the code of one of its symbols.
pub sdl_key_sym_to_x11-injective :
    (codes : KeyCodes) (m n : ℕ)
    → ((a b : SdlKey) → codes.sdlk a ≡ codes.sdlk b → a ≡ b)
    → ((x y : XKey) → codes.xk x ≡ codes.xk y → x ≡ y)
    → Typed codes m
    → Typed codes n
    → sdl_key_sym_to_x11 codes m ≡ sdl_key_sym_to_x11 codes n
    → m ≡ n
sdl_key_sym_to_x11-injective codes m n distinct symbols (listed a) (listed b) e =
    let ea = sdl_key_sym_to_x11-row_of codes a distinct in
    let eb = sdl_key_sym_to_x11-row_of codes b distinct in
    ap (λ k. codes.sdlk k) (row_of-injective a b (symbols (row_of a) (row_of b) (sym ea ∙ e ∙ eb)))
sdl_key_sym_to_x11-injective codes m n distinct symbols (listed a) (plain new other) e = absurd (
    other a
      (sym (sdl_key_sym_to_x11-row_of codes a distinct) ∙ e ∙ sdl_key_sym_to_x11-other codes n new))
sdl_key_sym_to_x11-injective codes m n distinct symbols (plain new other) (listed b) e = absurd (
    other b (
      sym (sdl_key_sym_to_x11-row_of codes b distinct)
      ∙ sym e
      ∙ sdl_key_sym_to_x11-other codes m new))
sdl_key_sym_to_x11-injective codes m n distinct symbols (plain new _) (plain new' _) e =
    sym (sdl_key_sym_to_x11-other codes m new) ∙ e ∙ sdl_key_sym_to_x11-other codes n new'
