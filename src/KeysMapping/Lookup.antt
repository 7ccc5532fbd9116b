-- ===== src/KeysMapping/Lookup.antt =====
-- What the table answers.
use screen_viewer.Prelude.{
  ℕ, zero, suc, ◌==◌, ==_iff, ◌≡◌, ◌≢◌, refl, sym, ◌∙◌, ap, Bool-cases, inl, inr, List, [], ◌∷◌,
  none, some, get_elem?,
}
use screen_viewer.KeysMapping.{
  SdlKey, sdlk_backspace, sdlk_tab, sdlk_clear, sdlk_return, sdlk_pause, sdlk_escape, sdlk_delete,
  sdlk_kp_0, sdlk_kp_1, sdlk_kp_2, sdlk_kp_3, sdlk_kp_4, sdlk_kp_5, sdlk_kp_6, sdlk_kp_7, sdlk_kp_8,
  sdlk_kp_9, sdlk_kp_period, sdlk_kp_divide, sdlk_kp_multiply, sdlk_kp_minus, sdlk_kp_plus,
  sdlk_kp_enter, sdlk_kp_equals, sdlk_up, sdlk_down, sdlk_right, sdlk_left, sdlk_insert, sdlk_home,
  sdlk_end, sdlk_pageup, sdlk_pagedown, sdlk_f1, sdlk_f2, sdlk_f3, sdlk_f4, sdlk_f5, sdlk_f6,
  sdlk_f7, sdlk_f8, sdlk_f9, sdlk_f10, sdlk_f11, sdlk_f12, sdlk_f13, sdlk_f14, sdlk_f15,
  sdlk_numlockclear, sdlk_capslock, sdlk_scrolllock, sdlk_rshift, sdlk_lshift, sdlk_rctrl,
  sdlk_lctrl, sdlk_ralt, sdlk_lalt, sdlk_lgui, sdlk_rgui, sdlk_mode, sdlk_help, sdlk_printscreen,
  sdlk_sysreq, sdlk_backspace, KeyCodes, row_of, keys, looked_up, or_else, sdl_key_sym_to_x11,
}

-- Where a key stands in the table.
pub index : SdlKey → ℕ
index sdlk_backspace = 0
index sdlk_tab = 1
index sdlk_clear = 2
index sdlk_return = 3
index sdlk_pause = 4
index sdlk_escape = 5
index sdlk_delete = 6
index sdlk_kp_0 = 7
index sdlk_kp_1 = 8
index sdlk_kp_2 = 9
index sdlk_kp_3 = 10
index sdlk_kp_4 = 11
index sdlk_kp_5 = 12
index sdlk_kp_6 = 13
index sdlk_kp_7 = 14
index sdlk_kp_8 = 15
index sdlk_kp_9 = 16
index sdlk_kp_period = 17
index sdlk_kp_divide = 18
index sdlk_kp_multiply = 19
index sdlk_kp_minus = 20
index sdlk_kp_plus = 21
index sdlk_kp_enter = 22
index sdlk_kp_equals = 23
index sdlk_up = 24
index sdlk_down = 25
index sdlk_right = 26
index sdlk_left = 27
index sdlk_insert = 28
index sdlk_home = 29
index sdlk_end = 30
index sdlk_pageup = 31
index sdlk_pagedown = 32
index sdlk_f1 = 33
index sdlk_f2 = 34
index sdlk_f3 = 35
index sdlk_f4 = 36
index sdlk_f5 = 37
index sdlk_f6 = 38
index sdlk_f7 = 39
index sdlk_f8 = 40
index sdlk_f9 = 41
index sdlk_f10 = 42
index sdlk_f11 = 43
index sdlk_f12 = 44
index sdlk_f13 = 45
index sdlk_f14 = 46
index sdlk_f15 = 47
index sdlk_numlockclear = 48
index sdlk_capslock = 49
index sdlk_scrolllock = 50
index sdlk_rshift = 51
index sdlk_lshift = 52
index sdlk_rctrl = 53
index sdlk_lctrl = 54
index sdlk_ralt = 55
index sdlk_lalt = 56
index sdlk_lgui = 57
index sdlk_rgui = 58
index sdlk_mode = 59
index sdlk_help = 60
index sdlk_printscreen = 61
index sdlk_sysreq = 62

keys-index : (k : SdlKey) → get_elem? keys (index k) ≡ some k
unfolding keys index
keys-index sdlk_backspace = refl
keys-index _ = refl

pub index-injective : (a b : SdlKey) → index a ≡ index b → a ≡ b
index-injective a b e =
    let same : some a ≡ some b = sym (keys-index a) ∙ ap (get_elem? keys) e ∙ keys-index b in cc

looked_up-listed :
    (codes : KeyCodes) (k : SdlKey) (ks : List SdlKey) (i : ℕ)
    → ((a b : SdlKey) → codes.sdlk a ≡ codes.sdlk b → a ≡ b)
    → get_elem? ks i ≡ some k
    → looked_up codes (codes.sdlk k) ks ≡ some (codes.xk (row_of k))
unfolding looked_up
looked_up-listed codes k [] i distinct there = cc
looked_up-listed codes k (k' ∷ ks) zero distinct there =
    let same : k' ≡ k = cc in
    let here = (==_iff (codes.sdlk k') (codes.sdlk k)).1 (ap (λ z. codes.sdlk z) same) in
    rw here (ap (λ z. some (codes.xk (row_of z))) same)
looked_up-listed codes k (k' ∷ ks) (suc i) distinct there =
    elim (Bool-cases (codes.sdlk k' == codes.sdlk k)) [
      | inl here ↦
          let same = distinct k' k ((==_iff (codes.sdlk k') (codes.sdlk k)).0 here) in
          rw here (ap (λ z. some (codes.xk (row_of z))) same)
      | inr off ↦ rw off (looked_up-listed codes k ks i distinct there)
    ]

looked_up-missing :
    (codes : KeyCodes) (n : ℕ) (ks : List SdlKey)
    → ((k : SdlKey) → codes.sdlk k ≢ n)
    → looked_up codes n ks ≡ none
unfolding looked_up
looked_up-missing codes n [] missing = refl
looked_up-missing codes n (k ∷ ks) missing = elim (Bool-cases (codes.sdlk k == n)) [
  | inl here ↦ absurd (missing k ((==_iff (codes.sdlk k) n).0 here))
  | inr off ↦ rw off (looked_up-missing codes n ks missing)
]

-- When SDL gives different keys different codes, every key of the table is mapped to the X11 symbol
-- of its row.
pub sdl_key_sym_to_x11-row_of :
    (codes : KeyCodes) (k : SdlKey)
    → ((a b : SdlKey) → codes.sdlk a ≡ codes.sdlk b → a ≡ b)
    → sdl_key_sym_to_x11 codes (codes.sdlk k) ≡ codes.xk (row_of k)
unfolding sdl_key_sym_to_x11 or_else
sdl_key_sym_to_x11-row_of codes k distinct =
    ap (λ o. or_else o (codes.sdlk k))
      (looked_up-listed codes k keys (index k) distinct (keys-index k))

-- A code that no key of the table has, such as that of a letter, is mapped to itself.
pub sdl_key_sym_to_x11-other :
    (codes : KeyCodes) (n : ℕ) → ((k : SdlKey) → codes.sdlk k ≢ n) → sdl_key_sym_to_x11 codes n ≡ n
unfolding sdl_key_sym_to_x11 or_else
sdl_key_sym_to_x11-other codes n missing =
    ap (λ o. or_else o n) (looked_up-missing codes n keys missing)
