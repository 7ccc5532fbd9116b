-- ===== src/Tests/Messages.antt =====
-- Messages, headers, buttons and keys at concrete inputs.
use screen_viewer.Prelude.{
  ℕ, refl, ◌+◌, ◌≡◌, ◌≤◌, arith, some, true, false, [], ◌∷◌, le_value, take, ◌↔◌,
}
use screen_viewer.Message.{MessageHeader, nack, ok, type_code, deserialize}
use screen_viewer.Message.Header.{deserialize-ok_iff}
use screen_viewer.Mouse.{convert_to_mask, set_clicked}
use screen_viewer.Mouse.Buttons.{Reads, convert_to_mask-Reads}
use screen_viewer.KeysMapping.{sdlk_up, XKey, KeyCodes}
use screen_viewer.KeysMapping.Injective.{
  key_of, key_of-injective, listed, sdl_key_sym_to_x11-injective,
}
use screen_viewer.KeysMapping.Lookup.{index, index-injective}

abbrev short_header : MessageHeader
short_header = record { message_size = 300; type = nack }

deserialize-ok_iff_example :
    (deserialize (44 ∷ 1 ∷ 0 ∷ 0 ∷ 0 ∷ 0 ∷ 0 ∷ 0 ∷ 8 ∷ []) 9 1000 ≡ ok short_header) ↔ (
      (9 ≤ 9)
      × (300 ≤ 1000)
      × (300 ≡ le_value (take 8 (44 ∷ 1 ∷ 0 ∷ 0 ∷ 0 ∷ 0 ∷ 0 ∷ 0 ∷ 8 ∷ [])))
      × (type_code nack ≡ 8))
deserialize-ok_iff_example =
    deserialize-ok_iff (44 ∷ 1 ∷ 0 ∷ 0 ∷ 0 ∷ 0 ∷ 0 ∷ 0 ∷ 8 ∷ []) 9 1000 short_header

convert_to_mask-Reads_example :
    (mask : ℕ) × (convert_to_mask 4 ≡ some mask)
    × Reads 4 false mask
    × Reads 4 true (set_clicked mask)
convert_to_mask-Reads_example = convert_to_mask-Reads 4 (omega arith) (omega arith)

abbrev numbered_codes : KeyCodes
numbered_codes = record { sdlk = index; xk = λ x. index (key_of x) + 65000 }

symbols_differ : (x y : XKey) → index (key_of x) + 65000 ≡ index (key_of y) + 65000 → x ≡ y
symbols_differ x y e =
    key_of-injective x y (index-injective (key_of x) (key_of y) (omega (arith, e)))

sdl_key_sym_to_x11-injective_example : index sdlk_up ≡ index sdlk_up
sdl_key_sym_to_x11-injective_example =
    sdl_key_sym_to_x11-injective numbered_codes (index sdlk_up) (index sdlk_up) index-injective
      symbols_differ (listed sdlk_up) (listed sdlk_up) refl
