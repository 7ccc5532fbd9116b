-- ===== src/SessionsManager/Ids.antt =====
-- The random ids.
use screen_viewer.Prelude.{
  ℕ, zero, suc, ◌+◌, ◌<◌, ◌≡◌, refl, ◌∙◌, arith, List, [], ◌∷◌, ◌++◌, some, Bytes, length, get_or,
  get_elem?, length-append, All, All-append,
}
use screen_viewer.SessionsManager.{chrs, generate_from, generate_session_id, session_id_length}

-- A character of the alphabet, and not the terminator behind it.
abbrev pub IsChr : ℕ → Type 0
IsChr c = (i : ℕ) × (get_elem? chrs i ≡ some c)

length-generate_from :
    (pick : ℕ → ℕ) (left : ℕ) (acc : Bytes)
    → length (generate_from pick left acc) ≡ length acc + left
unfolding generate_from
length-generate_from pick zero acc = omega arith
length-generate_from pick (suc left) acc =
    let c = get_or (chrs ++ 0 ∷ []) (pick (length acc)) 0 in
    omega (arith, length-generate_from pick left (acc ++ c ∷ []), length-append acc (c ∷ []))

get-append :
    {A : Type 0} (xs ys : List A) (d : A) (i : ℕ)
    → i < length xs
    → get_elem? xs i ≡ some (get_or (xs ++ ys) i d)
get-append [] ys d i h = absurd (omega arith)
get-append (x ∷ xs) ys d zero h = refl
get-append (x ∷ xs) ys d (suc i) h = get-append xs ys d i (omega arith)

generate_from-IsChr :
    (pick : ℕ → ℕ)
    → ((i : ℕ) → pick i < length chrs)
    → (left : ℕ) (acc : Bytes) → All IsChr acc
    → All IsChr (generate_from pick left acc)
unfolding generate_from
generate_from-IsChr pick h zero acc a = a
generate_from-IsChr pick h (suc left) acc a = generate_from-IsChr pick h left _ (
    All-append IsChr acc _ a
      ((pick (length acc), get-append chrs (0 ∷ []) 0 (pick (length acc)) (h (length acc))), tt))

-- For draws below the alphabet's length, as the distribution makes them, an id has ten characters,
-- all of the alphabet.
pub generate_session_id_lem :
    (pick : ℕ → ℕ)
    → ((i : ℕ) → pick i < length chrs)
    → (length (generate_session_id pick) ≡ session_id_length) × All IsChr (generate_session_id pick)
unfolding generate_session_id
generate_session_id_lem pick h = (
  length-generate_from pick session_id_length [] ∙ omega arith,
  generate_from-IsChr pick h session_id_length [] tt,
)
