-- ===== src/Devicetree/Query/Numbers.antt =====
-- The ways to read a number.
use zephyr_lang_rust.Prelude.{ℕ, ◌≡◌, ◌≢◌, inl, inr, ◌↔◌, Option-cases, some, List, [], ◌∷◌, arith}
use zephyr_lang_rust.Devicetree.{Text, Word, Property}
use zephyr_lang_rust.Devicetree.Query.{
  get_words, get_number, get_numbers, all_numbers, single_number,
}

more_numbers : (w : Word) (ws : List Word) → all_numbers (w ∷ ws) ≢ some []
unfolding all_numbers
more_numbers (Word.phandle ph) ws e = cc
more_numbers (Word.number n) ws e = elim (Option-cases (all_numbers ws)) [
  | inl nothing ↦ ground arith
  | inr (l, h) ↦ ground arith
]

one_number :
    (ws : List Word) (n : ℕ) → (single_number ws ≡ some n) ↔ (all_numbers ws ≡ some (n ∷ []))
unfolding all_numbers
one_number [] n = ground arith
one_number (Word.number m ∷ []) n = ground arith
one_number (Word.phandle ph ∷ ws) n = ground arith
one_number (Word.number m ∷ w ∷ ws) n = ground (arith, more_numbers w ws)

-- A property is read as the single number `n` just if it is read as the list of numbers `n`.
pub get_number-get_numbers :
    (ps : List Property) (name : Text) (n : ℕ)
    → (get_number ps name ≡ some n) ↔ (get_numbers ps name ≡ some (n ∷ []))
unfolding get_number get_numbers
get_number-get_numbers ps name n = elim (Option-cases (get_words ps name)) [
  | inl nothing ↦ rw nothing (ground arith)
  | inr (ws, h) ↦ rw h (one_number ws n)
]
