-- ===== src/Devicetree/Tokens/Words.antt =====
-- The tokens say what the words say.
use zephyr_lang_rust.Prelude.{
  ℕ, zero, suc, ◌≡◌, inl, inr, refl, ap, some, List, [], ◌∷◌, ◌++◌, map, drop, Option-cases, arith,
}
use zephyr_lang_rust.Devicetree.{Text, Word, Property}
use zephyr_lang_rust.Devicetree.Tokens.{Token, gpio, cells_of, lookahead, to_tokens}

-- A word without what its phandle was resolved to.
pub data Cell : Type 0 where
  cell : ℕ → Cell
  reference : Text → Cell

abbrev pub read : Word → Cell
read (Word.number n) = cell n
read (Word.phandle ph) = reference ph.name

-- The words that a token stands for.
abbrev pub stands_for : Token → List Cell
stands_for (Token.number n) = cell n ∷ []
stands_for (gpio name args) = reference name ∷ map cell args
stands_for (Token.phandle name) = reference name ∷ []

abbrev pub spell : List Token → List Cell
spell [] = []
spell (t ∷ ts) = stands_for t ++ spell ts

-- What is looked ahead at is what is then skipped.
lookahead_lem :
    (cells : ℕ) (ws : List Word) (args : List ℕ)
    → lookahead cells ws ≡ some args
    → map read ws ≡ map cell args ++ map read (drop cells ws)
unfolding lookahead
lookahead_lem zero ws args e = ground arith
lookahead_lem (suc cells) [] args e = absurd (cc)
lookahead_lem (suc cells) (Word.phandle ph ∷ ws) args e = absurd (cc)
lookahead_lem (suc cells) (Word.number n ∷ ws) args e = elim (Option-cases (lookahead cells ws)) [
  | inl nothing ↦ absurd (ground arith)
  | inr (l, h) ↦
      let same : args ≡ n ∷ l = ground arith in
      rw same (ap (λ z. cell n ∷ z) (lookahead_lem cells ws l h))
]

module _ (properties : ℕ → List Property) where
  -- Written out, the tokens of a property are its words in order: joining a reference with its cells
  -- neither loses nor repeats a cell.
  pub spell-to_tokens :
      (k : ℕ) (ws : List Word) → spell (to_tokens properties k ws) ≡ map read (drop k ws)
  unfolding to_tokens
  spell-to_tokens zero [] = refl
  spell-to_tokens (suc k) [] = refl
  spell-to_tokens (suc k) (w ∷ ws) = spell-to_tokens k ws
  spell-to_tokens zero (Word.number n ∷ ws) = ap (λ z. cell n ∷ z) (spell-to_tokens 0 ws)
  spell-to_tokens zero (Word.phandle ph ∷ ws) =
      let alone = ap (λ z. reference ph.name ∷ z) (spell-to_tokens 0 ws) in
      elim (Option-cases (cells_of properties ph)) [
        | inl none_of ↦ rw (spell, none_of) alone
        | inr (cells, e) ↦ elim (Option-cases (lookahead cells ws)) [
          | inl short ↦ rw (spell, e, short) alone
          | inr (args, l) ↦
              rw (spell, e, l, lookahead_lem cells ws args l)
                (ap (λ z. reference ph.name ∷ map cell args ++ z) (spell-to_tokens cells ws))
        ]
      ]
