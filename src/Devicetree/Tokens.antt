-- ===== src/Devicetree/Tokens.antt =====
-- zephyr-build/src/devicetree.rs: `to_tokens` of the words of a property, where a reference to a gpio
-- controller is joined with its cells.  What the tokens are to Rust is of the `quote` crate.
use zephyr_lang_rust.Prelude.{
  ℕ, zero, suc, ◌≡◌, Bool, true, false, ◌&&◌, Option, none, some, List, [], ◌∷◌, ◌++◌, map,
  if◌then◌else◌,
}
use zephyr_lang_rust.Devicetree.{Text, Phandle, Word, Property}
use zephyr_lang_rust.Devicetree.Query.{has_prop, get_number, and_then}
pub mod Words

pub data Token : Type 0 where
  number : ℕ → Token
  gpio : Text → List ℕ → Token
  phandle : Text → Token

-- `gpio-controller` and `#gpio-cells`
abbrev pub gpio_controller : Text
gpio_controller =
    103 ∷ 112 ∷ 105 ∷ 111 ∷ 45 ∷ 99 ∷ 111 ∷ 110 ∷ 116 ∷ 114 ∷ 111 ∷ 108 ∷ 108 ∷ 101 ∷ 114 ∷ []

abbrev pub gpio_cells : Text
gpio_cells = 35 ∷ 103 ∷ 112 ∷ 105 ∷ 111 ∷ 45 ∷ 99 ∷ 101 ∷ 108 ∷ 108 ∷ 115 ∷ []

-- The `lookahead`: that many numbers.
unfoldable pub lookahead : ℕ → List Word → Option (List ℕ)
lookahead zero ws = some []
lookahead (suc cells) (Word.number n ∷ ws) = and_then (lookahead cells ws) (λ args. some (n ∷ args))
lookahead (suc cells) ws = none

-- The properties of the node of each number.
module _ (properties : ℕ → List Property) where
  -- How many cells follow a phandle, if its target is a gpio controller that says so.
  unfoldable pub cells_of : Phandle → Option ℕ
  unfolding has_prop get_number
  cells_of ph = and_then ph.node (λ target.
      if has_prop (properties target) gpio_controller
      then get_number (properties target) gpio_cells
      else none)

  -- The tokens of a list of words, after so many are skipped.
  unfoldable pub to_tokens : ℕ → List Word → List Token
  unfolding cells_of lookahead
  to_tokens skip [] = []
  to_tokens (suc skip) (w ∷ ws) = to_tokens skip ws
  to_tokens zero (Word.number n ∷ ws) = number n ∷ to_tokens 0 ws
  to_tokens zero (Word.phandle ph ∷ ws) = elim (cells_of ph) [
    | none ↦ phandle ph.name ∷ to_tokens 0 ws
    | some cells ↦ elim (lookahead cells ws) [
      | none ↦ phandle ph.name ∷ to_tokens 0 ws
      | some args ↦ gpio ph.name args ∷ to_tokens cells ws
    ]
  ]
