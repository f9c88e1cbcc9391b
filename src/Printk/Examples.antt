-- ===== src/Printk/Examples.antt =====
-- A text of two pieces, with a character of two bytes.
use zephyr_lang_rust.Prelude.{ℕ, ◌≡◌, refl, arith, List, [], ◌∷◌, ◌++◌, map, concat}
use zephyr_lang_rust.Prelude.Outcome.{ret}
use zephyr_lang_rust.Printk.{utf8_byte_length, printk, printkln}
use zephyr_lang_rust.Printk.Packed.{All, all_nil, all_cons}
use zephyr_lang_rust.Printk.Whole.{Fits, Utf8, one_byte, two_bytes, printk-whole}

-- `é`, and `A`
abbrev e_acute : List ℕ
e_acute = 195 ∷ 169 ∷ []

abbrev letter : List ℕ
letter = 65 ∷ []

abbrev pieces : List (List (List ℕ))
pieces = (letter ∷ e_acute ∷ []) ∷ (letter ∷ []) ∷ []

letter-Utf8 : Utf8 letter
letter-Utf8 = one_byte (omega arith)

e_acute-Utf8 : Utf8 e_acute
e_acute-Utf8 = two_bytes (omega arith) (omega arith) (omega arith, omega arith)

pieces-Utf8 : All Utf8 (concat pieces)
pieces-Utf8 = all_cons letter-Utf8 (all_cons e_acute-Utf8 (all_cons letter-Utf8 all_nil))

printk-whole_example :
    (groups : List (List (List ℕ))) × (printk [] (map concat pieces)
      ≡ ret ([] ++ map concat groups))
    × (concat groups ≡ concat pieces)
    × All Fits groups
printk-whole_example = printk-whole [] pieces pieces-Utf8

-- The four bytes and the newline go out in one call.
printkln_test : printkln [] (map concat pieces) ≡ ret ((65 ∷ 195 ∷ 169 ∷ 65 ∷ 10 ∷ []) ∷ [])
unfolding printkln utf8_byte_length
printkln_test = refl
