-- ===== src/Devicetree/Parse.antt =====
-- zephyr-build/src/devicetree/parse.rs: the parse tree of the DTS file, and the properties that are
-- decoded from it.  The parser is the `pest` crate's: its tree of pairs is an argument.
use zephyr_lang_rust.Prelude.{
  ℕ, ◌+◌, ◌-◌, ◌*◌, ◌^◌, ◌&&◌, Option, none, some, List, [], ◌∷◌, ◌++◌, length, take, drop, ltb,
  leb, if◌then◌else◌,
}
use zephyr_lang_rust.Prelude.Outcome.{Outcome, ret, panic, ◌>>=◌}
use zephyr_lang_rust.Devicetree.{Text, Phandle, Word, Value, Property}

-- `Rule`, which `pest` derives from dts.pest.
pub data Rule : Type 0 where
  node property words bytes decimal_number hex_number plain_hex_number string phandle label
        nodename :
      Rule

mutual
  pub data Pair : Type 0 where
    pair : Rule → Text → Pairs → Pair

  pub data Pairs : Type 0 where
    no_pairs : Pairs
    and_pair : Pair → Pairs → Pairs

abbrev pub as_rule : Pair → Rule
as_rule (pair r t ps) = r

abbrev pub as_str : Pair → Text
as_str (pair r t ps) = t

abbrev pub into_inner : Pair → Pairs
into_inner (pair r t ps) = ps

-- A digit in the radix 10 or 16.
unfoldable pub digit : ℕ → Option ℕ
digit c =
    if leb 48 c && leb c 57
    then some (c - 48)
    else if leb 97 c && leb c 102
    then some (c - 87)
    else if leb 65 c && leb c 70
    then some (c - 55)
    else none

-- The digits in turn, while the number is below the bound.
unfoldable pub digits : ℕ → ℕ → ℕ → Text → Option ℕ
unfolding digit
digits radix bound n [] = some n
digits radix bound n (c ∷ t) = elim (digit c) [
  | none ↦ none
  | some d ↦
      let rest = digits radix bound (n * radix + d) t in
      if ltb d radix && ltb (n * radix + d) bound then rest else none
]

-- `from_str_radix(…).unwrap()`, for the digits that the grammar lets through
unfoldable pub from_str_radix : ℕ → ℕ → Text → Outcome ℕ
unfolding digits
from_str_radix radix bound [] = panic
from_str_radix radix bound (c ∷ t) = elim (digits radix bound 0 (c ∷ t)) [
  | none ↦ panic
  | some n ↦ ret n
]

-- `Phandle::new(text[1..].to_string())`
abbrev pub new_phandle : Text → Phandle
new_phandle text = record { name = drop 1 text; node = none }

unfoldable pub decode_word : Pair → Outcome Word
unfolding from_str_radix
decode_word (pair hex_number text ps) =
    from_str_radix 16 (2 ^ 32) (drop 2 text) >>= λ n. ret (Word.number n)
decode_word (pair decimal_number text ps) =
    from_str_radix 10 (2 ^ 32) text >>= λ n. ret (Word.number n)
decode_word (pair phandle text ps) = ret (Word.phandle (new_phandle text))
decode_word (pair r text ps) = panic

unfoldable pub decode_words : Pairs → Outcome (List Word)
unfolding decode_word
decode_words no_pairs = ret []
decode_words (and_pair p ps) = decode_word p >>= λ w. decode_words ps >>= λ ws. ret (w ∷ ws)

unfoldable pub decode_byte : Pair → Outcome ℕ
unfolding from_str_radix
decode_byte (pair plain_hex_number text ps) = from_str_radix 16 (2 ^ 8) text
decode_byte (pair r text ps) = panic

unfoldable pub decode_bytes : Pairs → Outcome (List ℕ)
unfolding decode_byte
decode_bytes no_pairs = ret []
decode_bytes (and_pair p ps) = decode_byte p >>= λ b. decode_bytes ps >>= λ bs. ret (b ∷ bs)

-- One pair of a property: its name, or one more value.
unfoldable pub decode_entry : Option Text × List Value → Pair → Outcome (Option Text × List Value)
unfolding decode_words decode_bytes
decode_entry (name, value) (pair nodename text ps) = ret (some text, value)
decode_entry (name, value) (pair words text ps) =
    decode_words ps >>= λ ws. ret (name, value ++ Value.words ws ∷ [])
decode_entry (name, value) (pair phandle text ps) =
    ret (name, value ++ Value.phandle (new_phandle text) ∷ [])
decode_entry (name, value) (pair string text ps) =
    ret (name, value ++ Value.string (take (length text - 2) (drop 1 text)) ∷ [])
decode_entry (name, value) (pair bytes text ps) =
    decode_bytes ps >>= λ bs. ret (name, value ++ Value.bytes bs ∷ [])
decode_entry (name, value) (pair r text ps) = panic

unfoldable pub decode_entries :
    Option Text × List Value → Pairs → Outcome (Option Text × List Value)
unfolding decode_entry
decode_entries acc no_pairs = ret acc
decode_entries acc (and_pair p ps) = decode_entry acc p >>= λ acc'. decode_entries acc' ps

unfoldable pub decode_property : Pair → Outcome Property
unfolding decode_entries
decode_property p = decode_entries (none, []) (into_inner p) >>= λ (name, value). elim name [
  | none ↦ panic
  | some n ↦ ret (record { name = n; value = value })
]
