-- ===== src/Devicetree/Query.antt =====
-- zephyr-build/src/devicetree.rs: what a node is asked.
use zephyr_lang_rust.Prelude.{
  ℕ, suc, ◌≡◌, Bool, true, false, not, ◌||◌, Option, none, some, List, [], ◌∷◌, ◌==◌, any,
  if◌then◌else◌,
}
use zephyr_lang_rust.Prelude.Outcome.{Outcome, ret, panic}
use zephyr_lang_rust.Devicetree.{
  Text, eq_text, Word, Value, Property, Head, Node, Nodes, no_nodes, and_node, head, children,
}
pub mod Paths
pub mod Numbers

abbrev pub is_string : Text → Value → Bool
is_string name (Value.string vn) = eq_text name vn
is_string name _ = false

-- `[99, …]` is `compatible`, a text of letters.
abbrev pub compatible : Text
compatible = 99 ∷ 111 ∷ 109 ∷ 112 ∷ 97 ∷ 116 ∷ 105 ∷ 98 ∷ 108 ∷ 101 ∷ []

unfoldable pub is_compatible : List Property → Text → Bool
unfolding eq_text
is_compatible [] name = false
is_compatible (p ∷ ps) name =
    (if eq_text p.name compatible then any (is_string name) p.value else false)
    || is_compatible ps name

-- `matches!(first, Some(name) if !self.is_compatible(name))`
unfoldable pub named_and_not : Head → Option Text → Bool
unfolding is_compatible
named_and_not h none = false
named_and_not h (some name) = not (is_compatible h.properties name)

-- A node, the nodes above it, and the names for them, from this node up.
unfoldable pub compatible_path : Head → List Head → List (Option Text) → Bool
unfolding named_and_not
compatible_path h up [] = true
compatible_path h [] (first ∷ path) = if not (named_and_not h first) then false else false
compatible_path h (parent ∷ up) (first ∷ path) =
    let rest = compatible_path parent up path in if not (named_and_not h first) then false else rest

unfoldable pub has_prop : List Property → Text → Bool
unfolding eq_text
has_prop ps name = any (λ p. eq_text p.name name) ps

unfoldable pub get_property : List Property → Text → Option (List Value)
unfolding eq_text
get_property [] name = none
get_property (p ∷ ps) name =
    let rest = get_property ps name in if eq_text p.name name then some p.value else rest

-- One value, of words.
abbrev pub single_words : List Value → Option (List Word)
single_words (Value.words w ∷ []) = some w
single_words _ = none

abbrev pub and_then {ℓ κ} : {A : Type ℓ} {B : Type κ} → Option A → (A → Option B) → Option B
and_then none f = none
and_then (some a) f = f a

unfoldable pub get_words : List Property → Text → Option (List Word)
unfolding get_property
get_words ps name = and_then (get_property ps name) single_words

abbrev pub single_number : List Word → Option ℕ
single_number (Word.number n ∷ []) = some n
single_number _ = none

unfoldable pub get_number : List Property → Text → Option ℕ
unfolding get_words
get_number ps name = and_then (get_words ps name) single_number

unfoldable pub all_numbers : List Word → Option (List ℕ)
all_numbers [] = some []
all_numbers (Word.number n ∷ ws) = and_then (all_numbers ws) (λ ns. some (n ∷ ns))
all_numbers (w ∷ ws) = none

unfoldable pub get_numbers : List Property → Text → Option (List ℕ)
unfolding get_words all_numbers
get_numbers ps name = and_then (get_words ps name) all_numbers

abbrev pub single_text : List Value → Option Text
single_text (Value.string text ∷ []) = some text
single_text _ = none

unfoldable pub get_single_string : List Property → Text → Option Text
unfolding get_property
get_single_string ps name = and_then (get_property ps name) single_text

-- Where the node of that number stands among the children.
unfoldable pub position : ℕ → Nodes → Option ℕ
position id no_nodes = none
position id (and_node n ns) =
    let rest = and_then (position id ns) (λ i. some (suc i)) in
    if (head n).id == id then some 0 else rest

-- `child_index`, given the node's parent
unfoldable pub child_index : Option Node → ℕ → Outcome ℕ
unfolding position
child_index none id = panic
child_index (some parent) id = elim (position id (children parent)) [
  | none ↦ panic
  | some i ↦ ret i
]
