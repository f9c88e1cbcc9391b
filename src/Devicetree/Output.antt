-- ===== src/Devicetree/Output.antt =====
-- zephyr-build/src/devicetree/output.rs: the names under which the nodes are known to Rust.  The lines
-- are written for Cargo; what the tokens are to Rust is of the `quote` crate.
use zephyr_lang_rust.Prelude.{
  ℕ, ◌+◌, ◌≡◌, Bool, true, false, Option, none, some, List, [], ◌∷◌, ◌++◌, map, ◌==◌, if◌then◌else◌,
}
use zephyr_lang_rust.Prelude.Outcome.{Outcome, ret, panic}
use zephyr_lang_rust.Devicetree.{
  Text, Word, Value, Property, Head, Node, node, Nodes, no_nodes, and_node,
}
pub mod Routes
pub mod Parsed

-- `fix_id`: `#` is 35, `-` 45, `@` 64, `,` 44, `N` 78 and `_` 95.
unfoldable pub fix_char : ℕ → ℕ
fix_char ch =
    if ch == 35
    then 78
    else if ch == 45
    then 95
    else if ch == 64
    then 95
    else if ch == 44
    then 95
    else ch

unfoldable pub fix_id : Text → Text
unfolding fix_char
fix_id [] = []
fix_id (ch ∷ text) = fix_char ch ∷ fix_id text

-- `get_single_value`
unfoldable pub get_single_value : Property → Option Value
get_single_value p = elim p.value [ [] ↦ none | v ∷ vs ↦ elim vs [ [] ↦ some v | w ∷ ws ↦ none ] ]

abbrev pub is_phandle : Option Value → Bool
is_phandle (some (Value.phandle ph)) = true
is_phandle _ = false

-- `::`, the separator of a path
abbrev pub colons : Text
colons = 58 ∷ 58 ∷ []

-- `output_path`: the name of each line that is written
unfoldable pub output_path : Text → Property → List Text
unfolding get_single_value fix_id
output_path name p =
    if is_phandle (get_single_value p) then (name ++ colons ++ fix_id p.name) ∷ [] else []

unfoldable pub output_paths : Text → List Property → List Text
unfolding output_path
output_paths name [] = []
output_paths name (p ∷ ps) = output_path name p ++ output_paths name ps

-- The name of a child, below a node of that name, or below the root.
unfoldable pub child_name : Option Text → Text → Text
unfolding fix_id
child_name none name = fix_id name
child_name (some up) name = up ++ colons ++ fix_id name

unfoldable mutual
  unfolding output_paths child_name

  -- `output_path_walk`, below a node
  pub output_path_walk : Node → Option Text → List Text
  output_path_walk (node h cs) name = output_path_walk_all cs name

  -- Its loop over the children.
  pub output_path_walk_all : Nodes → Option Text → List Text
  output_path_walk_all no_nodes name = []
  output_path_walk_all (and_node (node h ds) cs) name =
      child_name name h.name ∷ output_paths (child_name name h.name) h.properties
      ++ output_path_walk_all ds (some (child_name name h.name))
      ++ output_path_walk_all cs name

-- `dt=labels`
abbrev pub labels_tag : Text
labels_tag = 108 ∷ 97 ∷ 98 ∷ 101 ∷ 108 ∷ 115 ∷ []

unfoldable pub output_labels : List Text → List Text
unfolding fix_id
output_labels [] = []
output_labels (l ∷ ls) = (labels_tag ++ colons ++ fix_id l) ∷ output_labels ls

-- `output_node_paths`: what follows `dt=` on each line, given the labels in their order
unfoldable pub output_node_paths : Node → List Text → List Text
unfolding output_path_walk output_labels
output_node_paths root labels = output_path_walk root none ++ labels_tag ∷ output_labels labels

-- `route_to_rust`, after `crate::devicetree`
unfoldable pub route_to_rust : List Text → List Text
unfolding fix_id
route_to_rust [] = []
route_to_rust (p ∷ route) = fix_id p ∷ route_to_rust route

-- What a property becomes: a number, the node of a reference, or its text for debugging.
pub data Item : Type 0 where
  constant : Text → ℕ → Item
  alias : Text → List Text → Item
  debug : Text → Item

-- Upper case, and the route of the node of each number.
module _ (to_uppercase : Text → Text) (route : ℕ → List Text) where
  abbrev pub dt_to_upper_id : Text → Text
  unfolding fix_id
  dt_to_upper_id text = fix_id (to_uppercase text)

  -- `general_property`; `_DEBUG` follows the name
  abbrev pub general_property : Property → Item
  general_property p = debug (dt_to_upper_id (p.name ++ 95 ∷ 68 ∷ 69 ∷ 66 ∷ 85 ∷ 71 ∷ []))

  unfoldable pub word_item : Property → List Word → Item
  word_item p (Word.number n ∷ []) = constant (dt_to_upper_id p.name) n
  word_item p ws = general_property p

  -- `property_walk`, which panics on a reference without a target
  unfoldable pub property_walk : Property → Outcome Item
  unfolding get_single_value word_item fix_id route_to_rust
  property_walk p = elim (get_single_value p) [
    | none ↦ ret (general_property p)
    | some v ↦ elim v [
      | Value.words ws ↦ ret (word_item p ws)
      | Value.phandle ph ↦ elim ph.node [
        | none ↦ panic
        | some target ↦ ret (alias (fix_id p.name) (route_to_rust (route target)))
      ]
      | Value.bytes bs ↦ ret (general_property p)
      | Value.string text ↦ ret (general_property p)
    ]
  ]
