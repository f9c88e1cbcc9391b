-- ===== src/Devicetree/Examples.antt =====
-- A small devicetree: a root with a gpio controller that is labelled, and a led that refers to it.
use zephyr_lang_rust.Prelude.{ℕ, ◌≡◌, refl, true, none, some, List, [], ◌∷◌, ◌++◌, map, drop}
use zephyr_lang_rust.Prelude.Outcome.{Outcome, ret, panic}
use zephyr_lang_rust.Devicetree.{
  Text, lookup, Word, Value, Property, Head, Node, node, no_nodes, push_node, DeviceTree,
}
use zephyr_lang_rust.Devicetree.Parse.{Rule, Pair, pair, no_pairs, and_pair}
use zephyr_lang_rust.Devicetree.Walk.{walk}
use zephyr_lang_rust.Devicetree.Walk.Names.{Named, walk-Named}
use zephyr_lang_rust.Devicetree.Resolve.{phandle_walk}
use zephyr_lang_rust.Devicetree.Resolve.Total.{InNode, Labelled, ResolvedNode, phandle_walk-total}
use zephyr_lang_rust.Devicetree.Query.{compatible_path}
use zephyr_lang_rust.Devicetree.Query.Paths.{Incompatible, compatible_path-Incompatible}
use zephyr_lang_rust.Devicetree.Tokens.{to_tokens, gpio_controller, gpio_cells}
use zephyr_lang_rust.Devicetree.Tokens.Words.{read, spell, spell-to_tokens}
use zephyr_lang_rust.Devicetree.Output.{output_path_walk}
use zephyr_lang_rust.Devicetree.Output.Routes.{by_route}
use zephyr_lang_rust.Devicetree.Output.Parsed.{walk-routes}

-- The names `g-0` and `led`, the label `gpio`, the property `gpios`, and `2` as a decimal number.
abbrev g_0 : Text
g_0 = 103 ∷ 45 ∷ 48 ∷ []

abbrev led : Text
led = 108 ∷ 101 ∷ 100 ∷ []

abbrev label_text : Text
label_text = 103 ∷ 112 ∷ 105 ∷ 111 ∷ []

abbrev gpios : Text
gpios = label_text ++ 115 ∷ []

abbrev controller_pair : Pair
controller_pair = pair Rule.node [] (
    and_pair (pair Rule.label label_text no_pairs)
      (and_pair (pair Rule.nodename g_0 no_pairs) no_pairs))

abbrev led_pair : Pair
led_pair = pair Rule.node [] (
    and_pair (pair Rule.nodename led no_pairs) (
      and_pair
        (pair Rule.property [] (
          and_pair (pair Rule.nodename gpios no_pairs) (
            and_pair
              (pair Rule.words [] (
                and_pair (pair Rule.phandle (38 ∷ label_text) no_pairs)
                  (and_pair (pair Rule.decimal_number (50 ∷ []) no_pairs) no_pairs)))
              no_pairs)))
        no_pairs))

abbrev root_pair : Pair
root_pair = pair Rule.node [] (and_pair controller_pair (and_pair led_pair no_pairs))

-- The paths `/`, `/g-0` and `/led`.
abbrev ords : List (Text × ℕ)
ords = (47 ∷ [], 0) ∷ (47 ∷ g_0, 5) ∷ (47 ∷ led, 6) ∷ []

abbrev parsed : Outcome DeviceTree → DeviceTree
parsed (ret dt) = dt
parsed panic = record {
  root =
      node
        (record { id = 0; name = []; path = []; route = []; ord = 0; labels = []; properties = [] })
        no_nodes;
  labels = [];
}

abbrev tree : DeviceTree
tree = parsed (walk ords root_pair)

walk-tree : walk ords root_pair ≡ ret tree
unfolding walk
walk-tree = refl

walk-Named_example : Named ords [] [] tree.root
walk-Named_example = walk-Named ords root_pair tree walk-tree

walk-routes_example : output_path_walk tree.root none ≡ by_route tree.root
walk-routes_example = walk-routes ords root_pair tree walk-tree

tree-Labelled : InNode (Labelled tree.labels) tree.root
unfolding walk InNode lookup push_node
tree-Labelled = (tt, ((tt, tt), (((((((0, refl), (tt, tt)), tt), tt), tt)), tt)))

phandle_walk-total_example :
    (n' : Node) × (phandle_walk tree.labels tree.root ≡ ret n')
    × ResolvedNode tree.labels tree.root n'
phandle_walk-total_example = phandle_walk-total tree.labels tree.root tree-Labelled

-- Node 0 is a gpio controller of two cells.
abbrev controller : ℕ → List Property
controller id =
    record { name = gpio_controller; value = [] }
    ∷ record { name = gpio_cells; value = Value.words (Word.number 2 ∷ []) ∷ [] }
    ∷ []

abbrev cells : List Word
cells =
    Word.phandle (record { name = label_text; node = some 0 })
    ∷ Word.number 3
    ∷ Word.number 1
    ∷ Word.number 9
    ∷ []

spell-to_tokens_example : spell (to_tokens controller 0 cells) ≡ map read (drop 0 cells)
spell-to_tokens_example = spell-to_tokens controller 0 cells

-- Two nodes with no property, one above the other.
abbrev bare : Head
bare = record { id = 0; name = []; path = []; route = []; ord = 0; labels = []; properties = [] }

bare-accepted : compatible_path bare (bare ∷ []) (some led ∷ []) ≡ true
unfolding compatible_path
bare-accepted = refl

compatible_path-Incompatible_example : Incompatible bare (bare ∷ []) (some led ∷ [])
compatible_path-Incompatible_example =
    compatible_path-Incompatible bare (bare ∷ []) (some led ∷ []) bare-accepted
