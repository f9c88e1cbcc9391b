-- ===== src/Devicetree/Resolve.antt =====
-- zephyr-build/src/devicetree.rs: the references of the tree are resolved, and the parents are set.
use zephyr_lang_rust.Prelude.{
  ℕ, Bool, true, false, Option, none, some, List, [], ◌∷◌, ◌==◌, if◌then◌else◌,
}
use zephyr_lang_rust.Prelude.Outcome.{Outcome, ret, panic, ◌>>=◌, each}
use zephyr_lang_rust.Devicetree.{
  Text, lookup, Phandle, Word, Value, Property, Head, Node, node, Nodes, no_nodes, and_node, head,
  DeviceTree,
}
use zephyr_lang_rust.Devicetree.Parse.{Pair}
use zephyr_lang_rust.Devicetree.Walk.{walk}
pub mod Total

module _ (labels : List (Text × ℕ)) where
  unfoldable pub phandle_resolve : Phandle → Outcome Phandle
  unfolding lookup
  phandle_resolve ph = elim ph.node [
    | some id ↦ ret ph
    | none ↦ elim (lookup ph.name labels) [
      | none ↦ panic
      | some id ↦ ret (record { name = ph.name; node = some id })
    ]
  ]

  unfoldable pub word_walk : Word → Outcome Word
  unfolding phandle_resolve
  word_walk (Word.number n) = ret (Word.number n)
  word_walk (Word.phandle ph) = phandle_resolve ph >>= λ ph'. ret (Word.phandle ph')

  unfoldable pub value_walk : Value → Outcome Value
  unfolding word_walk phandle_resolve
  value_walk (Value.phandle ph) = phandle_resolve ph >>= λ ph'. ret (Value.phandle ph')
  value_walk (Value.words ws) = each word_walk ws >>= λ ws'. ret (Value.words ws')
  value_walk (Value.bytes bs) = ret (Value.bytes bs)
  value_walk (Value.string text) = ret (Value.string text)

  unfoldable pub property_walk : Property → Outcome Property
  unfolding value_walk
  property_walk p = each value_walk p.value >>= λ vs. ret (record { name = p.name; value = vs })

  -- `phandle_walk`
  unfoldable mutual
    unfolding property_walk

    pub phandle_walk : Node → Outcome Node
    phandle_walk (node h cs) = each property_walk h.properties >>= λ ps.
        phandle_walk_all cs >>= λ cs'. ret (node (record h { properties = ps }) cs')

    pub phandle_walk_all : Nodes → Outcome Nodes
    phandle_walk_all no_nodes = ret no_nodes
    phandle_walk_all (and_node n ns) =
        phandle_walk n >>= λ n'. phandle_walk_all ns >>= λ ns'. ret (and_node n' ns')

-- `parent_walk`: the parent cell of each node, by its number.
unfoldable mutual
  pub parent_walk : Node → (ℕ → Option ℕ) → ℕ → Option ℕ
  parent_walk (node h cs) parent = parent_walk_all h.id cs parent

  pub parent_walk_all : ℕ → Nodes → (ℕ → Option ℕ) → ℕ → Option ℕ
  parent_walk_all id no_nodes parent = parent
  parent_walk_all id (and_node c cs) parent =
      parent_walk_all id cs (parent_walk c (λ n. if n == (head c).id then some id else parent n))

-- `DeviceTree::new`, given what the two files hold: the tree, and the parents.
unfoldable pub new : List (Text × ℕ) → Pair → Outcome (DeviceTree × (ℕ → Option ℕ))
unfolding phandle_walk parent_walk walk
new ords dts = walk ords dts >>= λ dt. phandle_walk dt.labels dt.root >>= λ root.
    ret (record { root = root; labels = dt.labels }, parent_walk root (λ n. none))
