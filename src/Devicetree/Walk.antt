-- ===== src/Devicetree/Walk.antt =====
-- zephyr-build/src/devicetree/parse.rs: the nodes with their names, paths and numbers, built from the
-- parse tree.
use zephyr_lang_rust.Prelude.{
  ℕ, suc, ◌+◌, Bool, true, false, Option, none, some, List, [], ◌∷◌, ◌++◌, length, ltb,
  if◌then◌else◌,
}
use zephyr_lang_rust.Prelude.Outcome.{Outcome, ret, panic, ◌>>=◌}
use zephyr_lang_rust.Devicetree.{
  Text, lookup, Property, Head, Node, node, Nodes, no_nodes, and_node, push_node, DeviceTree,
}
use zephyr_lang_rust.Devicetree.Parse.{
  Rule, Pair, pair, Pairs, no_pairs, and_pair, as_rule, as_str, into_inner, decode_property,
}
pub mod Names

-- `struct Info`
pub record Info : Type 0 where
  pub name : Text
  pub path : Text
  pub ord : ℕ

-- `struct LazyName`
pub record LazyName : Type 0 where
  pub path : Text
  pub route : List Text
  pub info : Option Info

-- `/`
abbrev pub slash : ℕ
slash = 47

-- The `match` of `walk_node` on the rule of a pair: a name, a label, a property or a node.
abbrev pub by_rule {ℓ} :
    {A : Type ℓ} → Rule → Outcome A → Outcome A → Outcome A → Outcome A → Outcome A
by_rule Rule.nodename a b c d = a
by_rule Rule.label a b c d = b
by_rule Rule.property a b c d = c
by_rule Rule.node a b c d = d
by_rule _ a b c d = panic

module _ (ords : List (Text × ℕ)) where
  -- `ords.0[path]`, which panics on a missing path
  unfoldable pub ord_of : Text → Outcome ℕ
  unfolding lookup
  ord_of path = elim (lookup path ords) [ none ↦ panic | some n ↦ ret n ]

  unfoldable pub new_name : Text → List Text → Outcome LazyName
  unfolding ord_of
  new_name [] route = ord_of (slash ∷ []) >>= λ ord. ret (record {
    path = [];
    route = route;
    info = some (record { name = slash ∷ []; path = slash ∷ []; ord = ord });
  })
  new_name (c ∷ path) route = ret (record { path = c ∷ path; route = route; info = none })

  -- The path of a child of that name.
  abbrev pub child_path : Text → Text → Text
  child_path path name = (if ltb 1 (length path) then path ++ slash ∷ [] else path) ++ name

  unfoldable pub set_name : LazyName → Text → Outcome LazyName
  unfolding ord_of
  set_name l name = elim l.info [
    | some i ↦ panic
    | none ↦ ord_of (child_path l.path name) >>= λ ord. ret (record {
      path = l.path;
      route = l.route ++ name ∷ [];
      info = some (record { name = name; path = child_path l.path name; ord = ord });
    })
  ]

  -- `path_ref`
  unfoldable pub path_ref : LazyName → Outcome Text
  path_ref l = elim l.info [ none ↦ panic | some i ↦ ret i.path ]

  -- `struct TreeBuilder`, and the number of the next node.
  pub record TreeBuilder : Type 0 where
    pub labels : List (Text × ℕ)
    pub next : ℕ

  -- What `walk_node` has gathered of a node.
  pub record Gathered : Type 0 where
    pub name : LazyName
    pub labels : List Text
    pub properties : List Property
    pub children : Nodes

  unfoldable pub insert_labels : List (Text × ℕ) → List Text → ℕ → List (Text × ℕ)
  insert_labels m [] id = m
  insert_labels m (lab ∷ labs) id = insert_labels ((lab, id) ∷ m) labs id

  -- `into_node`, `Rc::new`, and the labels
  unfoldable pub build_node : TreeBuilder → Gathered → Outcome (TreeBuilder × Node)
  unfolding insert_labels
  build_node b g = elim g.name.info [
    | none ↦ panic
    | some i ↦ ret (
      record { labels = insert_labels b.labels g.labels b.next; next = suc b.next },
      node
          (record {
            id = b.next;
            name = i.name;
            path = i.path;
            route = g.name.route;
            ord = i.ord;
            labels = g.labels;
            properties = g.properties;
          })
          g.children,
    )
  ]

  abbrev pub add_label : Gathered → Text → Gathered
  add_label g lab = record g { labels = g.labels ++ lab ∷ [] }

  abbrev pub add_property : Gathered → Property → Gathered
  add_property g p = record g { properties = g.properties ++ p ∷ [] }

  abbrev pub add_child : Gathered → Node → Gathered
  add_child g n = record g { children = push_node g.children n }

  unfoldable mutual
    unfolding new_name set_name path_ref build_node decode_property push_node

    -- `walk_node`, given the pairs in the node
    pub walk_node : TreeBuilder → Pair → Text → List Text → Outcome (TreeBuilder × Node)
    walk_node b (pair r text inner) path route = new_name path route >>= λ name.
        walk_inner b (record { name = name; labels = []; properties = []; children = no_nodes })
          inner
        >>= λ (b', g). build_node b' g

    -- The `for` loop of `walk_node`.
    pub walk_inner : TreeBuilder → Gathered → Pairs → Outcome (TreeBuilder × Gathered)
    walk_inner b g no_pairs = ret (b, g)
    walk_inner b g (and_pair p ps) =
        by_rule (as_rule p)
          (set_name g.name (as_str p) >>= λ name. walk_inner b (record g { name = name }) ps)
          (walk_inner b (add_label g (as_str p)) ps)
          (decode_property p >>= λ q. walk_inner b (add_property g q) ps)
          (path_ref g.name >>= λ path.
            walk_node b p path g.name.route >>= λ (b', n). walk_inner b' (add_child g n) ps)

  -- `TreeBuilder::walk`
  unfoldable pub walk : Pair → Outcome DeviceTree
  unfolding walk_node
  walk p = by_rule (as_rule p) panic panic panic (
      walk_node (record { labels = []; next = 0 }) p [] [] >>= λ (b, root).
      ret (record { root = root; labels = b.labels }))
