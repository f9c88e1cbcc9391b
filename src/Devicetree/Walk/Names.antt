-- ===== src/Devicetree/Walk/Names.antt =====
-- How the nodes that the parser makes are named.
use zephyr_lang_rust.Prelude.{
  ℕ, ◌≡◌, ◌≢◌, inl, inr, refl, ap, sym, Option, none, some, List, [], ◌∷◌, ◌++◌, length,
  append_assoc, ltb, true, Option-cases, arith,
}
use zephyr_lang_rust.Prelude.Outcome.{Outcome, ret, bind-ret, ret-inj}
use zephyr_lang_rust.Devicetree.{
  Text, lookup, Property, Node, node, Nodes, no_nodes, and_node, push_node, DeviceTree,
}
use zephyr_lang_rust.Devicetree.Parse.{
  Rule, Pair, pair, Pairs, no_pairs, and_pair, as_rule, as_str, decode_property,
}
use zephyr_lang_rust.Devicetree.Walk.{
  Info, LazyName, slash, child_path, ord_of, new_name, set_name, path_ref, TreeBuilder, Gathered,
  build_node, walk_node, walk_inner, walk, by_rule, add_child, add_label, add_property,
}

-- Which arm of `by_rule` has returned.
data Taken {A : Type 0} (a b c d : Outcome A) (x : A) : Type 0 where
  at_nodename : a ≡ ret x → Taken a b c d x
  at_label : b ≡ ret x → Taken a b c d x
  at_property : c ≡ ret x → Taken a b c d x
  at_node : d ≡ ret x → Taken a b c d x

by_rule-ret :
    {A : Type 0} (r : Rule) (a b c d : Outcome A) (x : A)
    → by_rule r a b c d ≡ ret x
    → Taken a b c d x
by_rule-ret Rule.nodename a b c d x e = at_nodename e
by_rule-ret Rule.label a b c d x e = at_label e
by_rule-ret Rule.property a b c d x e = at_property e
by_rule-ret Rule.node a b c d x e = at_node e
by_rule-ret _ a b c d x e = absurd (cc)

-- The path of a node: its name after that of the node above, with a `/` (47) between them unless the
-- one above is a single character, as the root's is.
abbrev pub joined : Text → Text → Text
joined [] name = name
joined (c ∷ []) name = c ∷ name
joined (c ∷ d ∷ above) name = (c ∷ d ∷ above) ++ 47 ∷ name

module _ (ords : List (Text × ℕ)) where
  child_path-joined : (above name : Text) → child_path ords above name ≡ joined above name
  child_path-joined [] name = ground arith
  child_path-joined (c ∷ []) name = ground arith
  child_path-joined (c ∷ d ∷ above) name =
      let long : ltb 1 (length (c ∷ d ∷ above)) ≡ true = ground arith in
      rw long (append_assoc (c ∷ d ∷ above) (slash ∷ []) name)

  -- The name, path, route and number of a node below a node of that path and route; the root has no
  -- node above it.
  abbrev pub Placed : Text → List Text → Text → Text → List Text → ℕ → Type 0
  Placed [] up name path route ord =
      (name ≡ slash ∷ []) × (path ≡ slash ∷ []) × (route ≡ up) × (lookup path ords ≡ some ord)
  Placed (c ∷ above) up name path route ord =
      (path ≡ joined (c ∷ above) name) × (route ≡ up ++ name ∷ []) × (lookup path ords ≡ some ord)

  unfoldable mutual
    pub Named : Text → List Text → Node → Type 0
    Named above up (node h cs) =
        Placed above up h.name h.path h.route h.ord × NamedAll h.path h.route cs

    pub NamedAll : Text → List Text → Nodes → Type 0
    NamedAll above up no_nodes = Unit
    NamedAll above up (and_node n ns) = Named above up n × NamedAll above up ns

  NamedAll-push :
      (above : Text) (up : List Text) (ns : Nodes) (n : Node)
      → NamedAll above up ns
      → Named above up n
      → NamedAll above up (push_node ns n)
  unfolding NamedAll push_node
  NamedAll-push above up no_nodes n w h = (h, tt)
  NamedAll-push above up (and_node m ms) n (k, w) h = (k, NamedAll-push above up ms n w h)

  -- What has been gathered of a node, before and after its name is known.
  abbrev Info-fits : Text → List Text → Option Info → List Text → Nodes → Type 0
  Info-fits above up none route cs = (above ≢ []) × (route ≡ up) × (cs ≡ no_nodes)
  Info-fits above up (some i) route cs =
      Placed above up i.name i.path route i.ord × NamedAll i.path route cs

  abbrev Fits : Text → List Text → Gathered ords → Type 0
  Fits above up g = (g.name.path ≡ above) × Info-fits above up g.name.info g.name.route g.children

  ord_of-ret : (path : Text) (n : ℕ) → ord_of ords path ≡ ret n → lookup path ords ≡ some n
  unfolding ord_of
  ord_of-ret path n e = ground arith

  new_name-Fits :
      (path : Text) (route : List Text) (l : LazyName)
      → new_name ords path route ≡ ret l
      → (l.path ≡ path) × Info-fits path route l.info l.route no_nodes
  unfolding new_name NamedAll
  new_name-Fits [] route l e =
      let (n, o, q) = bind-ret (ord_of ords (slash ∷ [])) _ l e in
      let found = ord_of-ret (slash ∷ []) n o in
      rw (← ret-inj q) (refl, ((refl, refl, refl, found), tt))
  new_name-Fits (c ∷ path) route l e = rw (← ret-inj e) (refl, (λ d. cc, refl, refl))

  Placed-child :
      (above : Text) (up : List Text) (name : Text) (n : ℕ)
      → above ≢ []
      → lookup (child_path ords above name) ords ≡ some n
      → Placed above up name (child_path ords above name) (up ++ name ∷ []) n
  Placed-child [] up name n d h = absurd (d refl)
  Placed-child (c ∷ above) up name n d h = (child_path-joined (c ∷ above) name, refl, h)

  -- A name is given once, before any child is seen.
  set_name-Fits :
      (above : Text) (up : List Text) (path : Text) (route : List Text) (info : Option Info)
      (cs : Nodes) (name : Text) (l : LazyName)
      → set_name ords (record { path = path; route = route; info = info }) name ≡ ret l
      → path ≡ above
      → Info-fits above up info route cs
      → (l.path ≡ above) × Info-fits above up l.info l.route cs
  unfolding set_name NamedAll
  set_name-Fits above up path route (some i) cs name l e p f = absurd (cc)
  set_name-Fits above up path route none cs name l e p (d, r, k) =
      let (n, o, q) = bind-ret (ord_of ords (child_path ords path name)) _ l e in
      let found = ord_of-ret (child_path ords path name) n o in
      rw (← ret-inj q, p, r, k) (refl, (Placed-child above up name n d (rw p at found), tt))

  build_node-Named :
      (above : Text) (up : List Text) (b b' : TreeBuilder ords) (path : Text) (route : List Text)
      (info : Option Info) (labels : List Text) (properties : List Property) (cs : Nodes) (n : Node)
      → build_node ords b (record {
        name = record { path = path; route = route; info = info };
        labels = labels;
        properties = properties;
        children = cs;
      })
        ≡ ret (b', n)
      → Info-fits above up info route cs
      → Named above up n
  unfolding build_node Named
  build_node-Named above up b b' path route none ls ps cs n e f = absurd (cc)
  build_node-Named above up b b' path route (some i) ls ps cs n e f =
      rw (← ap (λ x. x.1) (ret-inj e)) f

  path_ref-ret :
      (l : LazyName) (path : Text)
      → path_ref ords l ≡ ret path
      → (i : Info) × (l.info ≡ some i) × (i.path ≡ path)
  unfolding path_ref
  path_ref-ret l path e = elim (Option-cases l.info) [
    | inl unknown ↦ absurd (ground arith)
    | inr (i, known) ↦ (i, known, ground arith)
  ]

  -- A child that is named under the path and the route so far.
  add_child-Fits :
      (above : Text) (up : List Text) (path : Text) (route : List Text) (info : Option Info)
      (cs : Nodes) (i : Info) (n : Node)
      → info ≡ some i
      → Info-fits above up info route cs
      → Named i.path route n
      → Info-fits above up info route (push_node cs n)
  add_child-Fits above up path route none cs i n k f h = absurd (cc)
  add_child-Fits above up path route (some j) cs i n k (placed, w) h =
      let same : i.path ≡ j.path = ap (λ o. elim o [ none ↦ i.path | some x ↦ x.path ]) (sym k) in
      (placed, NamedAll-push j.path route cs n w (rw same at h))

  mutual
    unfolding walk_node

    -- Every node that is made below a path and a route is named by them.
    pub walk_node-Named :
        (b b' : TreeBuilder ords) (p : Pair) (above : Text) (up : List Text) (n : Node)
        → walk_node ords b p above up ≡ ret (b', n)
        → Named above up n
    walk_node-Named b b' (pair r t inner) above up n e =
        let (l, named, rest) = bind-ret (new_name ords above up) _ (b', n) e in
        let start : Gathered ords = record {
          name = l;
          labels = [];
          properties = [];
          children = no_nodes;
        } in
        let ((b'', g), walked, built) = bind-ret (walk_inner ords b start inner) _ (b', n) rest in
        let fits : Fits above up g =
          walk_inner-Fits b b'' start g inner above up walked (new_name-Fits above up l named) in
        build_node-Named above up b'' b' g.name.path g.name.route g.name.info g.labels g.properties
          g.children n built fits.1

    walk_inner-Fits :
        (b b' : TreeBuilder ords) (g g' : Gathered ords) (ps : Pairs) (above : Text)
        (up : List Text)
        → walk_inner ords b g ps ≡ ret (b', g')
        → Fits above up g
        → Fits above up g'
    walk_inner-Fits b b' g g' no_pairs above up e f = rw (← ap (λ x. x.1) (ret-inj e)) f
    walk_inner-Fits b b' g g' (and_pair p ps) above up e f =
        elim (by_rule-ret (as_rule p) _ _ _ _ (b', g') e) [
          | at_nodename c ↦
              let (l, named, rest) = bind-ret (set_name ords g.name (as_str p)) _ (b', g') c in
              walk_inner-Fits b b' (record g { name = l }) g' ps above up rest
                (set_name-Fits above up g.name.path g.name.route g.name.info g.children (as_str p) l
                  named f.0 f.1)
          | at_label c ↦ walk_inner-Fits b b' (add_label ords g (as_str p)) g' ps above up c f
          | at_property c ↦
              let (q, decoded, rest) = bind-ret (decode_property p) _ (b', g') c in
              walk_inner-Fits b b' (add_property ords g q) g' ps above up rest f
          | at_node c ↦
              let (path, at, rest) = bind-ret (path_ref ords g.name) _ (b', g') c in
              let ((b'', n), walked, rest') =
                bind-ret (walk_node ords b p path g.name.route) _ (b', g') rest in
              let (i, known, same) = path_ref-ret g.name path at in
              let named : Named i.path g.name.route n =
                rw same (walk_node-Named b b'' p path g.name.route n walked) in
              walk_inner-Fits b'' b' (add_child ords g n) g' ps above up rest' (
                f.0,
                add_child-Fits above up g.name.path g.name.route g.name.info g.children i n known
                    f.1 named,
              )
        ]

  -- When the parser returns a tree, its root is `/` and every node's path is its parent's with its
  -- name, with a `/` between them unless the parent is the root, its route its parent's with its name, and its number that of its path in the header.
  pub walk-Named : (p : Pair) (dt : DeviceTree) → walk ords p ≡ ret dt → Named [] [] dt.root
  unfolding walk
  walk-Named p dt e = elim (by_rule-ret (as_rule p) _ _ _ _ dt e) [
    | at_nodename c ↦ absurd (cc)
    | at_label c ↦ absurd (cc)
    | at_property c ↦ absurd (cc)
    | at_node c ↦
        let ((b, root), walked, q) = bind-ret (walk_node ords _ p [] []) _ dt c in
        rw (← ret-inj q) (walk_node-Named _ b p [] [] root walked)
  ]
