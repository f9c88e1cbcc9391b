-- ===== src/Devicetree/Output/Routes.antt =====
-- The names that are written are the routes of the nodes, which references use too.
use zephyr_lang_rust.Prelude.{
  ℕ, ◌≡◌, refl, ap, sym, ◌∙◌, Bool, true, false, ◌||◌, not, Option, none, some, List, [], ◌∷◌, ◌++◌,
  append_assoc, ◌==◌, all, arith,
}
use zephyr_lang_rust.Devicetree.{Text, Property, Node, head, node, Nodes, no_nodes, and_node}
use zephyr_lang_rust.Devicetree.Output.{
  colons, fix_char, fix_id, child_name, output_paths, output_path_walk, output_path_walk_all,
  route_to_rust,
}

-- The route of each child is its parent's, with its own name at the end.
unfoldable mutual
  pub Routed : Node → Type 0
  Routed (node h cs) = RoutedAll h.route cs

  pub RoutedAll : List Text → Nodes → Type 0
  RoutedAll route no_nodes = Unit
  RoutedAll route (and_node (node h ds) cs) =
      (h.route ≡ route ++ h.name ∷ []) × RoutedAll h.route ds × RoutedAll route cs

-- A route as one name.
unfoldable pub joined : List Text → Text
joined [] = []
joined (x ∷ []) = x
joined (x ∷ y ∷ l) = x ++ colons ++ joined (y ∷ l)

-- The names of the nodes below, each by its own route, with those of its references.
unfoldable mutual
  pub by_route : Node → List Text
  by_route (node h cs) = by_route_all cs

  pub by_route_all : Nodes → List Text
  by_route_all no_nodes = []
  by_route_all (and_node (node h ds) cs) =
      joined (route_to_rust h.route) ∷ output_paths (joined (route_to_rust h.route)) h.properties
      ++ by_route_all ds
      ++ by_route_all cs

-- The name under which the children of a node of that route are written.
abbrev route_name : List Text → Option Text
route_name [] = none
route_name (x ∷ route) = some (joined (route_to_rust (x ∷ route)))

joined-snoc :
    (x : Text) (route : List Text) (name : Text)
    → joined (route_to_rust (x ∷ route ++ name ∷ []))
      ≡ joined (route_to_rust (x ∷ route)) ++ colons ++ fix_id name
unfolding joined route_to_rust
joined-snoc x [] name = refl
joined-snoc x (y ∷ route) name =
    let k = fix_id x ++ colons in
    let j = joined (route_to_rust (y ∷ route)) in
    ap (λ z. k ++ z) (joined-snoc y route name)
    ∙ (sym (append_assoc k (j ++ colons) (fix_id name))
        ∙ ap (λ z. z ++ fix_id name) (sym (append_assoc k j colons)))

child_name_lem :
    (route : List Text) (name : Text)
    → child_name (route_name route) name ≡ joined (route_to_rust (route ++ name ∷ []))
unfolding child_name joined route_to_rust
child_name_lem [] name = refl
child_name_lem (x ∷ route) name = sym (joined-snoc x route name)

route_name-snoc :
    (route : List Text) (name : Text)
    → some (joined (route_to_rust (route ++ name ∷ []))) ≡ route_name (route ++ name ∷ [])
route_name-snoc [] name = refl
route_name-snoc (x ∷ route) name = refl

-- The lines of a child, part by part.
assemble :
    {n n' : Text} {a a' b b' : List Text} (ps : List Property)
    → n ≡ n'
    → a ≡ a'
    → b ≡ b'
    → n ∷ output_paths n ps ++ a ++ b ≡ n' ∷ output_paths n' ps ++ a' ++ b'
assemble ps e f g = rw (e, f, g) refl

walk_by_route :
    (cs : Nodes) (route : List Text)
    → RoutedAll route cs
    → output_path_walk_all cs (route_name route) ≡ by_route_all cs
unfolding RoutedAll output_path_walk_all by_route_all
walk_by_route no_nodes route w = refl
walk_by_route (and_node (node h ds) cs) route (e, v, w) =
    let name : child_name (route_name route) h.name ≡ joined (route_to_rust h.route) =
      child_name_lem route h.name ∙ ap (λ r. joined (route_to_rust r)) (sym e) in
    let below : some (joined (route_to_rust h.route)) ≡ route_name h.route =
      rw e (route_name-snoc route h.name) in
    assemble h.properties name
      (ap (output_path_walk_all ds) (ap some name ∙ below) ∙ walk_by_route ds h.route v)
      (walk_by_route cs route w)

-- The node names that are written for Cargo are the routes of the nodes below the root, each the path
-- under which a reference to the node is written in Rust.
pub output_path_walk-routes :
    (root : Node)
    → Routed root
    → (head root).route ≡ []
    → output_path_walk root none ≡ by_route root
unfolding Routed output_path_walk by_route
output_path_walk-routes (node h cs) w top = walk_by_route cs [] (rw top at w)

-- Characters that no Rust name has.
abbrev pub is_forbidden : ℕ → Bool
is_forbidden ch = (ch == 35) || ((ch == 45) || ((ch == 64) || (ch == 44)))

fix_char-allowed : (ch : ℕ) → is_forbidden (fix_char ch) ≡ false
unfolding fix_char
fix_char-allowed ch = ground arith

fix_char_again : (ch : ℕ) → fix_char (fix_char ch) ≡ fix_char ch
unfolding fix_char
fix_char_again ch = ground arith

-- A fixed name has none of the four characters that are replaced, and fixing it again keeps it.
pub fix_id-fixed :
    (text : Text)
    → (all (λ ch. not (is_forbidden ch)) (fix_id text) ≡ true)
      × (fix_id (fix_id text) ≡ fix_id text)
unfolding fix_id
fix_id-fixed [] = (refl, refl)
fix_id-fixed (ch ∷ text) =
    let (allowed, same) = fix_id-fixed text in
    (rw (fix_char-allowed ch) allowed, rw (fix_char_again ch, same) refl)
