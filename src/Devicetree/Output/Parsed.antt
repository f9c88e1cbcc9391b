-- ===== src/Devicetree/Output/Parsed.antt =====
-- The names that are written of a tree that was parsed.
use zephyr_lang_rust.Prelude.{ℕ, ◌≡◌, refl, ◌∙◌, none, List, [], ◌∷◌, ◌++◌}
use zephyr_lang_rust.Prelude.Outcome.{ret}
use zephyr_lang_rust.Devicetree.{Text, Node, head, node, Nodes, no_nodes, and_node, DeviceTree}
use zephyr_lang_rust.Devicetree.Parse.{Pair}
use zephyr_lang_rust.Devicetree.Walk.{slash, walk}
use zephyr_lang_rust.Devicetree.Walk.Names.{joined, Named, NamedAll, walk-Named}
use zephyr_lang_rust.Devicetree.Output.{output_path_walk}
use zephyr_lang_rust.Devicetree.Output.Routes.{Routed, RoutedAll, by_route, output_path_walk-routes}

joined-cons : (c : ℕ) (above name : Text) → (rest : Text) × (joined (c ∷ above) name ≡ c ∷ rest)
joined-cons c [] name = (name, refl)
joined-cons c (d ∷ above) name = (d ∷ above ++ 47 ∷ name, refl)

module _ (ords : List (Text × ℕ)) where
  NamedAll-Routed :
      (ns : Nodes) (c : ℕ) (above : Text) (up : List Text)
      → NamedAll ords (c ∷ above) up ns
      → RoutedAll up ns
  unfolding NamedAll RoutedAll
  NamedAll-Routed no_nodes c above up w = tt
  NamedAll-Routed (and_node (node h ds) ns) c above up (((path, route, found), v), w) =
      let (rest, e) = joined-cons c above h.name in
      (
        route,
        NamedAll-Routed ds c rest h.route (rw (path ∙ e) at v),
        NamedAll-Routed ns c above up w,
      )

  root-Routed : (n : Node) → Named ords [] [] n → Routed n × ((head n).route ≡ [])
  unfolding Named Routed
  root-Routed (node h cs) ((name, path, route, found), v) =
      (NamedAll-Routed cs slash [] h.route (rw path at v), route)

  -- When the parser returns a tree, the names that are written of its nodes are their routes.
  pub walk-routes :
      (p : Pair) (dt : DeviceTree)
      → walk ords p ≡ ret dt
      → output_path_walk dt.root none ≡ by_route dt.root
  walk-routes p dt e =
      let (routed, top) = root-Routed dt.root (walk-Named ords p dt e) in
      output_path_walk-routes dt.root routed top
