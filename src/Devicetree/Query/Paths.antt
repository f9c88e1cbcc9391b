-- ===== src/Devicetree/Query/Paths.antt =====
-- What `compatible_path` accepts.
use zephyr_lang_rust.Prelude.{◌≡◌, true, false, Option, none, some, List, [], ◌∷◌, arith}
use zephyr_lang_rust.Devicetree.{Text, Head}
use zephyr_lang_rust.Devicetree.Query.{is_compatible, compatible_path}

-- Each entry names something that its node is not compatible with, and a node stands above.
pub data Incompatible : Head → List Head → List (Option Text) → Type 0 where
  end : {h : Head} {up : List Head} → Incompatible h up []
  level :
      {h parent : Head} {up : List Head} {name : Text} {path : List (Option Text)}
      → is_compatible h.properties name ≡ false
      → Incompatible parent up path
      → Incompatible h (parent ∷ up) (some name ∷ path)

-- On every path that `compatible_path` accepts, each entry is a name that the node at its level is not
-- compatible with, and each of these nodes has a parent.
pub compatible_path-Incompatible :
    (h : Head) (up : List Head) (path : List (Option Text))
    → compatible_path h up path ≡ true
    → Incompatible h up path
unfolding compatible_path
compatible_path-Incompatible h up [] e = end
compatible_path-Incompatible h [] (none ∷ path) e = absurd (cc)
compatible_path-Incompatible h [] (some name ∷ path) e = absurd (ground arith)
compatible_path-Incompatible h (parent ∷ up) (none ∷ path) e = absurd (cc)
compatible_path-Incompatible h (parent ∷ up) (some name ∷ path) e =
    level (ground arith) (compatible_path-Incompatible parent up path (ground arith))
