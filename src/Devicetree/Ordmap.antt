-- ===== src/Devicetree/Ordmap.antt =====
-- zephyr-build/src/devicetree/ordmap.rs: the numbers of the nodes, from `devicetree_generated.h`.
-- The two regular expressions are of the `regex` crate; what they capture on a line is a parameter.
use zephyr_lang_rust.Prelude.{ℕ, Option, none, some, List, [], ◌∷◌, if◌then◌else◌}
use zephyr_lang_rust.Prelude.Outcome.{Outcome, ret, panic, ◌>>=◌}
use zephyr_lang_rust.Devicetree.{Text, eq_text}

-- What a line of the file is to the two expressions, the first tried first.
pub data Line : Type 0 where
  path : Text → Text → Line
  ord : Text → Option ℕ → Line  -- the number, if `from_str` reads it
  other : Line

-- The last name and path seen, and the map so far.
pub record Scan : Type 0 where
  pub c_name : Text
  pub dt_path : Text
  pub result : List (Text × ℕ)

unfoldable pub scan_line : Scan → Line → Outcome Scan
unfolding eq_text
scan_line s (path name p) = ret (record s { c_name = name; dt_path = p })
scan_line s (ord name none) = panic
scan_line s (ord name (some n)) =
    if eq_text name s.c_name then ret (record s { result = (s.dt_path, n) ∷ s.result }) else panic
scan_line s other = ret s

unfoldable pub scan : Scan → List Line → Outcome Scan
unfolding scan_line
scan s [] = ret s
scan s (l ∷ ls) = scan_line s l >>= λ s'. scan s' ls

-- `OrdMap::new`
unfoldable pub ord_map : List Line → Outcome (List (Text × ℕ))
unfolding scan
ord_map ls = scan (record { c_name = []; dt_path = []; result = [] }) ls >>= λ s. ret s.result
