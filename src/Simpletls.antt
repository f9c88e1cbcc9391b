-- ===== src/Simpletls.antt =====
-- zephyr/src/simpletls.rs: the value of each thread, in a vector that is sorted by the thread's
-- address.
use zephyr_lang_rust.Prelude.{
  ℕ, zero, suc, ◌+◌, Bool, true, false, Option, none, some, List, [], ◌∷◌, get_elem?, set, ltb,
  ◌==◌, if◌then◌else◌,
}
use zephyr_lang_rust.Prelude.Outcome.{Result, ok, err}
pub mod Sorted
mod Examples

-- `struct SimpleTls<T>`
abbrev pub SimpleTls : Type 0 → Type 0
SimpleTls T = List (ℕ × T)

abbrev pub shift : Result ℕ ℕ → Result ℕ ℕ
shift (ok i) = ok (suc i)
shift (err i) = err (suc i)

module _ {T : Type 0} where
  -- `binary_search_by` of the standard library, by what it is documented to return on a sorted vector:
  -- where the thread stands, or where it is to be inserted.
  unfoldable pub binary_search : SimpleTls T → ℕ → Result ℕ ℕ
  binary_search [] thread = err 0
  binary_search ((id, x) ∷ map) thread =
      let rest = shift (binary_search map thread) in
      if id == thread then ok 0 else if ltb thread id then err 0 else rest

  -- `Vec::insert`
  unfoldable pub vec_insert : SimpleTls T → ℕ → ℕ × T → SimpleTls T
  vec_insert map zero e = e ∷ map
  vec_insert [] (suc i) e = e ∷ []
  vec_insert (x ∷ map) (suc i) e = x ∷ vec_insert map i e

  unfoldable pub insert : SimpleTls T → ℕ → T → SimpleTls T
  unfolding binary_search vec_insert
  insert map thread data_ = elim (binary_search map thread) [
    | ok pos ↦ set map pos (thread, data_)
    | err pos ↦ vec_insert map pos (thread, data_)
  ]

  abbrev pub value : Option (ℕ × T) → Option T
  value none = none
  value (some e) = some e.1

  -- `get`, of the current thread
  unfoldable pub get : SimpleTls T → ℕ → Option T
  unfolding binary_search
  get map thread = elim (binary_search map thread) [
    | ok pos ↦ value (get_elem? map pos)
    | err pos ↦ none
  ]
