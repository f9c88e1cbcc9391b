-- ===== src/Object/Examples.antt =====
-- Two threads that call `get`.
use zephyr_lang_rust.Prelude.{ℕ, ◌≤◌, ◌≢◌, List, [], ◌∷◌, length, arith}
use zephyr_lang_rust.Object.{panicked, run}
use zephyr_lang_rust.Object.Once.{start, get-no_panic}

-- Both threads read first; then both enter.
abbrev both : List ℕ
both = 0 ∷ 1 ∷ 1 ∷ 0 ∷ []

not_null : ◌≢◌ {A = ℕ} 0 64
not_null = λ e. absurd (omega arith)

get-no_panic_example :
    ((run (start 64) both).pc 1 ≢ panicked) × (length (run (start 64) both).object.inits ≤ 1)
get-no_panic_example = get-no_panic both 64 1 not_null
