-- ===== src/Simpletls/Examples.antt =====
-- Two threads, of which the second is given a new value.
use zephyr_lang_rust.Prelude.{ℕ, ◌≡◌, some, [], ◌∷◌, ◌==◌, if◌then◌else◌, arith}
use zephyr_lang_rust.Simpletls.{SimpleTls, insert, get}
use zephyr_lang_rust.Simpletls.Sorted.{Sorted, insert-get}

abbrev two_threads : SimpleTls ℕ
two_threads = (16, 1) ∷ (32, 2) ∷ []

insert-get_example :
    Sorted (insert two_threads 32 5)
    × (get (insert two_threads 32 5) 16 ≡ (if 32 == 16 then some 5 else get two_threads 16))
insert-get_example = insert-get two_threads 32 16 5 (omega arith, tt)
