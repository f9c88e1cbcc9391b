-- ===== src/Thread/Examples.antt =====
-- A pool of two threads, of which the first is found finished, and three that are asked for.
use zephyr_lang_rust.Prelude.{◌≤◌, ◌<◌, ◌≡◌, ◌⊎◌, true, false, List, [], ◌∷◌, length, ◌==◌, arith}
use zephyr_lang_rust.Prelude.Int.{pos}
use zephyr_lang_rust.Prelude.Outcome.{ret, panic}
use zephyr_lang_rust.Thread.{ThreadPool}
use zephyr_lang_rust.Thread.Acquired.{
  Op, acquires, starts, runs_startup, new_threads, run, args_of, from, Taken, run-ids,
}

abbrev asked : List Op
asked =
    acquires (λ id. false) 70 9 (pos 1) 3
    ∷ starts 0
    ∷ runs_startup 0
    ∷ acquires (λ id. id == 0) 71 9 (pos 1) 3
    ∷ starts 1
    ∷ acquires (λ id. true) 72 9 (pos 1) 3
    ∷ []

run-ids_example :
    let o = run (record { threads = new_threads 2; calls = [] }) 2 1024 asked in
    (length (args_of asked) ≤ 2)
      × ((p : ThreadPool) × (o ≡ ret (from 0 (args_of asked), p)) × Taken (args_of asked) p.threads)
    ⊎ (2 < length (args_of asked)) × (o ≡ panic)
run-ids_example = run-ids 2 1024 asked 2 (omega arith)
