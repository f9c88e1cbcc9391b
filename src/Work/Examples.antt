-- ===== src/Work/Examples.antt =====
-- A work item that a queue takes once and refuses while it has it, and two queues.
use zephyr_lang_rust.Prelude.{ℕ, ◌+◌, ◌≡◌, refl, inl, Bool, true, false, List, [], ◌∷◌, ◌==◌}
use zephyr_lang_rust.Prelude.Int.{ℤ, pos}
use zephyr_lang_rust.Error.{to_result}
use zephyr_lang_rust.Work.{
  Submits, already, queues, KWork, new, Op, clones, drops, submits_to, queue_runs, queue_ends, run,
}
use zephyr_lang_rust.Work.References.{number, refused, run-references}

abbrev submit : Bool → ℕ → ℤ × Bool
submit true queue = (pos 0, true)
submit false queue = (pos 1, true)

submit-Submits : (w : Bool) (queue : ℕ) → Submits w (submit w queue).1 (submit w queue).0
submit-Submits true queue = already refl refl refl
submit-Submits false queue = queues refl refl (inl refl)

abbrev flags : KWork
flags = record {
  W = Bool;
  queued = λ w. w;
  k_work_init = false;
  k_work_submit = submit;
  starts = λ w. false;
  init_lem = refl;
  submits = submit-Submits;
  starts_lem = λ w. refl;
}

-- Submitted twice before the queue runs it: one reference is left for good.
abbrev twice : List Op
twice = clones ∷ clones ∷ submits_to 0 ∷ submits_to 0 ∷ queue_runs ∷ drops ∷ queue_ends ∷ drops ∷ []

twice_leaks : (run flags true twice (new flags true)).strong ≡ 1
unfolding run new to_result
twice_leaks = refl

run-references_example :
    let w = run flags true twice (new flags true) in
    (w.fault ≡ false)
    × (w.strong ≡ w.handles + number (flags.queued w.work) + number w.running + refused w.results)
    × (w.freed ≡ (w.strong == 0))
run-references_example = run-references flags true twice
