-- ===== src/Work/References.antt =====
-- Who has a reference to a work item: the program, the queue, and the submissions that were refused.
use zephyr_lang_rust.Prelude.{
  ℕ, ◌+◌, ◌≡◌, refl, sym, ◌∙◌, inl, inr, Bool, true, false, List, [], ◌∷◌, ◌==◌, if◌then◌else◌,
  Bool-cases, arith,
}
use zephyr_lang_rust.Prelude.Outcome.{ret, Result, ok, err}
use zephyr_lang_rust.Error.{Error, to_result}
use zephyr_lang_rust.Work.{
  SubmitResult, already_submitted, enqueued_now, was_running, enqueued, submit_result, Submits,
  already, queues, refuses, KWork, Work, new, submit_to_queue, handler, handler_end, Op, clones,
  drops, submits_to, queue_runs, queue_ends, step, run,
}

-- Whether a submission has put the work into a queue.
abbrev pub is_enqueued : Result SubmitResult Error → Bool
unfolding enqueued
is_enqueued (ok r) = enqueued r
is_enqueued (err e) = false

abbrev pub number : Bool → ℕ
number true = 1
number false = 0

-- The submissions that have not.
abbrev pub refused : List (Result SubmitResult Error) → ℕ
refused [] = 0
refused (r ∷ rs) = (if is_enqueued r then 0 else 1) + refused rs

module _ (k : KWork) (checks : Bool) where
  pub record Counted (w : Work k checks) : Type 0 where
    pub strong :
        w.strong ≡ w.handles + number (k.queued w.work) + number w.running + refused w.results
    pub freed : w.freed ≡ (w.strong == 0)
    pub no_fault : w.fault ≡ false

  -- What a submission adds: to the queue, or to those that were refused.
  record Sent (w : Work k checks) (queue : ℕ) : Type 0 where
    result : Result SubmitResult Error
    code : submit_result checks (k.k_work_submit w.work queue).0 ≡ ret result
    added :
        number (k.queued (k.k_work_submit w.work queue).1) + (if is_enqueued result then 0 else 1)
        ≡ number (k.queued w.work) + 1

  sent-by :
      (w : Work k checks) (queue : ℕ)
      → Submits
          (k.queued w.work)
          (k.queued (k.k_work_submit w.work queue).1)
          (k.k_work_submit w.work queue).0
      → Sent w queue
  unfolding submit_result to_result enqueued
  sent-by w queue (already a b c) = record {
    result = ok already_submitted;
    code = rw c refl;
    added = rw (a, b) refl;
  }
  sent-by w queue (queues a b (inl c)) = record {
    result = ok enqueued_now;
    code = rw c refl;
    added = rw (a, b) refl;
  }
  sent-by w queue (queues a b (inr c)) = record {
    result = ok was_running;
    code = rw c refl;
    added = rw (a, b) refl;
  }
  sent-by w queue (refuses e b c) = record {
    result = err e;
    code = rw (c checks) refl;
    added = rw b refl;
  }

  submit-Counted :
      (w : Work k checks) (queue : ℕ)
      → (w.handles == 0) ≡ false
      → Counted w
      → Counted (submit_to_queue k checks w queue)
  unfolding submit_to_queue
  submit-Counted w queue h c =
      let s = sent-by w queue (k.submits w.work queue) in
      rw s.code (record {
        strong = ground (arith, c.strong, s.added);
        freed = c.freed;
        no_fault = c.no_fault;
      })

  handler-Counted :
      (w : Work k checks)
      → w.running ≡ false
      → k.queued w.work ≡ true
      → Counted w
      → Counted (handler k checks w)
  unfolding handler
  handler-Counted w idle waits c =
      let live : w.freed ≡ false = ground (arith, c.strong, c.freed, waits) in
      simp live (record {
        strong = rw (k.starts_lem w.work) (ground (arith, c.strong, idle, waits));
        freed = sym live ∙ c.freed;
        no_fault = c.no_fault;
      })

  step-handler :
      (w : Work k checks)
      → w.running ≡ false
      → k.queued w.work ≡ true
      → step k checks queue_runs w ≡ handler k checks w
  unfolding step
  step-handler w idle waits = simp (idle, waits) refl

  handler_end-Counted :
      (w : Work k checks) → w.running ≡ true → Counted w → Counted (handler_end k checks w)
  unfolding handler_end
  handler_end-Counted w runs c = ground (arith, c.strong, c.freed, c.no_fault, runs)

  step-Counted : (o : Op) (w : Work k checks) → Counted w → Counted (step k checks o w)
  unfolding step
  step-Counted clones w c = ground (arith, c.strong, c.freed, c.no_fault)
  step-Counted drops w c = ground (arith, c.strong, c.freed, c.no_fault)
  step-Counted (submits_to queue) w c = elim (Bool-cases (w.handles == 0)) [
    | inl none_left ↦ rw none_left c
    | inr some_left ↦ rw some_left (submit-Counted w queue some_left c)
  ]
  step-Counted queue_runs w c = elim (Bool-cases w.running) [
    | inl runs ↦ simp runs c
    | inr idle ↦ elim (Bool-cases (k.queued w.work)) [
      | inl waits ↦ rw (step-handler w idle waits) (handler-Counted w idle waits c)
      | inr empty ↦ simp (idle, empty) c
    ]
  ]
  step-Counted queue_ends w c = elim (Bool-cases w.running) [
    | inl runs ↦ simp runs (handler_end-Counted w runs c)
    | inr idle ↦ simp idle c
  ]

  run-Counted : (os : List Op) (w : Work k checks) → Counted w → Counted (run k checks os w)
  unfolding run
  run-Counted [] w c = c
  run-Counted (o ∷ os) w c = run-Counted os (step k checks o w) (step-Counted o w c)

  new-Counted : Counted (new k checks)
  unfolding new
  new-Counted = record { strong = rw k.init_lem (omega arith); freed = refl; no_fault = refl }

  -- In every run of clones, drops and submissions of a new work item by its program and of the queue
  -- running it, no memory is used after it is freed and no call panics; its count is the number of
  -- handles that the program has, and one for a place in a queue, one for the handler that runs, and
  -- one for each submission that did not put it into a queue; and it is freed exactly at count zero.
  pub run-references :
      (os : List Op)
      → let w = run k checks os (new k checks) in
        (w.fault ≡ false)
        × (w.strong ≡ w.handles + number (k.queued w.work) + number w.running + refused w.results)
        × (w.freed ≡ (w.strong == 0))
  run-references os =
      let c = run-Counted os (new k checks) new-Counted in (c.no_fault, c.strong, c.freed)
