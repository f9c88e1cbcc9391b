-- ===== src/Blocking/Invariant/WorkerSteps.antt =====
-- Each step of a worker moves as `Workers` wants it.
use zephyr_lang_rust.Prelude.{ℕ, ◌≡◌, inl, inr, refl, false, some, List, ◌∷◌, arith}
use zephyr_lang_rust.Time.{from_forever}
use zephyr_lang_rust.Queue.{empty, first, found}
use zephyr_lang_rust.Blocking.Slot.{SlotState, is_orphaned, Env, Mem, FutPc, WorkPc, update}
use zephyr_lang_rust.Blocking.Future.{release_wake, set_state}
use zephyr_lang_rust.Blocking.Worker.{recv_item, valid_shared, worker_step}
use zephyr_lang_rust.Blocking.Invariant.Defs.{held, WorkFits, Inv}
use zephyr_lang_rust.Blocking.Invariant.Served.{FutFits-served, FutFits-received, held_not_orphaned}
use zephyr_lang_rust.Blocking.Invariant.Workers.{Moves-Inv}
use zephyr_lang_rust.Blocking.Invariant.WorkerMoves.{
  StepsTo, branch, branch_option, quiet, serving_step,
}

module _ (env : Env) (m : Mem env) (fut : ℕ → FutPc) (p : WorkPc) where
  open env.kernel use {items}

  module _ {work : ℕ → WorkPc} (inv : Inv env m fut work) where
    open inv use {futures, workers, queue, one_holder, living}

    -- A worker receives slot `a`.
    step-recv :
        (a : ℕ) (r : List ℕ) (q : env.kernel.Q)
        → items m.queue ≡ a ∷ r
        → items q ≡ r
        → StepsTo env m fut p (record m { queue = q }, WorkPc.got a)
    step-recv a r q is rest = (
      some a,
      record {
        touches = record {
          slots_same = λ t n. (refl, refl, refl);
          queue_same = λ t n. ground arith;
        };
        own =
            let (one, active) = queue a (ground arith) in
            let (g, act, op) = active in (ground arith, (g, act.0.2, inl (act, op)));
        keeps = λ t k. ground arith;
        claims = λ t h. inr (ground arith);
        alive = λ h. refl;
        others = λ h away. (refl, refl);
        holders = λ t h d e fits.
            let (one, active) = queue a (ground arith) in
            let (g, act, op) = active in
            let at : held (fut h) ≡ some a = ground arith in
            let mine : h ≡ g = one_holder h g a at act.2 in
            FutFits-received env m (record m { queue = q }) h a (fut h) (ground arith)
              (rw mine act.1) at refl refl refl fits;
        queued = λ t d c. absurd (ground (arith, queue a));
      },
    )

    step-idle : p ≡ WorkPc.idle → StepsTo env m fut p (worker_step env m WorkPc.idle)
    unfolding worker_step
    step-idle e =
        branch m.started _ _
          (λ st. elim (found env.kernel m.queue from_forever 0) [
            | empty nothing got ↦
                let r : recv_item env m ≡ (m, WorkPc.idle) =
                  rw (got, recv_item) (rw env.kernel.expired_forever) in
                rw r (
                  quiet _ _ refl tt (λ s. (refl, refl, refl)) (λ s. refl) (λ h. (refl, refl, refl)))
            | first a r q is got rest ↦
                let s : recv_item env m ≡ (record m { queue = q }, WorkPc.got a) =
                  rw (got, recv_item) in
                rw s (step-recv a r q is rest)
          ])
          (λ st. quiet _ _ refl tt (λ s. (refl, refl, refl)) (λ s. refl) (λ h. (refl, refl, refl)))

    step-got :
        (s : ℕ)
        → p ≡ WorkPc.got s
        → WorkFits env m fut p
        → StepsTo env m fut p (worker_step env m (WorkPc.got s))
    unfolding worker_step
    step-got s e h =
        branch_option (m.slots s).runner _ _ (λ n. absurd (ground arith))
          (λ f r.
            serving_step _ _ s (ground arith) (λ t k. ground arith) (ground arith) (λ t n. refl)
              (λ t. refl) (λ h. refl) (λ h n. (refl, refl)) (λ h d fits. fits) (ground arith))

    step-starting :
        (s f : ℕ)
        → p ≡ WorkPc.starting s f
        → WorkFits env m fut p
        → StepsTo env m fut p (worker_step env m (WorkPc.starting s f))
    unfolding worker_step
    step-starting s f e h =
        branch (is_orphaned (m.slots s).state) _ _
          (λ o.
            serving_step _ _ s (ground arith) (λ t k. ground arith) (ground arith) (λ t n. refl)
              (λ t. refl) (λ h. refl) (λ h n. (refl, refl)) (λ h d fits. fits) (ground arith))
          (λ o.
            branch (valid_shared env m s f) _ _
              (λ v.
                branch (m.op f) _ _
                  (λ op.
                    serving_step _ _ s (ground arith) (λ t k. ground arith) (ground arith)
                      (λ t n. refl) (λ t. refl) (λ h. refl) (λ g n. (ground arith, refl))
                      (λ g d fits.
                        let mine : g ≡ f = ground (arith, one_holder g f s) in
                        FutFits-served env m (record m { op = update m.op f false }) g s (fut g)
                          (ground arith) d (ground arith) (λ q. inl q) refl fits)
                      (ground arith))
                  (λ op. absurd (ground arith)))
              (λ v. absurd (ground (arith, living f))))

    step-finished :
        (s f r : ℕ)
        → p ≡ WorkPc.finished s f r
        → WorkFits env m fut p
        → StepsTo env m fut p (worker_step env m (WorkPc.finished s f r))
    unfolding worker_step
    step-finished s f r e h =
        branch (is_orphaned (m.slots s).state) _ _
          (λ o.
            serving_step _ _ s (ground arith) (λ t k. ground arith) (ground arith) (λ t n. refl)
              (λ t. refl) (λ h. refl) (λ h n. (refl, refl)) (λ h d fits. fits) (ground arith))
          (λ o.
            branch (valid_shared env m s f) _ _
              (λ v.
                serving_step _ _ s (ground arith) (λ t k. absurd (cc)) tt (λ t n. ground arith)
                  (λ t. refl) (λ h. refl) (λ g n. (refl, ground arith))
                  (λ g d fits.
                    let mine : g ≡ f = ground (arith, one_holder g f s) in
                    FutFits-served env m
                      (record (set_state env m s SlotState.done) {
                        result = update m.result f (some r);
                      })
                      g s (fut g) (ground arith) d (ground arith) (λ q. inr (ground arith)) refl
                      fits)
                  (ground arith))
              (λ v. absurd (ground (arith, living f))))

    step-running :
        (s f : ℕ)
        → p ≡ WorkPc.running s f
        → WorkFits env m fut p
        → StepsTo env m fut p (worker_step env m (WorkPc.running s f))
    unfolding worker_step
    step-running s f e h =
        serving_step _ _ s (ground arith) (λ t k. ground arith) (ground arith) (λ t n. refl)
          (λ t. refl) (λ h. refl) (λ h n. (refl, refl)) (λ h d fits. fits) (ground arith)

    step-waking : (s : ℕ) → StepsTo env m fut p (worker_step env m (WorkPc.waking s))
    unfolding worker_step
    step-waking s =
        quiet _ _ refl tt (λ t. (ground arith, ground arith, ground arith)) (λ t. refl)
          (λ h. (refl, refl, refl))

    -- No future holds a slot that is orphaned.
    step-releasing :
        (s : ℕ)
        → p ≡ WorkPc.releasing s
        → WorkFits env m fut p
        → StepsTo env m fut p (worker_step env m (WorkPc.releasing s))
    unfolding worker_step
    step-releasing s e h =
        serving_step _ _ s (ground arith) (λ t k. absurd (cc)) tt (λ t n. ground arith) (λ t. refl)
          (λ h. refl) (λ h n. (refl, refl))
          (λ g d fits. absurd (held_not_orphaned env m g (fut g) s d fits (ground arith)))
          (ground arith)

    step-notifying : StepsTo env m fut p (worker_step env m WorkPc.notifying)
    unfolding worker_step release_wake
    step-notifying =
        branch_option (release_wake env m) _ _
          (λ n. quiet _ _ refl tt (λ t. (refl, refl, refl)) (λ t. refl) (λ h. (refl, refl, refl)))
          (λ m' r. quiet _ _ refl tt (λ t. ground arith) (λ t. ground arith) (λ h. ground arith))

    step-any :
        (q : WorkPc) → p ≡ q → WorkFits env m fut p → StepsTo env m fut p (worker_step env m q)
    step-any WorkPc.idle e h = step-idle e
    step-any (WorkPc.got s) e h = step-got s e h
    step-any (WorkPc.starting s f) e h = step-starting s f e h
    step-any (WorkPc.running s f) e h = step-running s f e h
    step-any (WorkPc.finished s f r) e h = step-finished s f r e h
    step-any (WorkPc.waking s) e h = step-waking s
    step-any (WorkPc.releasing s) e h = step-releasing s e h
    step-any WorkPc.notifying e h = step-notifying
    step-any WorkPc.panicked e h = absurd (rw e at h)
    step-any WorkPc.corrupt e h = absurd (rw e at h)

    -- Every step of a worker keeps the invariant.
    pub worker_step-Inv :
        (w : ℕ)
        → work w ≡ p
        → Inv env (worker_step env m p).0 fut (update work w (worker_step env m p).1)
    worker_step-Inv w at =
        Moves-Inv env m _ fut p _ _ w at inv (step-any p refl (rw at at (workers w))).1
