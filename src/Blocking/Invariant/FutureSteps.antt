-- ===== src/Blocking/Invariant/FutureSteps.antt =====
-- Each other step of a future moves as `Futures` wants it, and every step keeps the invariant.
use zephyr_lang_rust.Prelude.{ℕ, ◌≡◌, inl, inr, refl, none, some, arith}
use zephyr_lang_rust.Queue
use zephyr_lang_rust.Queue.Counts.{count-remove, remove-count}
use zephyr_lang_rust.Blocking.Slot.{SlotState, Env, Mem, FutPc, WorkPc, update, is_done}
use zephyr_lang_rust.Blocking.Future.{Act, poll, drop, release_wake, free_future, future_step}
use zephyr_lang_rust.Blocking.Invariant.Defs.{Inv}
use zephyr_lang_rust.Blocking.Invariant.Served.{serving, WorkFits-map}
use zephyr_lang_rust.Blocking.Invariant.Futures.{Moves-Inv}
use zephyr_lang_rust.Blocking.Invariant.FutureMoves.{
  Steps, branch, branch_option, quiet, calm, Local-at, private_step, shared_step,
}
use zephyr_lang_rust.Blocking.Invariant.FutureFacts.{own_fits, own_alive, unserved}
use zephyr_lang_rust.Blocking.Invariant.FuturePolls.{
  step-fresh, step-scanning, step-claimed, step-wired, step-begun, step-stored, step-checking,
  step-taking, step-took,
}

module _ (env : Env) (m : Mem env) (fut : ℕ → FutPc) (f : ℕ) where
  module _ {work : ℕ → WorkPc} (inv : Inv env m fut work) where
    open inv use {futures, workers, queue, living}

    step-waiting :
        (s : ℕ) (a : Act) → fut f ≡ FutPc.waiting s → Steps env m fut f (FutPc.waiting s) a
    unfolding future_step
    step-waiting s poll e =
        shared_step env m fut f _ _ s (ground arith) refl refl
          (Local-at env m fut f _ s (λ t n. ground arith) (λ t n. refl) (λ g n. refl) (λ g n. refl)
            (λ g n. refl))
          (ground (arith, own_fits env m fut f inv _ e)) (own_alive env m fut f inv _ e)
          (ground arith, ground arith, ground arith, refl) (λ c. c) (λ q c. ground (arith, q))
    step-waiting s drop e =
        let counts = λ (t : ℕ). count-remove env.kernel m.queue s t in
        let found = remove-count env.kernel m.queue s in
        branch env m fut f (Queue.remove env.kernel m.queue s).0 _ _
          (λ r.
            private_step env m fut f _ _ s (ground arith) (inl refl)
              (Local-at env m fut f _ s (λ t n. refl) (λ t n. ground (arith, counts t))
                (λ g n. refl) (λ g n. refl) (λ g n. refl))
              (ground (arith, own_fits env m fut f inv _ e, counts s, found, queue s))
              (own_alive env m fut f inv _ e)
              (λ w sv h. ground (arith, serving env m fut w s sv h, found))
              (λ c. absurd (ground (arith, counts s, queue s))))
          (λ r.
            shared_step env m fut f _ _ s (ground arith) refl refl
              (Local-at env m fut f _ s (λ t n. refl) (λ t n. ground (arith, counts t))
                (λ g n. refl) (λ g n. refl) (λ g n. refl))
              (ground (arith, own_fits env m fut f inv _ e, counts s, found))
              (own_alive env m fut f inv _ e) (refl, refl, refl, refl)
              (λ c. ground (arith, counts s)) (λ q c. absurd (ground (arith, counts s, found))))

    step-cancelling :
        (s : ℕ) (a : Act) → fut f ≡ FutPc.cancelling s → Steps env m fut f (FutPc.cancelling s) a
    unfolding future_step
    step-cancelling s a e =
        branch env m fut f (is_done (m.slots s).state) _ _
          (λ d.
            private_step env m fut f _ _ s (ground arith) (inl refl)
              (Local-at env m fut f _ s (λ t n. refl) (λ t n. refl) (λ g n. refl) (λ g n. refl)
                (λ g n. refl))
              (ground (arith, own_fits env m fut f inv _ e)) (own_alive env m fut f inv _ e)
              (unserved env m fut f inv s (ground arith) (ground arith)).0
              (λ c. absurd (ground (arith, queue s))))
          (λ d.
            let m' : Mem env =
              free_future env
                (record m {
                  slots = update m.slots s (
                      let slot = m.slots s in
                      record slot { shared = none; state = SlotState.orphaned });
                })
                f in
            (
              some s,
              record {
                local =
                    Local-at env m fut f _ s (λ t n. ground arith) (λ t n. refl) (λ g n. refl)
                      (λ g n. refl) (λ g n. ground arith);
                own = tt;
                claims = λ t h. inl (ground arith);
                keeps = λ t k. absurd (cc);
                holds = λ t k. ground arith;
                alive = ground arith;
                servers = λ t w h sv k.
                    let same : s ≡ t = ground arith in
                    WorkFits-map env m m' fut (update fut f FutPc.gone) t
                      (λ g act. inr (ground arith)) (λ o. ground arith) (λ c. c) (ground arith) w sv
                      k;
                queued = λ t h q c. absurd (ground (arith, own_fits env m fut f inv _ e));
              },
            ))

    step-giving : (s : ℕ) (a : Act) → fut f ≡ FutPc.giving s → Steps env m fut f (FutPc.giving s) a
    unfolding future_step
    step-giving s a e =
        private_step env m fut f _ _ s (ground arith) (inr refl)
          (Local-at env m fut f _ s (λ t n. ground arith) (λ t n. refl) (λ g n. refl) (λ g n. refl)
            (λ g n. refl))
          tt (own_alive env m fut f inv _ e)
          (λ w sv h. ground (arith, own_fits env m fut f inv _ e, serving env m fut w s sv h))
          (λ c. absurd (ground (arith, own_fits env m fut f inv _ e)))

    step-told : (r : ℕ) (a : Act) → fut f ≡ FutPc.told r → Steps env m fut f (FutPc.told r) a
    unfolding future_step
    step-told r a e =
        branch_option env m fut f (release_wake env m) _ _
          (quiet env m fut f _ _ (ground arith) refl
            (calm env m fut f _ refl refl refl refl (λ g n. refl)) (own_fits env m fut f inv _ e)
            (own_alive env m fut f inv _ e))
          (λ m' h.
            quiet env m fut f _ _ (ground arith) refl
              (calm env m fut f _ (ground arith) (ground arith) (ground arith) (ground arith)
                (λ g n. ground arith))
              (own_fits env m fut f inv _ e) (ground (arith, own_alive env m fut f inv _ e)))

    step-telling : (a : Act) → fut f ≡ FutPc.telling → Steps env m fut f FutPc.telling a
    unfolding future_step
    step-telling a e =
        branch_option env m fut f (release_wake env m) _ _
          (quiet env m fut f _ _ (ground arith) refl
            (calm env m fut f _ refl refl refl refl (λ g n. refl)) tt
            (own_alive env m fut f inv _ e))
          (λ m' h.
            quiet env m fut f _ _ (ground arith) refl
              (calm env m fut f _ (ground arith) (ground arith) (ground arith) (ground arith)
                (λ g n. ground arith))
              tt (ground arith))

    step-ready : (r : ℕ) (a : Act) → fut f ≡ FutPc.ready r → Steps env m fut f (FutPc.ready r) a
    unfolding future_step
    step-ready r poll e =
        quiet env m fut f _ _ (ground arith) refl
          (calm env m fut f _ refl refl refl refl (λ g n. refl)) (own_fits env m fut f inv _ e)
          (own_alive env m fut f inv _ e)
    step-ready r drop e =
        quiet env m fut f _ _ (ground arith) refl
          (calm env m fut f _ refl refl refl refl (λ g n. ground arith)) tt (ground arith)

    step-gone : (a : Act) → fut f ≡ FutPc.gone → Steps env m fut f FutPc.gone a
    unfolding future_step
    step-gone a e =
        quiet env m fut f _ _ (ground arith) refl
          (calm env m fut f _ refl refl refl refl (λ g n. refl)) tt (own_alive env m fut f inv _ e)

    step-any : (p : FutPc) (a : Act) → fut f ≡ p → Steps env m fut f p a
    step-any FutPc.fresh a e = step-fresh env m fut f inv a e
    step-any (FutPc.scanning i) a e = step-scanning env m fut f inv i a e
    step-any (FutPc.claimed s) a e = step-claimed env m fut f inv s a e
    step-any (FutPc.wired s) a e = step-wired env m fut f inv s a e
    step-any (FutPc.begun s) a e = step-begun env m fut f inv s a e
    step-any (FutPc.stored s) a e = step-stored env m fut f inv s a e
    step-any (FutPc.waiting s) a e = step-waiting s a e
    step-any (FutPc.checking s) a e = step-checking env m fut f inv s a e
    step-any (FutPc.taking s) a e = step-taking env m fut f inv s a e
    step-any (FutPc.took s r) a e = step-took env m fut f inv s r a e
    step-any (FutPc.told r) a e = step-told r a e
    step-any (FutPc.ready r) a e = step-ready r a e
    step-any (FutPc.cancelling s) a e = step-cancelling s a e
    step-any (FutPc.giving s) a e = step-giving s a e
    step-any FutPc.telling a e = step-telling a e
    step-any FutPc.gone a e = step-gone a e
    step-any FutPc.panicked a e = absurd (own_fits env m fut f inv _ e)

    -- Every step of a future keeps the invariant.
    pub future_step-Inv :
        (a : Act)
        → Inv env
            (future_step env m f (fut f) a).0
            (update fut f (future_step env m f (fut f) a).1)
            work
    future_step-Inv a = Moves-Inv env m _ fut f _ _ inv (step-any (fut f) a refl).1
