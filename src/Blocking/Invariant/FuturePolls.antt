-- ===== src/Blocking/Invariant/FuturePolls.antt =====
-- Each step of a future that is polled, until it waits, moves as `Futures` wants it.
use zephyr_lang_rust.Prelude.{ℕ, ◌≡◌, inl, inr, refl, some, arith, ltb}
use zephyr_lang_rust.Queue.Counts.{count-send}
use zephyr_lang_rust.Blocking.Slot.{Env, Mem, FutPc, WorkPc, is_free, is_done}
use zephyr_lang_rust.Blocking.Future.{Act, poll, drop, future_step}
use zephyr_lang_rust.Blocking.Invariant.Defs.{Inv}
use zephyr_lang_rust.Blocking.Invariant.Served.{serving}
use zephyr_lang_rust.Blocking.Invariant.FutureMoves.{
  Steps, branch, branch_result, quiet, calm, Local-at, private_step, shared_step,
}
use zephyr_lang_rust.Blocking.Invariant.FutureFacts.{own_fits, own_alive, unserved}

module _ (env : Env) (m : Mem env) (fut : ℕ → FutPc) (f : ℕ) where
  module _ {work : ℕ → WorkPc} (inv : Inv env m fut work) where
    open inv use {futures, workers, queue, living}

    pub step-fresh : (a : Act) → fut f ≡ FutPc.fresh → Steps env m fut f FutPc.fresh a
    unfolding future_step
    step-fresh poll e =
        branch env m fut f m.locked _ _
          (λ l.
            quiet env m fut f _ _ (ground arith) refl
              (calm env m fut f _ refl refl refl refl (λ g n. refl)) (own_fits env m fut f inv _ e)
              (own_alive env m fut f inv _ e))
          (λ l.
            quiet env m fut f _ _ (ground arith) refl
              (calm env m fut f _ refl refl refl refl (λ g n. refl)) (own_fits env m fut f inv _ e)
              (own_alive env m fut f inv _ e))
    step-fresh drop e =
        quiet env m fut f _ _ (ground arith) refl
          (calm env m fut f _ refl refl refl refl (λ g n. ground arith)) tt (ground arith)

    pub step-scanning :
        (i : ℕ) (a : Act) → fut f ≡ FutPc.scanning i → Steps env m fut f (FutPc.scanning i) a
    unfolding future_step
    step-scanning i a e =
        branch env m fut f (ltb i env.slot_count) _ _
          (λ l.
            branch env m fut f (is_free (m.slots i).state) _ _
              (λ fr. (
                some i,
                record {
                  local =
                      Local-at env m fut f _ i (λ t n. ground arith) (λ t n. refl) (λ g n. refl)
                        (λ g n. refl) (λ g n. refl);
                  own = ground (arith, own_fits env m fut f inv _ e);
                  claims = λ s t. inr (ground arith);
                  keeps = λ s k. ground arith;
                  holds = λ s h. ground arith;
                  alive = own_alive env m fut f inv _ e;
                  servers = λ s w t sv h. absurd (ground (arith, serving env m fut w s sv h));
                  queued = λ s t q c. absurd (ground (arith, q));
                },
              ))
              (λ n.
                quiet env m fut f _ _ (ground arith) refl
                  (calm env m fut f _ refl refl refl refl (λ g n. refl))
                  (own_fits env m fut f inv _ e) (own_alive env m fut f inv _ e)))
          (λ l.
            quiet env m fut f _ _ (ground arith) refl
              (calm env m fut f _ refl refl refl refl (λ g n. refl)) (own_fits env m fut f inv _ e)
              (own_alive env m fut f inv _ e))

    pub step-claimed :
        (s : ℕ) (a : Act) → fut f ≡ FutPc.claimed s → Steps env m fut f (FutPc.claimed s) a
    unfolding future_step
    step-claimed s a e =
        let (noone, unqueued) =
          unserved env m fut f inv s (ground (arith, own_fits env m fut f inv _ e))
            (ground (arith, own_fits env m fut f inv _ e)) in
        private_step env m fut f _ _ s (ground arith) (inl refl)
          (Local-at env m fut f _ s (λ t n. ground arith) (λ t n. refl) (λ g n. refl) (λ g n. refl)
            (λ g n. refl))
          (ground (arith, own_fits env m fut f inv _ e)) (own_alive env m fut f inv _ e) noone
          (ground arith)

    pub step-wired : (s : ℕ) (a : Act) → fut f ≡ FutPc.wired s → Steps env m fut f (FutPc.wired s) a
    unfolding future_step
    step-wired s a e =
        let (noone, unqueued) =
          unserved env m fut f inv s (ground (arith, own_fits env m fut f inv _ e))
            (ground (arith, own_fits env m fut f inv _ e)) in
        private_step env m fut f _ _ s (ground arith) (inl refl)
          (Local-at env m fut f _ s (λ t n. ground arith) (λ t n. refl) (λ g n. refl) (λ g n. refl)
            (λ g n. refl))
          (ground (arith, own_fits env m fut f inv _ e)) (own_alive env m fut f inv _ e) noone
          (ground arith)

    pub step-begun : (s : ℕ) (a : Act) → fut f ≡ FutPc.begun s → Steps env m fut f (FutPc.begun s) a
    unfolding future_step
    step-begun s a e =
        let (noone, unqueued) =
          unserved env m fut f inv s (ground (arith, own_fits env m fut f inv _ e))
            (ground (arith, own_fits env m fut f inv _ e)) in
        private_step env m fut f _ _ s (ground arith) (inl refl)
          (Local-at env m fut f _ s (λ t n. ground arith) (λ t n. refl) (λ g n. refl) (λ g n. refl)
            (λ g n. refl))
          (ground (arith, own_fits env m fut f inv _ e)) (own_alive env m fut f inv _ e) noone
          (ground arith)

    pub step-stored :
        (s : ℕ) (a : Act) → fut f ≡ FutPc.stored s → Steps env m fut f (FutPc.stored s) a
    unfolding future_step
    step-stored s a e =
        private_step env m fut f _ _ s (ground arith) (inl refl)
          (Local-at env m fut f _ s (λ t n. refl)
            (λ t n. ground (arith, count-send env.kernel m.queue s t)) (λ g n. refl) (λ g n. refl)
            (λ g n. refl))
          (ground (arith, own_fits env m fut f inv _ e)) (own_alive env m fut f inv _ e)
          (λ w sv h. ground (arith, serving env m fut w s sv h, own_fits env m fut f inv _ e))
          (λ c. (
            ground
                (arith, own_fits env m fut f inv _ e, queue s, count-send env.kernel m.queue s s),
            (
              f,
              ground (arith, own_fits env m fut f inv _ e),
              ground (arith, own_fits env m fut f inv _ e),
            ),
          ))

    pub step-checking :
        (s : ℕ) (a : Act) → fut f ≡ FutPc.checking s → Steps env m fut f (FutPc.checking s) a
    unfolding future_step
    step-checking s a e =
        branch env m fut f (is_done (m.slots s).state) _ _
          (λ d.
            private_step env m fut f _ _ s (ground arith) (inl refl)
              (Local-at env m fut f _ s (λ t n. refl) (λ t n. refl) (λ g n. refl) (λ g n. refl)
                (λ g n. refl))
              (ground (arith, own_fits env m fut f inv _ e)) (own_alive env m fut f inv _ e)
              (unserved env m fut f inv s (ground arith) (ground arith)).0
              (λ c. absurd (ground (arith, queue s))))
          (λ d.
            shared_step env m fut f _ _ s (ground arith) refl refl
              (Local-at env m fut f _ s (λ t n. refl) (λ t n. refl) (λ g n. refl) (λ g n. refl)
                (λ g n. refl))
              (own_fits env m fut f inv _ e) (own_alive env m fut f inv _ e)
              (refl, refl, refl, refl) (λ c. c) (λ q c. ground (arith, q)))

    pub step-taking :
        (s : ℕ) (a : Act) → fut f ≡ FutPc.taking s → Steps env m fut f (FutPc.taking s) a
    unfolding future_step
    step-taking s a e =
        let own = own_fits env m fut f inv _ e in
        let (noone, unqueued) =
          unserved env m fut f inv s (ground (arith, own)) (ground (arith, own)) in
        branch_result env m fut f (m.result f) _ _ (λ n. absurd (ground (arith, own)))
          (λ r h.
            private_step env m fut f _ _ s (ground arith) (inl refl)
              (Local-at env m fut f _ s (λ t n. refl) (λ t n. refl) (λ g n. refl)
                (λ g n. ground arith) (λ g n. refl))
              (ground (arith, own)) (own_alive env m fut f inv _ e) noone (ground arith))

    pub step-took :
        (s r : ℕ) (a : Act) → fut f ≡ FutPc.took s r → Steps env m fut f (FutPc.took s r) a
    unfolding future_step
    step-took s r a e =
        let (noone, unqueued) =
          unserved env m fut f inv s (ground (arith, own_fits env m fut f inv _ e))
            (ground (arith, own_fits env m fut f inv _ e)) in
        private_step env m fut f _ _ s (ground arith) (inr refl)
          (Local-at env m fut f _ s (λ t n. ground arith) (λ t n. refl) (λ g n. refl) (λ g n. refl)
            (λ g n. refl))
          (ground (arith, own_fits env m fut f inv _ e)) (own_alive env m fut f inv _ e) noone
          (ground arith)
