-- ===== src/Blocking/Invariant/FutureFacts.antt =====
-- What the invariant says of the future that moves.
use zephyr_lang_rust.Prelude.{ℕ, ◌≡◌, ◌≢◌, not, some, count, arith}
use zephyr_lang_rust.Blocking.Slot.{SlotState, Env, Mem, FutPc, WorkPc}
use zephyr_lang_rust.Blocking.Invariant.Defs.{served, is_gone, FutFits, WorkFits, Inv}
use zephyr_lang_rust.Blocking.Invariant.Served.{serving}

module _ (env : Env) (m : Mem env) (fut : ℕ → FutPc) (f : ℕ) where
  module _ {work : ℕ → WorkPc} (inv : Inv env m fut work) where
    open inv use {futures, workers, queue, living}

    -- What the invariant says of the future that moves.
    pub own_fits : (p : FutPc) → fut f ≡ p → FutFits env m f p
    own_fits p e = rw e at (futures f)

    pub own_alive : (p : FutPc) → fut f ≡ p → m.alive f ≡ not (is_gone p)
    own_alive p e = rw e at (living f)

    -- A slot that is not queued or orphaned has no worker, and is not in the queue.
    pub unserved :
        (s : ℕ)
        → (m.slots s).state ≢ SlotState.queued
        → (m.slots s).state ≢ SlotState.orphaned
        → ((w : WorkPc) → served w ≡ some s → WorkFits env m fut w → ⊥)
          × (count s (env.kernel.items m.queue) ≡ 0)
    unserved s n o = (λ w sv h. ground (arith, serving env m fut w s sv h), ground (arith, queue s))
