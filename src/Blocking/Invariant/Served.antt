-- ===== src/Blocking/Invariant/Served.antt =====
-- The facts of a worker about the slot that it serves, carried over a step of another thread.
use zephyr_lang_rust.Prelude.{ℕ, ◌<◌, ◌≡◌, ◌≢◌, ◌⊎◌, inl, inr, true, some, count, arith}
use zephyr_lang_rust.Blocking.Slot.{SlotState, Env, Mem, FutPc, WorkPc}
use zephyr_lang_rust.Blocking.Invariant.Defs.{
  held, served, submitted, Queued, Finished, FutFits, WorkFits, Active, Orphaned,
}

module _ (env : Env) where
  abbrev pub Serves : Mem env → (ℕ → FutPc) → ℕ → Type 0
  Serves m fut s =
      (count s (env.kernel.items m.queue) ≡ 0)
      × (((g : ℕ) × Active env m fut s g) ⊎ Orphaned env m s)

  serves :
      (m : Mem env) (fut : ℕ → FutPc) (t s g : ℕ)
      → some t ≡ some s
      → count t (env.kernel.items m.queue) ≡ 0
      → Active env m fut t g ⊎ Orphaned env m t
      → Serves m fut s
  serves m fut t s g e c a =
      let q : t ≡ s = ground arith in
      rw (← q) (elim a [ inl x ↦ (c, inl (g, x)) | inr o ↦ (c, inr o) ])

  -- What every worker knows of the slot that it serves.
  pub serving :
      (m : Mem env) (fut : ℕ → FutPc) (w : WorkPc) (s : ℕ)
      → served w ≡ some s
      → WorkFits env m fut w
      → Serves m fut s
  serving m fut (WorkPc.got t) s e h = serves m fut t s h.1.0 e h.0 (ground arith)
  serving m fut (WorkPc.starting t g) s e h = serves m fut t s g e h.0 (ground arith)
  serving m fut (WorkPc.running t g) s e h = serves m fut t s g e h.0 h.1
  serving m fut (WorkPc.finished t g r) s e h = serves m fut t s g e h.0 h.1
  serving m fut (WorkPc.releasing t) s e h = serves m fut t s 0 e h.0 (inr h.1)
  serving m fut w s e h = absurd (cc)

  pub WorkFits-map :
      (m m' : Mem env) (fut fut' : ℕ → FutPc) (s : ℕ)
      → ((g : ℕ)
          → Active env m fut s g
          → (Active env m' fut' s g × (m'.op g ≡ m.op g)) ⊎ Orphaned env m' s)
      → (Orphaned env m s → Orphaned env m' s)
      → (count s (env.kernel.items m.queue) ≡ 0 → count s (env.kernel.items m'.queue) ≡ 0)
      → (m'.slots s).runner ≡ (m.slots s).runner
      → (w : WorkPc) → served w ≡ some s
      → WorkFits env m fut w
      → WorkFits env m' fut' w
  WorkFits-map m m' fut fut' s act orph cnt run (WorkPc.got t) e h = ground (arith, act h.1.0)
  WorkFits-map m m' fut fut' s act orph cnt run (WorkPc.starting t g) e h = ground (arith, act g)
  WorkFits-map m m' fut fut' s act orph cnt run (WorkPc.running t g) e h = ground (arith, act g)
  WorkFits-map m m' fut fut' s act orph cnt run (WorkPc.finished t g r) e h = ground (arith, act g)
  WorkFits-map m m' fut fut' s act orph cnt run (WorkPc.releasing t) e h = ground arith
  WorkFits-map m m' fut fut' s act orph cnt run w e h = absurd (cc)

  -- The facts of the future whose slot is served, over a step of the worker.
  pub FutFits-served :
      (m m' : Mem env) (g s : ℕ) (q : FutPc)
      → submitted q ≡ true
      → held q ≡ some s
      → (m.slots s).state ≡ SlotState.queued
      → (Queued env m s g → Queued env m' s g ⊎ Finished env m' s g)
      → m'.queue ≡ m.queue
      → FutFits env m g q
      → FutFits env m' g q
  FutFits-served m m' g s (FutPc.waiting t) sub e st step same h = ground arith
  FutFits-served m m' g s (FutPc.checking t) sub e st step same h = ground arith
  FutFits-served m m' g s (FutPc.cancelling t) sub e st step same h = ground arith
  FutFits-served m m' g s q sub e st step same h = absurd (cc)

  -- A future that holds a slot that a worker takes out of the queue.
  pub FutFits-received :
      (m m' : Mem env) (g s : ℕ) (q : FutPc)
      → 0 < count s (env.kernel.items m.queue)
      → submitted q ≡ true
      → held q ≡ some s
      → m'.slots ≡ m.slots
      → m'.op ≡ m.op
      → m'.result ≡ m.result
      → FutFits env m g q
      → FutFits env m' g q
  FutFits-received m m' g s (FutPc.waiting t) c sub e sl o r h = ground arith
  FutFits-received m m' g s (FutPc.checking t) c sub e sl o r h = ground arith
  FutFits-received m m' g s (FutPc.cancelling t) c sub e sl o r h = absurd (ground arith)
  FutFits-received m m' g s q c sub e sl o r h = absurd (cc)

  pub held_not_orphaned :
      (m : Mem env) (g : ℕ) (p : FutPc) (s : ℕ)
      → held p ≡ some s
      → FutFits env m g p
      → (m.slots s).state ≢ SlotState.orphaned
  held_not_orphaned m g (FutPc.claimed t) s e h = ground arith
  held_not_orphaned m g p s e h = ground arith
