-- ===== src/Blocking/Invariant/Frame.antt =====
-- What a step that touches at most one slot leaves as it was.
use zephyr_lang_rust.Prelude.{ℕ, ◌≡◌, ◌≢◌, refl, Option, some, count, arith, ◌∙◌}
use zephyr_lang_rust.Blocking.Slot.{Env, Mem, FutPc, WorkPc}
use zephyr_lang_rust.Blocking.Invariant.Defs.{
  held, served, FutFits, WorkFits, QueueFits, Active, SlotSame, Touches,
}

module _ (env : Env) {m m' : Mem env} {T : Option ℕ} (touches : Touches env m m' T) where
  open touches use {slots_same, queue_same}

  untouched :
      (s : ℕ)
      → T ≢ some s
      → SlotSame env m m' s
        × (count s (env.kernel.items m'.queue) ≡ count s (env.kernel.items m.queue))
  untouched s n = (slots_same s n, queue_same s n)

  -- A future whose slot was not touched.
  pub FutFits-frame :
      (g : ℕ) (p : FutPc)
      → (m'.op g ≡ m.op g) × (m'.result g ≡ m.result g)
      → ((s : ℕ) → held p ≡ some s → T ≢ some s)
      → FutFits env m g p
      → FutFits env m' g p
  FutFits-frame g FutPc.fresh n t h = ground arith
  FutFits-frame g (FutPc.scanning i) n t h = ground arith
  FutFits-frame g (FutPc.claimed s) n t h = ground (arith, untouched s (t s refl))
  FutFits-frame g (FutPc.wired s) n t h = ground (arith, untouched s (t s refl))
  FutFits-frame g (FutPc.begun s) n t h = ground (arith, untouched s (t s refl))
  FutFits-frame g (FutPc.stored s) n t h = ground (arith, untouched s (t s refl))
  FutFits-frame g (FutPc.waiting s) n t h = ground (arith, untouched s (t s refl))
  FutFits-frame g (FutPc.checking s) n t h = ground (arith, untouched s (t s refl))
  FutFits-frame g (FutPc.cancelling s) n t h = ground (arith, untouched s (t s refl))
  FutFits-frame g (FutPc.taking s) n t h = ground (arith, untouched s (t s refl))
  FutFits-frame g (FutPc.took s r) n t h = ground (arith, untouched s (t s refl))
  FutFits-frame g (FutPc.giving s) n t h = ground (arith, untouched s (t s refl))
  FutFits-frame g (FutPc.told r) n t h = h
  FutFits-frame g (FutPc.ready r) n t h = h
  FutFits-frame g FutPc.panicked n t h = h
  FutFits-frame g p n t h = tt

  -- A worker, and the queue at a slot, that were not touched, where the futures that hold other
  -- slots are as they were.
  module _ {fut fut' : ℕ → FutPc}
      (kept : (s g : ℕ)
        → T ≢ some s
        → held (fut g) ≡ some s
        → (fut' g ≡ fut g) × (m'.op g ≡ m.op g)) where
    Active-frame :
        (s g : ℕ) → T ≢ some s → Active env m fut s g → Active env m' fut' s g × (m'.op g ≡ m.op g)
    Active-frame s g n a = ground (arith, untouched s n, kept s g n a.2)

    pub WorkFits-frame :
        (p : WorkPc)
        → ((s : ℕ) → served p ≡ some s → T ≢ some s)
        → WorkFits env m fut p
        → WorkFits env m' fut' p
    WorkFits-frame (WorkPc.got s) t h =
        ground (arith, untouched s (t s refl), Active-frame s h.1.0 (t s refl))
    WorkFits-frame (WorkPc.starting s g) t h =
        ground (arith, untouched s (t s refl), Active-frame s g (t s refl))
    WorkFits-frame (WorkPc.running s g) t h =
        ground (arith, untouched s (t s refl), Active-frame s g (t s refl))
    WorkFits-frame (WorkPc.finished s g r) t h =
        ground (arith, untouched s (t s refl), Active-frame s g (t s refl))
    WorkFits-frame (WorkPc.releasing s) t h = ground (arith, untouched s (t s refl))
    WorkFits-frame WorkPc.panicked t h = h
    WorkFits-frame WorkPc.corrupt t h = h
    WorkFits-frame p t h = tt

    pub QueueFits-frame : (s : ℕ) → T ≢ some s → QueueFits env m fut s → QueueFits env m' fut' s
    QueueFits-frame s n q c =
        let (one, active) = q (ground (arith, untouched s n)) in
        let (g, a, o) = active in
        let (a', o') = Active-frame s g n a in (ground (arith, untouched s n), (g, a', o' ∙ o))
