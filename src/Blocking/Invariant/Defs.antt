-- ===== src/Blocking/Invariant/Defs.antt =====
-- Who holds which slot, and what that says of the slot.
use zephyr_lang_rust.Prelude.{
  ℕ, ◌<◌, ◌≡◌, ◌≢◌, ◌⊎◌, Bool, true, false, not, Option, none, some, count,
}
use zephyr_lang_rust.Blocking.Slot.{SlotState, Env, Mem, FutPc, WorkPc}

-- The slot that a future, or a worker, holds.
abbrev pub held : FutPc → Option ℕ
held (FutPc.claimed s) = some s
held (FutPc.wired s) = some s
held (FutPc.begun s) = some s
held (FutPc.stored s) = some s
held (FutPc.waiting s) = some s
held (FutPc.checking s) = some s
held (FutPc.taking s) = some s
held (FutPc.took s r) = some s
held (FutPc.cancelling s) = some s
held (FutPc.giving s) = some s
held _ = none

abbrev pub served : WorkPc → Option ℕ
served (WorkPc.got s) = some s
served (WorkPc.starting s f) = some s
served (WorkPc.running s f) = some s
served (WorkPc.finished s f r) = some s
served (WorkPc.releasing s) = some s
served _ = none

-- A future whose slot a worker may be serving, or may yet receive.
abbrev pub submitted : FutPc → Bool
submitted (FutPc.waiting _) = true
submitted (FutPc.checking _) = true
submitted (FutPc.cancelling _) = true
submitted _ = false

abbrev pub is_gone : FutPc → Bool
is_gone FutPc.gone = true
is_gone _ = false

module _ (env : Env) where
  open env.kernel use {items}

  -- The slot is queued by future `f`, and points to it.
  abbrev pub Queued : Mem env → ℕ → ℕ → Type 0
  Queued m s f =
      ((m.slots s).state ≡ SlotState.queued)
      × ((m.slots s).shared ≡ some f)
      × ((m.slots s).runner ≡ some f)

  -- The slot is `Done`, with the value of future `f`.
  abbrev pub Finished : Mem env → ℕ → ℕ → Type 0
  Finished m s f = ((m.slots s).state ≡ SlotState.done) × (m.result f ≡ some (env.outcome f))

  -- What the place of future `f` says.
  abbrev pub FutFits : Mem env → ℕ → FutPc → Type 0
  FutFits m f FutPc.fresh = m.op f ≡ true
  FutFits m f (FutPc.scanning i) = m.op f ≡ true
  FutFits m f (FutPc.claimed s) = ((m.slots s).state ≡ SlotState.claimed) × (m.op f ≡ true)
  FutFits m f (FutPc.wired s) =
      ((m.slots s).state ≡ SlotState.claimed)
      × ((m.slots s).shared ≡ some f)
      × ((m.slots s).runner ≡ some f)
      × (m.op f ≡ true)
  FutFits m f (FutPc.begun s) =
      ((m.slots s).state ≡ SlotState.claimed)
      × ((m.slots s).shared ≡ some f)
      × ((m.slots s).runner ≡ some f)
      × (m.op f ≡ true)
  FutFits m f (FutPc.stored s) = Queued m s f × (m.op f ≡ true)
  FutFits m f (FutPc.waiting s) = Queued m s f ⊎ Finished m s f
  FutFits m f (FutPc.checking s) = Queued m s f ⊎ Finished m s f
  FutFits m f (FutPc.cancelling s) = (count s (items m.queue) ≡ 0) × (Queued m s f ⊎ Finished m s f)
  FutFits m f (FutPc.taking s) = Finished m s f
  FutFits m f (FutPc.took s r) = ((m.slots s).state ≡ SlotState.done) × (r ≡ env.outcome f)
  FutFits m f (FutPc.told r) = r ≡ env.outcome f
  FutFits m f (FutPc.ready r) = r ≡ env.outcome f
  FutFits m f (FutPc.giving s) =
      (count s (items m.queue) ≡ 0) × (Queued m s f ⊎ ((m.slots s).state ≡ SlotState.done))
  FutFits m f FutPc.panicked = ⊥
  FutFits m f _ = Unit

  -- Future `g` has submitted slot `s`, and has not been dropped.
  abbrev pub Active : Mem env → (ℕ → FutPc) → ℕ → ℕ → Type 0
  Active m fut s g = Queued m s g × (submitted (fut g) ≡ true) × (held (fut g) ≡ some s)

  abbrev pub Orphaned : Mem env → ℕ → Type 0
  Orphaned m s = (m.slots s).state ≡ SlotState.orphaned

  -- What the place of a worker says.
  abbrev pub WorkFits : Mem env → (ℕ → FutPc) → WorkPc → Type 0
  WorkFits m fut (WorkPc.got s) =
      (count s (items m.queue) ≡ 0)
      × ((g : ℕ) × ((m.slots s).runner ≡ some g)
          × ((Active m fut s g × (m.op g ≡ true)) ⊎ Orphaned m s))
  WorkFits m fut (WorkPc.starting s g) =
      (count s (items m.queue) ≡ 0) × ((Active m fut s g × (m.op g ≡ true)) ⊎ Orphaned m s)
  WorkFits m fut (WorkPc.running s g) =
      (count s (items m.queue) ≡ 0) × (Active m fut s g ⊎ Orphaned m s)
  WorkFits m fut (WorkPc.finished s g r) =
      (count s (items m.queue) ≡ 0) × (Active m fut s g ⊎ Orphaned m s) × (r ≡ env.outcome g)
  WorkFits m fut (WorkPc.releasing s) = (count s (items m.queue) ≡ 0) × Orphaned m s
  WorkFits m fut WorkPc.panicked = ⊥
  WorkFits m fut WorkPc.corrupt = ⊥
  WorkFits m fut _ = Unit

  -- A slot in the queue is there once, submitted by a future whose closure has not run.
  abbrev pub QueueFits : Mem env → (ℕ → FutPc) → ℕ → Type 0
  QueueFits m fut s =
      0 < count s (items m.queue)
      → (count s (items m.queue) ≡ 1) × ((g : ℕ) × Active m fut s g × (m.op g ≡ true))

  pub record Inv (m : Mem env) (fut : ℕ → FutPc) (work : ℕ → WorkPc) : Type 0 where
    pub futures : (f : ℕ) → FutFits m f (fut f)
    pub workers : (w : ℕ) → WorkFits m fut (work w)
    pub queue : (s : ℕ) → QueueFits m fut s
    pub one_holder : (f g s : ℕ) → held (fut f) ≡ some s → held (fut g) ≡ some s → f ≡ g
    pub one_server : (v w s : ℕ) → served (work v) ≡ some s → served (work w) ≡ some s → v ≡ w
    pub living : (f : ℕ) → m.alive f ≡ not (is_gone (fut f))

  -- A slot is as it was, its waker aside.
  abbrev pub SlotSame : Mem env → Mem env → ℕ → Type 0
  SlotSame m m' s =
      ((m'.slots s).state ≡ (m.slots s).state)
      × ((m'.slots s).shared ≡ (m.slots s).shared)
      × ((m'.slots s).runner ≡ (m.slots s).runner)

  -- A step that touches at most the slot `T`.
  pub record Touches (m m' : Mem env) (T : Option ℕ) : Type 0 where
    pub slots_same : (s : ℕ) → T ≢ some s → SlotSame m m' s
    pub queue_same : (s : ℕ) → T ≢ some s → count s (items m'.queue) ≡ count s (items m.queue)

  -- A step that touches at most the slot `T` and the future `f`.
  pub record Local (m m' : Mem env) (f : ℕ) (T : Option ℕ) : Type 0 where
    pub touches : Touches m m' T
    pub op_same : (g : ℕ) → g ≢ f → m'.op g ≡ m.op g
    pub result_same : (g : ℕ) → g ≢ f → m'.result g ≡ m.result g
    pub alive_same : (g : ℕ) → g ≢ f → m'.alive g ≡ m.alive g
