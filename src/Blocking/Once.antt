-- ===== src/Blocking/Once.antt =====
-- How often the closure of a future is run.
use zephyr_lang_rust.Prelude.{
  ℕ, ◌+◌, ◌≤◌, ◌≡◌, refl, Bool, true, false, List, [], ◌∷◌, arith, ◌==◌, if◌then◌else◌,
}
use zephyr_lang_rust.Blocking.Slot.{Env, Mem, FutPc, WorkPc}
use zephyr_lang_rust.Blocking.Future.{Act, poll, drop, future_step}
use zephyr_lang_rust.Blocking.Worker.{recv_item, worker_step}
use zephyr_lang_rust.Blocking.System.{System, Choice, future, worker, init, step}

-- A worker has just begun to run the closure of future `f`.
abbrev pub is_running : ℕ → WorkPc → Bool
is_running f (WorkPc.running s g) = g == f
is_running f _ = false

abbrev flag : Bool → ℕ
flag b = if b then 1 else 0

module _ (env : Env) (f : ℕ) where
  -- Whether the step `c` begins to run the closure of `f`.
  unfoldable pub begins : System env → Choice → ℕ
  unfolding step
  begins s (future g a) = 0
  begins s (worker w) = flag (is_running f ((step env s (worker w)).work w))

  -- How often the choices begin to run the closure of `f`.
  unfoldable pub times_run : System env → List Choice → ℕ
  unfolding begins
  times_run s [] = 0
  times_run s (c ∷ cs) = begins s c + times_run (step env s c) cs

  abbrev Bounded : Mem env → Mem env × WorkPc → Type 0
  Bounded m x = flag (is_running f x.1) + flag (x.0.op f) ≤ flag (m.op f)

  branch :
      (m : Mem env) (b : Bool) (x y : Mem env × WorkPc)
      → (b ≡ true → Bounded m x)
      → (b ≡ false → Bounded m y)
      → Bounded m (if b then x else y)
  branch m true x y h k = h refl
  branch m false x y h k = k refl

  future_step-op :
      (m : Mem env) (g : ℕ) (p : FutPc) (a : Act) → (future_step env m g p a).0.op ≡ m.op
  unfolding future_step
  future_step-op m g FutPc.fresh poll = ground arith
  future_step-op m g FutPc.fresh drop = refl
  future_step-op m g (FutPc.scanning i) a = ground arith
  future_step-op m g (FutPc.claimed s) a = refl
  future_step-op m g (FutPc.wired s) a = refl
  future_step-op m g (FutPc.begun s) a = refl
  future_step-op m g (FutPc.stored s) a = refl
  future_step-op m g (FutPc.waiting s) poll = refl
  future_step-op m g (FutPc.waiting s) drop = ground arith
  future_step-op m g (FutPc.checking s) a = ground arith
  future_step-op m g (FutPc.taking s) a = ground arith
  future_step-op m g (FutPc.took s r) a = refl
  future_step-op m g (FutPc.told r) a = ground arith
  future_step-op m g (FutPc.ready r) poll = refl
  future_step-op m g (FutPc.ready r) drop = refl
  future_step-op m g (FutPc.cancelling s) a = ground arith
  future_step-op m g (FutPc.giving s) a = refl
  future_step-op m g FutPc.telling a = ground arith
  future_step-op m g FutPc.gone a = refl
  future_step-op m g FutPc.panicked a = refl

  recv_item-op :
      (m : Mem env) → ((recv_item env m).0.op ≡ m.op) × (is_running f (recv_item env m).1 ≡ false)
  unfolding recv_item
  recv_item-op m = ground arith

  worker_step-op : (m : Mem env) (p : WorkPc) → Bounded m (worker_step env m p)
  unfolding worker_step
  worker_step-op m WorkPc.idle = ground (arith, recv_item-op m)
  worker_step-op m (WorkPc.got s) = ground arith
  worker_step-op m (WorkPc.starting s g) = ground arith
  worker_step-op m (WorkPc.running s g) = ground arith
  worker_step-op m (WorkPc.finished s g r) = ground arith
  worker_step-op m (WorkPc.waking s) = ground arith
  worker_step-op m (WorkPc.releasing s) = ground arith
  worker_step-op m WorkPc.notifying = ground arith
  worker_step-op m WorkPc.panicked = ground arith
  worker_step-op m WorkPc.corrupt = ground arith

  begins-op :
      (s : System env) (c : Choice)
      → begins s c + flag ((step env s c).mem.op f) ≤ flag (s.mem.op f)
  unfolding begins
  begins-op s (future g a) = rw (future_step-op s.mem g (s.fut g) a) (ground arith)
  begins-op s (worker w) = ground (arith, worker_step-op s.mem (s.work w))

  -- From any state, the closure of a future is begun once at most, and not at all if it is taken.
  pub times_run-op : (cs : List Choice) (s : System env) → times_run s cs ≤ flag (s.mem.op f)
  unfolding times_run
  times_run-op [] s = ground arith
  times_run-op (c ∷ cs) s = omega (arith, begins-op s c, times_run-op cs (step env s c))

  -- Whatever the interleaving, the closure of a future is run once at most.
  pub run-once : (cs : List Choice) → times_run (init env) cs ≤ 1
  unfolding init
  run-once cs = ground (arith, times_run-op cs (init env))
