-- ===== src/Blocking/Safety.antt =====
-- What holds in every state that the pool reaches, under any interleaving of the steps of the
-- futures and of the workers.
use zephyr_lang_rust.Prelude.{ℕ, ◌≤◌, ◌≡◌, ◌≢◌, refl, some, List, [], ◌∷◌, count, arith}
use zephyr_lang_rust.Blocking.Slot.{Env, Mem, FutPc, WorkPc}
use zephyr_lang_rust.Blocking.System.{System, Choice, future, worker, init, step, run}
use zephyr_lang_rust.Blocking.Invariant.Defs.{held, served, FutFits, WorkFits, Inv}
use zephyr_lang_rust.Blocking.Invariant.Served.{serving}
use zephyr_lang_rust.Blocking.Invariant.FutureSteps.{future_step-Inv}
use zephyr_lang_rust.Blocking.Invariant.WorkerSteps.{worker_step-Inv}

module _ (env : Env) where
  abbrev pub SystemInv : System env → Type 0
  SystemInv s = Inv env s.mem s.fut s.work

  pub init-SystemInv : SystemInv (init env)
  unfolding init
  init-SystemInv = record {
    futures = λ f. refl;
    workers = λ w. tt;
    queue = λ s c. absurd (ground (arith, env.kernel.items_init));
    one_holder = λ f g s h h'. absurd (cc);
    one_server = λ f g s h h'. absurd (cc);
    living = λ f. refl;
  }

  pub step-SystemInv : (s : System env) (c : Choice) → SystemInv s → SystemInv (step env s c)
  unfolding step
  step-SystemInv s (future f a) inv = future_step-Inv env s.mem s.fut f inv a
  step-SystemInv s (worker w) inv = worker_step-Inv env s.mem s.fut (s.work w) inv w refl

  pub run-SystemInv : (cs : List Choice) (s : System env) → SystemInv s → SystemInv (run env s cs)
  unfolding run
  run-SystemInv [] s inv = inv
  run-SystemInv (c ∷ cs) s inv = run-SystemInv cs (step env s c) (step-SystemInv s c inv)

  -- The state that the pool is in after the choices `cs`.
  abbrev pub after : List Choice → System env
  after cs = run env (init env) cs

  pub after-SystemInv : (cs : List Choice) → SystemInv (after cs)
  after-SystemInv cs = run-SystemInv cs (init env) init-SystemInv

  sound_fut : (m : Mem env) (f : ℕ) (p : FutPc) → FutFits env m f p → p ≢ FutPc.panicked
  sound_fut m f p h e = rw e at h

  sound_work :
      (m : Mem env) (fut : ℕ → FutPc) (p : WorkPc)
      → WorkFits env m fut p
      → (p ≢ WorkPc.corrupt) × (p ≢ WorkPc.panicked)
  sound_work m fut p h = (λ e. rw e at h, λ e. rw e at h)

  -- Whatever the interleaving, no worker follows a null, dangling or mistyped pointer or panics on a
  -- slot without a runner, and no future panics for want of a result.
  pub run_sound :
      (cs : List Choice) (w f : ℕ)
      → ((after cs).work w ≢ WorkPc.corrupt)
        × ((after cs).work w ≢ WorkPc.panicked)
        × ((after cs).fut f ≢ FutPc.panicked)
  run_sound cs w f =
      let inv = after-SystemInv cs in
      let (fine, calm) =
        sound_work (after cs).mem (after cs).fut ((after cs).work w) (inv.workers w) in
      (fine, calm, sound_fut (after cs).mem f ((after cs).fut f) (inv.futures f))

  ready_fits :
      (m : Mem env) (f r : ℕ) (p : FutPc)
      → p ≡ FutPc.ready r
      → FutFits env m f p
      → r ≡ env.outcome f
  ready_fits m f r p e h = rw e at h

  -- Whatever the interleaving, a future that is ready is ready with the value of its own closure.
  pub run-ready :
      (cs : List Choice) (f r : ℕ) → (after cs).fut f ≡ FutPc.ready r → r ≡ env.outcome f
  run-ready cs f r e =
      ready_fits (after cs).mem f r ((after cs).fut f) e ((after-SystemInv cs).futures f)

  -- Whatever the interleaving, a slot is held by one future at most.
  pub run-one_holder :
      (cs : List Choice) (s f g : ℕ)
      → held ((after cs).fut f) ≡ some s
      → held ((after cs).fut g) ≡ some s
      → f ≡ g
  run-one_holder cs s f g h h' = (after-SystemInv cs).one_holder f g s h h'

  -- Whatever the interleaving, a slot is served by one worker at most.
  pub run-one_server :
      (cs : List Choice) (s v w : ℕ)
      → served ((after cs).work v) ≡ some s
      → served ((after cs).work w) ≡ some s
      → v ≡ w
  run-one_server cs s v w h h' = (after-SystemInv cs).one_server v w s h h'

  one_entry : (s : System env) → SystemInv s → (t : ℕ) → count t (env.kernel.items s.mem.queue) ≤ 1
  one_entry s inv t = ground (arith, inv.queue t)

  -- Whatever the interleaving, a slot that a worker serves is not in the queue.
  pub run-not_queued :
      (cs : List Choice) (s w : ℕ)
      → served ((after cs).work w) ≡ some s
      → count s (env.kernel.items (after cs).mem.queue) ≡ 0
  run-not_queued cs s w h =
      let inv = after-SystemInv cs in
      (serving env (after cs).mem (after cs).fut ((after cs).work w) s h (inv.workers w)).0

  -- Whatever the interleaving, a slot is in the queue once at most.
  pub run-one_entry :
      (cs : List Choice) (s : ℕ) → count s (env.kernel.items (after cs).mem.queue) ≤ 1
  run-one_entry cs s = one_entry (after cs) (after-SystemInv cs) s
