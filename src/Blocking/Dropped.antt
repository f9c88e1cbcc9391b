-- ===== src/Blocking/Dropped.antt =====
-- A future whose `drop` has returned.
use zephyr_lang_rust.Prelude.{ℕ, ◌≡◌, refl, false, List, [], ◌∷◌, arith, ℕ_discrete}
use zephyr_lang_rust.Blocking.Slot.{Env, Mem, FutPc, WorkPc}
use zephyr_lang_rust.Blocking.Future.{future_step}
use zephyr_lang_rust.Blocking.Worker.{recv_item, worker_step}
use zephyr_lang_rust.Blocking.System.{System, Choice, future, worker, step}
use zephyr_lang_rust.Blocking.Invariant.Defs.{WorkFits}
use zephyr_lang_rust.Blocking.Safety.{SystemInv, step-SystemInv, after, after-SystemInv}
use zephyr_lang_rust.Blocking.Once.{is_running, begins, times_run}

module _ (env : Env) (f : ℕ) where
  recv_item-not_running : (m : Mem env) → is_running f (recv_item env m).1 ≡ false
  unfolding recv_item
  recv_item-not_running m = ground arith

  -- A worker does not begin the closure of a future that is gone.
  worker_step-gone :
      (m : Mem env) (fut : ℕ → FutPc) (p : WorkPc)
      → fut f ≡ FutPc.gone
      → WorkFits env m fut p
      → is_running f (worker_step env m p).1 ≡ false
  unfolding worker_step
  worker_step-gone m fut WorkPc.idle e h = ground (arith, recv_item-not_running m)
  worker_step-gone m fut (WorkPc.got s) e h = ground arith
  worker_step-gone m fut (WorkPc.starting s g) e h = ground arith
  worker_step-gone m fut (WorkPc.running s g) e h = ground arith
  worker_step-gone m fut (WorkPc.finished s g r) e h = ground arith
  worker_step-gone m fut (WorkPc.waking s) e h = ground arith
  worker_step-gone m fut (WorkPc.releasing s) e h = ground arith
  worker_step-gone m fut WorkPc.notifying e h = ground arith
  worker_step-gone m fut WorkPc.panicked e h = ground arith
  worker_step-gone m fut WorkPc.corrupt e h = ground arith

  step-gone :
      (s : System env) (c : Choice) → s.fut f ≡ FutPc.gone → (step env s c).fut f ≡ FutPc.gone
  unfolding step future_step
  step-gone s (future g a) e = elim (ℕ_discrete g f) [ yes d ↦ ground arith | no n ↦ ground arith ]
  step-gone s (worker w) e = e

  begins-gone :
      (s : System env) (c : Choice) → SystemInv env s → s.fut f ≡ FutPc.gone → begins env f s c ≡ 0
  unfolding begins step
  begins-gone s (future g a) inv e = refl
  begins-gone s (worker w) inv e =
      ground (arith, worker_step-gone s.mem s.fut (s.work w) e (inv.workers w))

  times_run-gone :
      (cs : List Choice) (s : System env)
      → SystemInv env s
      → s.fut f ≡ FutPc.gone
      → times_run env f s cs ≡ 0
  unfolding times_run
  times_run-gone [] s inv e = refl
  times_run-gone (c ∷ cs) s inv e =
      let rest = times_run-gone cs (step env s c) (step-SystemInv env s c inv) (step-gone s c e) in
      omega (arith, begins-gone s c inv e, rest)

  -- Once a future has been dropped, whatever the choices before and after, no worker begins to run
  -- its closure.
  pub dropped-not_run :
      (cs cs' : List Choice)
      → (after env cs).fut f ≡ FutPc.gone
      → times_run env f (after env cs) cs' ≡ 0
  dropped-not_run cs cs' e = times_run-gone cs' (after env cs) (after-SystemInv env cs) e
