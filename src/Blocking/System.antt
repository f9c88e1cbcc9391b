-- ===== src/Blocking/System.antt =====
-- The pool under any interleaving: a run is a list of choices, each of a future that is polled or
-- dropped, or of a worker.
use zephyr_lang_rust.Prelude.{ℕ, true, false, none, List, [], ◌∷◌}
use zephyr_lang_rust.Queue
use zephyr_lang_rust.Blocking.Slot.{SlotState, Env, Mem, FutPc, WorkPc, update}
use zephyr_lang_rust.Blocking.Future.{Act, future_step}
use zephyr_lang_rust.Blocking.Worker.{worker_step}

module _ (env : Env) where
  pub record System : Type 0 where
    pub mem : Mem env
    pub fut : ℕ → FutPc
    pub work : ℕ → WorkPc

  -- `SLOT_POOL`, `QUEUE` and `STARTED` as they are declared; any number of futures that are made by
  -- `run`, each with its closure, and of workers.
  unfoldable pub init : System
  init = record {
    mem = record {
      slots = λ s. record {
        state = SlotState.free;
        shared = none;
        runner = none;
        waker = env.atomic.empty;
      };
      waiters = env.multi.empty;
      locked = false;
      queue = Queue.new env.kernel;
      started = false;
      op = λ f. true;
      result = λ f. none;
      alive = λ f. true;
      woken = λ f. false;
    };
    fut = λ f. FutPc.fresh;
    work = λ w. WorkPc.idle;
  }

pub data Choice : Type 0 where
  future : ℕ → Act → Choice
  worker : ℕ → Choice

module _ (env : Env) where
  unfoldable pub step : System env → Choice → System env
  unfolding future_step worker_step
  step s (future f a) =
      let (m, p) = future_step env s.mem f (s.fut f) a in
      record { mem = m; fut = update s.fut f p; work = s.work }
  step s (worker w) =
      let (m, p) = worker_step env s.mem (s.work w) in
      record { mem = m; fut = s.fut; work = update s.work w p }

  unfoldable pub run : System env → List Choice → System env
  unfolding step
  run s [] = s
  run s (c ∷ cs) = run (step s c) cs
