-- ===== src/Embassy/Executor.antt =====
-- zephyr/src/embassy/executor.rs: the executor that a semaphore wakes.  `raw::Executor` of the crate
-- `embassy_executor` is the parameter `RawExecutor`, with what that crate documents of it.  A waker's
-- call is two steps: the task is queued, and then, if that is asked, `__pender` is called.
use zephyr_lang_rust.Prelude.{ℕ, zero, suc, ◌≡◌, Bool, true, List, [], ◌∷◌, ◌++◌, if◌then◌else◌}
use zephyr_lang_rust.Prelude.Outcome.{
  Outcome, ret, panic, ◌>>=◌, Result, Call, done, waits, undefined,
}
use zephyr_lang_rust.Error.{Error}
use zephyr_lang_rust.Time.{from_forever}
use zephyr_lang_rust.Semaphore.{KSem}
use zephyr_lang_rust.Semaphore

-- `enqueue` says whether `__pender` is to be called: it is if the queue was empty.  `poll` runs the
-- tasks that are queued before it.
pub record RawExecutor : Type 1 where
  pub X : Type 0
  pub tasks : X → List ℕ
  pub new : X
  pub enqueue : X → ℕ → X × Bool
  pub poll : X → X × List ℕ
  pub new_empty : tasks new ≡ []
  pub enqueue_adds : (x : X) (t : ℕ) → tasks (enqueue x t).0 ≡ tasks x ++ t ∷ []
  pub enqueue_pends : (x : X) (t : ℕ) → tasks x ≡ [] → (enqueue x t).1 ≡ true
  pub poll_empties : (x : X) → tasks (poll x).0 ≡ []
  pub poll_runs : (x : X) → (poll x).1 ≡ tasks x

-- Where `run` stands: at the semaphore, or before `poll`.
pub data Pc : Type 0 where
  waiting taken : Pc

-- A task is woken, a waker calls `__pender`, or the executor goes on, with how long it has waited.
pub data Choice : Type 0 where
  wakes : ℕ → Choice
  pends : Choice
  goes_on : ℕ → Choice

module _ (k : KSem) (r : RawExecutor) (checks : Bool) where
  -- `struct Executor`, where it stands, how many wakers are to call `__pender`, and the tasks that each
  -- `poll` has run, the latest first.
  pub record Executor : Type 0 where
    pub inner : r.X
    pub poll_needed : k.S
    pub pc : Pc
    pub pending : ℕ
    pub polled : List (List ℕ)

  -- `Executor::new`, and the raw executor of `run`
  unfoldable pub new : Outcome Executor
  new = Semaphore.new k checks 0 1 >>= λ s.
      ret (record { inner = r.new; poll_needed = s; pc = waiting; pending = 0; polled = [] })

  unfoldable pub wake : Executor → ℕ → Executor
  wake x t =
      let (inner, pend) = r.enqueue x.inner t in
      record x { inner = inner; pending = if pend then suc x.pending else x.pending }

  -- `__pender`, by a waker that is to call it
  unfoldable pub pender : Executor → ℕ → Executor
  pender x zero = x
  pender x (suc n) = record x { poll_needed = Semaphore.give k checks x.poll_needed; pending = n }

  -- `let _ = take(…)`: what it returns is not looked at
  abbrev pub after_take : Executor → Call (Outcome (Result (Unit {0}) Error)) k.S → Executor
  after_take x (done (ret r_) s) = record x { poll_needed = s; pc = taken }
  after_take x (done panic s) = x
  after_take x waits = x
  after_take x undefined = x

  -- The loop of `run`.
  unfoldable pub turn : Executor → Pc → ℕ → Executor
  turn x waiting e = after_take x (Semaphore.take k checks x.poll_needed from_forever e)
  turn x taken e =
      let (inner, ran) = r.poll x.inner in
      record x { inner = inner; pc = waiting; polled = ran ∷ x.polled }

  unfoldable pub step : Executor → Choice → Executor
  unfolding wake pender turn
  step x (wakes t) = wake x t
  step x pends = pender x x.pending
  step x (goes_on e) = turn x x.pc e

  unfoldable pub run : Executor → List Choice → Executor
  unfolding step
  run x [] = x
  run x (c ∷ cs) = run (step x c) cs
