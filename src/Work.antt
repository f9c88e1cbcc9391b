-- ===== src/Work.antt =====
-- zephyr/src/work.rs: work items, the results of submitting them, and the queues that run them.  The
-- kernel's `k_work` is the parameter `KWork`, with what Zephyr documents of it.  Submitting a work item
-- is a call by its `Arc`, whose count and whose release are written out.  `checks` is as in `Error`.
pub mod References
pub mod Queues
mod Examples
use zephyr_lang_rust.Prelude.{
  ℕ, zero, suc, ◌+◌, ◌-◌, ◌≡◌, ◌⊎◌, Bool, true, false, not, List, [], ◌∷◌, ◌==◌, if◌then◌else◌,
}
use zephyr_lang_rust.Prelude.Int.{ℤ, pos, negsuc}
use zephyr_lang_rust.Prelude.Outcome.{Outcome, ret, panic, ◌>>=◌, Result, ok, err}
use zephyr_lang_rust.Error.{Error, to_result}

-- `enum SubmitResult`
pub data SubmitResult : Type 0 where
  already_submitted enqueued_now was_running : SubmitResult

unfoldable pub enqueued : SubmitResult → Bool
enqueued already_submitted = false
enqueued enqueued_now = true
enqueued was_running = true

abbrev pub by_code : ℕ → Outcome SubmitResult
by_code n =
    if n == 0
    then ret already_submitted
    else if n == 1
    then ret enqueued_now
    else if n == 2
    then ret was_running
    else panic

abbrev pub submitted : Result ℤ Error → Outcome (Result SubmitResult Error)
submitted (ok (pos n)) = by_code n >>= λ r. ret (ok r)
submitted (ok (negsuc n)) = panic
submitted (err e) = ret (err e)

-- `SubmitResult::to_result`
unfoldable pub submit_result : Bool → ℤ → Outcome (Result SubmitResult Error)
submit_result checks value = to_result checks value >>= submitted

-- What a submission does to a `k_work`: whether it is in a queue, before and after, by the code that
-- is returned.
pub data Submits : Bool → Bool → ℤ → Type 0 where
  already : {a b : Bool} {c : ℤ} → a ≡ true → b ≡ true → c ≡ pos 0 → Submits a b c
  queues : {a b : Bool} {c : ℤ} → a ≡ false → b ≡ true → (c ≡ pos 1) ⊎ (c ≡ pos 2) → Submits a b c
  refuses :
      {a b : Bool} {c : ℤ} (e : Error)
      → b ≡ a
      → ((checks : Bool) → to_result checks c ≡ ret (err e))
      → Submits a b c

pub record KWork : Type 1 where
  pub W : Type 0
  pub queued : W → Bool
  pub k_work_init : W
  pub k_work_submit : W → ℕ → ℤ × W
  pub starts : W → W
  pub init_lem : queued k_work_init ≡ false
  pub submits :
      (w : W) (queue : ℕ)
      → Submits (queued w) (queued (k_work_submit w queue).1) (k_work_submit w queue).0
  pub starts_lem : (w : W) → queued (starts w) ≡ false

-- What the program or the queue does next.
pub data Op : Type 0 where
  clones : Op
  drops : Op
  submits_to : ℕ → Op
  queue_runs : Op
  queue_ends : Op

module _ (k : KWork) (checks : Bool) where
  -- `struct Work<T>` in its `Arc`: the count, how many handles the program has, the results that
  -- `submit` has returned, the latest first, whether a queue is in `handler`, how often the action was
  -- called, whether the memory was freed, and whether it was used after that or a call has panicked.
  pub record Work : Type 0 where
    pub work : k.W
    pub strong : ℕ
    pub handles : ℕ
    pub results : List (Result SubmitResult Error)
    pub running : Bool
    pub acted : ℕ
    pub freed : Bool
    pub fault : Bool

  -- `Work::new`
  unfoldable pub new : Work
  new = record {
    work = k.k_work_init;
    strong = 1;
    handles = 1;
    results = [];
    running = false;
    acted = 0;
    freed = false;
    fault = false;
  }

  -- The drop of an `Arc`.
  unfoldable pub release : Work → Work
  release w = record w { strong = w.strong - 1; freed = if w.strong == 1 then true else w.freed }

  abbrev pub returned : Work → Outcome (Result SubmitResult Error) → Work
  returned w (ret r) = record w { results = r ∷ w.results }
  returned w panic = record w { fault = true }

  -- `submit` to the system's queue, and `submit_to_queue`: the handle becomes a raw pointer, and the
  -- count stays
  unfoldable pub submit_to_queue : Work → ℕ → Work
  unfolding submit_result
  submit_to_queue w queue =
      let (code, work) = k.k_work_submit w.work queue in
      returned (record w { work = work; handles = w.handles - 1 }) (submit_result checks code)

  -- `handler`, called by the queue: the raw pointer becomes an `Arc` again, and the action is called.
  unfoldable pub handler : Work → Work
  handler w =
      if w.freed
      then record w { fault = true }
      else record w { work = k.starts w.work; running = true; acted = suc w.acted }

  -- Its end: the `Arc` is dropped.
  unfoldable pub handler_end : Work → Work
  unfolding release
  handler_end w = release (record w { running = false })

  -- A program clones, drops and submits the handles that it has; the queue runs what is in it.
  unfoldable pub step : Op → Work → Work
  unfolding release submit_to_queue handler handler_end
  step clones w =
      if w.handles == 0 then w else record w { strong = suc w.strong; handles = suc w.handles }
  step drops w = if w.handles == 0 then w else release (record w { handles = w.handles - 1 })
  step (submits_to queue) w = if w.handles == 0 then w else submit_to_queue w queue
  step queue_runs w = if w.running then w else if k.queued w.work then handler w else w
  step queue_ends w = if w.running then handler_end w else w

  unfoldable pub run : List Op → Work → Work
  unfolding step
  run [] w = w
  run (o ∷ os) w = run os (step o w)
