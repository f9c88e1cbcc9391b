-- ===== src/Work/Queues.antt =====
-- zephyr/src/work.rs: the work queues that a builder starts, and the queue of the current thread.  A
-- `k_work_q` is its address, `thread q` is the address of the thread in it.  What the kernel is asked
-- is the list of the calls.
use zephyr_lang_rust.Prelude.{
  ℕ, ◌≡◌, refl, ◌∙◌, Bool, false, Option, none, some, List, [], ◌∷◌, ◌==◌, if◌then◌else◌, arith,
}
use zephyr_lang_rust.Prelude.Int.{ℤ, pos}
use zephyr_lang_rust.Prelude.Outcome.{Outcome, panic}
use zephyr_lang_rust.Simpletls.{SimpleTls, insert, get}
use zephyr_lang_rust.Simpletls.Sorted.{Sorted, insert-get}

-- `k_work_queue_config`, the name by its address
pub record Config : Type 0 where
  pub name : Option ℕ
  pub no_yield : Bool
  pub essential : Bool

pub record WorkQueueBuilder : Type 0 where
  pub config : Config
  pub priority : ℤ

-- `WorkQueueBuilder::new`
unfoldable pub new_builder : WorkQueueBuilder
new_builder = record {
  config = record { name = none; no_yield = false; essential = false };
  priority = pos 0;
}

unfoldable pub set_name : WorkQueueBuilder → ℕ → WorkQueueBuilder
set_name b name = record b { config = record b.config { name = some name } }

unfoldable pub set_no_yield : WorkQueueBuilder → Bool → WorkQueueBuilder
set_no_yield b value = record b { config = record b.config { no_yield = value } }

unfoldable pub set_essential : WorkQueueBuilder → Bool → WorkQueueBuilder
set_essential b value = record b { config = record b.config { essential = value } }

unfoldable pub set_priority : WorkQueueBuilder → ℤ → WorkQueueBuilder
set_priority b value = record b { priority = value }

-- `ThreadStack`: base and size
pub record Stack : Type 0 where
  pub base : ℕ
  pub size : ℕ

pub data QueueCall : Type 0 where
  k_work_queue_init : ℕ → QueueCall
  k_work_queue_start : ℕ → Stack → ℤ → Config → QueueCall

-- `WORK_QUEUES`, and the calls of the kernel, the latest first.
pub record Started : Type 0 where
  pub work_queues : SimpleTls ℕ
  pub calls : List QueueCall

unfoldable pub no_queues : Started
no_queues = record { work_queues = []; calls = [] }

-- `Drop for WorkQueue`
unfoldable pub drop_queue : ℕ → Outcome (Unit {0})
drop_queue item = panic

pub record Start : Type 0 where
  pub builder : WorkQueueBuilder
  pub item : ℕ
  pub stack : Stack

module _ (thread : ℕ → ℕ) where
  -- `WorkQueueBuilder::start`, with a new `k_work_q` at the address `item`
  unfoldable pub start : Started → WorkQueueBuilder → ℕ → Stack → Started
  start s b item stack = record {
    work_queues = insert s.work_queues (thread item) item;
    calls = k_work_queue_start item stack b.priority b.config ∷ k_work_queue_init item ∷ s.calls;
  }

  -- `get_current_workq`, in a thread
  unfoldable pub get_current_workq : Started → ℕ → Option ℕ
  get_current_workq s current = get s.work_queues current

  -- Queues that are started one after another, the last first.
  unfoldable pub starts : List Start → Started
  unfolding start no_queues
  starts [] = no_queues
  starts (q ∷ qs) = start (starts qs) q.builder q.item q.stack

  -- The last of them that has a thread.
  abbrev pub queue_of : List Start → ℕ → Option ℕ
  queue_of [] current = none
  queue_of (q ∷ qs) current =
      let rest = queue_of qs current in if thread q.item == current then some q.item else rest

  starts-Sorted : (qs : List Start) → Sorted (starts qs).work_queues
  unfolding starts
  starts-Sorted [] = tt
  starts-Sorted (q ∷ qs) =
      (insert-get (starts qs).work_queues (thread q.item) 0 q.item (starts-Sorted qs)).0

  -- After any queues have been started, `get_current_workq` gives in each thread the queue that was
  -- started last on it, and none in a thread that no queue was started on.
  pub starts-get :
      (qs : List Start) (current : ℕ) → get_current_workq (starts qs) current ≡ queue_of qs current
  unfolding starts get_current_workq
  starts-get [] current = unfold get in refl
  starts-get (q ∷ qs) current =
      (insert-get (starts qs).work_queues (thread q.item) current q.item (starts-Sorted qs)).1
      ∙ ground (arith, starts-get qs current)
