-- ===== src/Thread.antt =====
-- zephyr/src/thread.rs: pools of static threads, and the entry function of their threads in
-- zephyr-macros/src/task.rs.  A pool is the list of its `ThreadData`; the thread
-- and the stack of an entry are known by its index.  What the kernel is asked is the list of the calls;
-- whether `k_thread_join` without a wait finds the thread of an entry finished is an argument.
pub mod Acquired
mod Examples
use zephyr_lang_rust.Prelude.{
  ℕ, zero, suc, Bool, true, false, Option, none, some, List, [], ◌∷◌, length, get_elem?, set, ltb,
  if◌then◌else◌,
}
use zephyr_lang_rust.Prelude.Int.{ℤ, pos, negsuc}
use zephyr_lang_rust.Prelude.Outcome.{Outcome, ret, panic, ◌>>=◌, ◌>>◌, Result, assert}
use zephyr_lang_rust.Error.{Error, to_result_void}
use zephyr_lang_rust.Time.{Timeout, k_forever, k_no_wait, from_forever}

-- `enum ThreadState`
pub data ThreadState : Type 0 where
  init allocated running : ThreadState

-- `struct ThreadData<T>`: the arguments, and the state; with what the thread's function has been called
-- with, the latest first.
pub record ThreadData : Type 0 where
  pub init : Option ℕ
  pub state : ThreadState
  pub called : List ℕ

-- `ThreadData::new`
unfoldable pub new : ThreadData
new = record { init = none; state = init; called = [] }

-- The index of an entry and of its stack, the stack's size, the entry point, the priority and the delay.
pub data ThreadCall : Type 0 where
  k_thread_create : ℕ → ℕ → ℕ → ℕ → ℤ → Timeout → ThreadCall
  k_thread_name_set : ℕ → ℕ → ThreadCall
  k_thread_priority_set : ℕ → ℤ → ThreadCall
  k_wakeup : ℕ → ThreadCall

pub record ThreadPool : Type 0 where
  pub threads : List ThreadData
  pub calls : List ThreadCall

-- The loop of `find_thread`, from entry `id` on: whether an entry is free.
unfoldable pub find_from : (ℕ → Bool) → ℕ → List ThreadData → Option ℕ
find_from joined id [] = none
find_from joined id (thread ∷ threads) =
    let rest = find_from joined (suc id) threads in
    elim thread.state [
      | init ↦ some id
      | allocated ↦ rest
      | running ↦ if joined id then some id else rest
    ]

abbrev pub mark : List ThreadData → ℕ → List ThreadData
mark [] id = []
mark (thread ∷ threads) zero = record thread { state = allocated } ∷ threads
mark (thread ∷ threads) (suc id) = thread ∷ mark threads id

unfoldable pub find_thread : (ℕ → Bool) → List ThreadData → Outcome (ℕ × List ThreadData)
unfolding find_from
find_thread joined threads = elim (find_from joined 0 threads) [
  | none ↦ panic
  | some id ↦ ret (id, mark threads id)
]

-- `*init = Some(args)`
abbrev pub store : List ThreadData → ℕ → ℕ → List ThreadData
store [] id args = []
store (thread ∷ threads) zero args = record thread { init = some args } ∷ threads
store (thread ∷ threads) (suc id) args = thread ∷ store threads id args

-- `acquire`, given the number of stacks and their size; the thread is known by its entry
unfoldable pub acquire : (ℕ → Bool) → ThreadPool → ℕ → ℕ → ℕ → ℕ → ℤ → ℕ → Outcome (ℕ × ThreadPool)
acquire joined p stacks size args entry priority name = do
  (id, threads) ← find_thread joined p.threads
  assert (ltb id stacks)
  ret (
    id,
    record {
      threads = store threads id args;
      calls =
          k_thread_name_set id name ∷ k_thread_create id id size entry priority k_forever ∷ p.calls;
    },
  )

-- `ReadyThread::set_priority` and `start`, and `RunningThread::join_timeout` and `join` with the code
-- that `k_thread_join` returns
unfoldable pub set_priority : ThreadPool → ℕ → ℤ → ThreadPool
set_priority p id priority = record p { calls = k_thread_priority_set id priority ∷ p.calls }

unfoldable pub start : ThreadPool → ℕ → ThreadPool
start p id = record p { calls = k_wakeup id ∷ p.calls }

unfoldable pub join_timeout :
    Bool → (ℕ → Timeout → ℤ) → ℕ → Timeout → Outcome (Result (Unit {0}) Error)
join_timeout checks k_thread_join id timeout = to_result_void checks (k_thread_join id timeout)

unfoldable pub join : Bool → (ℕ → Timeout → ℤ) → ℕ → Outcome (Result (Unit {0}) Error)
unfolding join_timeout
join checks k_thread_join id = join_timeout checks k_thread_join id from_forever

-- `init.replace(None)` in an entry, with the call of the thread's function that follows it; a thread
-- that finds no arguments panics, which changes no entry
unfoldable pub replace_init : ThreadData → ThreadData
replace_init thread = elim thread.init [
  | none ↦ thread
  | some args ↦ record thread { init = none; called = args ∷ thread.called }
]

abbrev pub update_at : (ThreadData → ThreadData) → List ThreadData → ℕ → List ThreadData
update_at f [] id = []
update_at f (thread ∷ threads) zero = f thread ∷ threads
update_at f (thread ∷ threads) (suc id) = thread ∷ update_at f threads id

-- `startup`, which the thread of an entry runs first
unfoldable pub startup : ThreadPool → ℕ → ThreadPool
unfolding replace_init
startup p id = record p { threads = update_at replace_init p.threads id }

-- `acquire_old`, on one thread, which it starts at once
unfoldable pub acquire_old : ThreadData → ℕ → ℕ → ℕ → Outcome (ThreadData × ThreadCall)
acquire_old thread size args entry = elim thread.state [
  | init ↦ ret (
    record thread { init = some args; state = allocated },
    k_thread_create 0 0 size entry (pos 0) k_no_wait,
  )
  | allocated ↦ panic
  | running ↦ panic
]
