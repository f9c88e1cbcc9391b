-- ===== src/Blocking/Examples.antt =====
-- Runs of a pool of two slots, on queues that are lists.
use zephyr_lang_rust.Prelude.{ℕ, ◌+◌, ◌≤◌, ◌≡◌, ◌≢◌, refl, List, [], ◌∷◌, ◌++◌, some}
use zephyr_lang_rust.Queue.Lists.{list_queue}
use zephyr_lang_rust.Blocking.Slot.{WakerSet, Env, FutPc, WorkPc}
use zephyr_lang_rust.Blocking.Future.{poll, drop}
use zephyr_lang_rust.Blocking.System.{Choice, future, worker, init, run}
use zephyr_lang_rust.Blocking.Invariant.Defs.{held, served}
use zephyr_lang_rust.Blocking.Safety.{after, run_sound, run-ready, run-one_holder, run-one_server}
use zephyr_lang_rust.Blocking.Once.{times_run, run-once}
use zephyr_lang_rust.Blocking.Dropped.{dropped-not_run}

-- The last waker alone, and all of them.
abbrev one_waker : WakerSet
one_waker = record {
  Wakers = List ℕ;
  empty = [];
  register = λ w t. (t ∷ [], []);
  wake = λ w. ([], w);
}

abbrev all_wakers : WakerSet
all_wakers = record {
  Wakers = List ℕ;
  empty = [];
  register = λ w t. (w ++ t ∷ [], []);
  wake = λ w. ([], w);
}

abbrev pool : Env
pool = record {
  kernel = list_queue;
  atomic = one_waker;
  multi = all_wakers;
  slot_count = 2;
  outcome = λ f. f + 100;
}

-- Future 0 submits, and future 1 submits.
abbrev submits : List Choice
submits =
    future 0 poll
    ∷ future 0 poll
    ∷ future 0 poll
    ∷ future 0 poll
    ∷ future 0 poll
    ∷ future 0 poll
    ∷ future 1 poll
    ∷ future 1 poll
    ∷ future 1 poll
    ∷ future 1 poll
    ∷ future 1 poll
    ∷ future 1 poll
    ∷ future 1 poll
    ∷ []

-- Worker 0 receives the first slot.
abbrev received : List Choice
received = submits ++ worker 0 ∷ []

-- Worker 0 serves it, and future 0 takes the result.
abbrev finished : List Choice
finished =
    received
    ++ worker 0
      ∷ worker 0
      ∷ worker 0
      ∷ worker 0
      ∷ worker 0
      ∷ future 0 poll
      ∷ future 0 poll
      ∷ future 0 poll
      ∷ future 0 poll
      ∷ future 0 poll
      ∷ []

-- Future 0 is dropped after worker 0 has received its slot.
abbrev dropped : List Choice
dropped = received ++ future 0 drop ∷ future 0 drop ∷ []

run_sound_example :
    ((after pool finished).work 0 ≢ WorkPc.corrupt)
    × ((after pool finished).work 0 ≢ WorkPc.panicked)
    × ((after pool finished).fut 0 ≢ FutPc.panicked)
run_sound_example = run_sound pool finished 0 0

finished-ready : (after pool finished).fut 0 ≡ FutPc.ready 100
unfolding run init
finished-ready = refl

run-ready_example : 100 ≡ pool.outcome 0
run-ready_example = run-ready pool finished 0 100 finished-ready

received-held : held ((after pool received).fut 0) ≡ some 0
unfolding run init
received-held = refl

run-one_holder_example : ◌≡◌ {A = ℕ} 0 0
run-one_holder_example = run-one_holder pool received 0 0 0 received-held received-held

received-served : served ((after pool received).work 0) ≡ some 0
unfolding run init
received-served = refl

run-one_server_example : ◌≡◌ {A = ℕ} 0 0
run-one_server_example = run-one_server pool received 0 0 0 received-served received-served

run-once_example : times_run pool 0 (init pool) finished ≤ 1
run-once_example = run-once pool 0 finished

dropped-gone : (after pool dropped).fut 0 ≡ FutPc.gone
unfolding run init
dropped-gone = refl

dropped-not_run_example :
    times_run pool 0 (after pool dropped) (worker 0 ∷ worker 0 ∷ worker 0 ∷ worker 0 ∷ []) ≡ 0
dropped-not_run_example =
    dropped-not_run pool 0 dropped (worker 0 ∷ worker 0 ∷ worker 0 ∷ worker 0 ∷ []) dropped-gone

-- The closure of future 0 is run in the first run.
finished-run : times_run pool 0 (init pool) finished ≡ 1
unfolding times_run init
finished-run = refl
