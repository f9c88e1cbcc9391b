-- ===== src/Embassy/Examples.antt =====
-- A queue that is a list, and a clock that counts from 5.
use zephyr_lang_rust.Prelude.{
  ℕ, zero, suc, ◌-◌, ◌≤◌, ◌<◌, ◌≡◌, refl, true, false, some, List, [], ◌∷◌, ◌++◌, ◌≢◌, Bool, arith,
}
use zephyr_lang_rust.Prelude.Outcome.{ret}
use zephyr_lang_rust.Time.{Timeout, k_forever, from_instant}
use zephyr_lang_rust.Error.{to_result_void}
use zephyr_lang_rust.Semaphore
use zephyr_lang_rust.Semaphore.Pairs.{pairs}
use zephyr_lang_rust.Embassy.Executor.{
  RawExecutor, Choice, wakes, pends, goes_on, waiting, Executor, new, run,
}
use zephyr_lang_rust.Embassy.Polled.{executor-polls}
use zephyr_lang_rust.Embassy.{
  u64_max, later, earliest, TimerQueue, TimerCall, start, as_i64, Driver, check_alarm,
  schedule_wake,
}
use zephyr_lang_rust.Embassy.Alarm.{
  Armed, Clock, check_alarm_ends, schedule_wake-IsArmed, check_alarm-empty,
}

true-ne-false : {A : Type 0} → true ≡ false → A
true-ne-false h = absurd (cc)

abbrev list_timers : TimerQueue
list_timers = record {
  Q = List (ℕ × ℕ);
  entries = λ q. q;
  schedule_wake = λ q at waker. ((at, waker) ∷ q, true);
  next_expiration = λ q now. (later now q, earliest (later now q));
  schedule_same = λ q at waker h. true-ne-false h;
  expiration_kept = λ q now. refl;
  expiration_first = λ q now. refl;
}

abbrev is_none : List ℕ → Bool
is_none [] = true
is_none (x ∷ xs) = false

abbrev counting : ℕ → ℕ
counting i = elim i [ zero ↦ 5 | suc j ↦ elim j [ zero ↦ 7 | suc n ↦ 9 ] ]

counting_ordered : (i : ℕ) → counting i ≤ counting (suc i)
counting_ordered zero = omega arith
counting_ordered (suc zero) = omega arith
counting_ordered (suc (suc n)) = omega arith

counting_bounds : (i : ℕ) → (0 < counting i) × (counting i < u64_max)
counting_bounds i = ground arith

abbrev counts : Clock list_timers counting
counts = record {
  ordered = counting_ordered;
  positive = λ i. (counting_bounds i).0;
  bounded = λ i. (counting_bounds i).1;
}

abbrev three_entries : Driver list_timers true counting
three_entries = record {
  queue = (3, 1) ∷ (6, 2) ∷ (40, 3) ∷ [];
  timer = record { initialized = false; calls = [] };
  reads = 0;
}

check_alarm_ends_example :
    (end : Driver list_timers true counting) × (check_alarm list_timers true counting 4
        three_entries
      ≡ ret (some end))
    × Armed list_timers counting true end
check_alarm_ends_example =
    check_alarm_ends list_timers true counting counts 4 three_entries (omega arith)

-- The alarm set for 40 at the reading 9.
abbrev set_before : Driver list_timers true counting
set_before = record {
  queue = (40, 3) ∷ [];
  timer = record {
    initialized = true;
    calls = start (record { ticks = as_i64 32 }) k_forever ∷ [];
  };
  reads = 3;
}

schedule_wake-IsArmed_example :
    (end : Driver list_timers true counting) × (schedule_wake list_timers true counting 3 set_before
        20 8
      ≡ ret (some end))
    × Armed list_timers counting true end
schedule_wake-IsArmed_example =
    schedule_wake-IsArmed list_timers true counting counts 3 set_before 20 8 (omega arith)
      (record { reading = 2; rest = []; before = omega arith; initialized = refl; latest = refl })

-- Nothing waits after 5.
abbrev done_all : Driver list_timers true counting
done_all = record {
  queue = (3, 1) ∷ [];
  timer = record { initialized = true; calls = [] };
  reads = 0;
}

check_alarm-empty_example :
    (end : Driver list_timers true counting) × (t : Timeout) × (rest : List TimerCall)
    × (check_alarm list_timers true counting 1 done_all ≡ ret (some end))
    × (end.timer.calls ≡ start t k_forever ∷ rest)
    × (from_instant true (7 - 2) ≡ ret t)
check_alarm-empty_example =
    check_alarm-empty list_timers true counting counts true 0 done_all refl (omega arith)
      (omega arith)

-- A raw executor that is the list of its tasks.
queue_pends : (x : List ℕ) → x ≡ [] → is_none x ≡ true
queue_pends x h = rw h refl

abbrev list_executor : RawExecutor
list_executor = record {
  X = List ℕ;
  tasks = λ x. x;
  new = [];
  enqueue = λ x t. (x ++ t ∷ [], is_none x);
  poll = λ x. ([], x);
  new_empty = refl;
  enqueue_adds = λ x t. refl;
  enqueue_pends = λ x t h. queue_pends x h;
  poll_empties = λ x. refl;
  poll_runs = λ x. refl;
}

-- Task 4 is woken while the executor is about to poll task 3.
abbrev woken_late : List Choice
woken_late = goes_on 0 ∷ wakes 3 ∷ pends ∷ goes_on 5 ∷ wakes 4 ∷ goes_on 0 ∷ wakes 9 ∷ pends ∷ []

abbrev idle_executor : Executor pairs list_executor true
idle_executor = record { inner = []; poll_needed = (0, 1); pc = waiting; pending = 0; polled = [] }

left_queued : (run pairs list_executor true idle_executor woken_late).inner ≡ 9 ∷ []
unfolding run Semaphore.take Semaphore.give to_result_void
left_queued = refl

left_quiet : (run pairs list_executor true idle_executor woken_late).pending ≡ 0
unfolding run Semaphore.take Semaphore.give to_result_void
left_quiet = refl

left_some : (run pairs list_executor true idle_executor woken_late).inner ≢ []
left_some h = cc (h, left_queued)

executor-polls_example :
    let x = run pairs list_executor true idle_executor woken_late in
    let y = run pairs list_executor true x (goes_on 1 ∷ goes_on 0 ∷ []) in
    (new pairs list_executor true ≡ ret idle_executor)
    × (y.inner ≡ [])
    × (y.polled ≡ x.inner ∷ x.polled)
executor-polls_example = executor-polls pairs list_executor true woken_late 1 0 left_some left_quiet
