-- ===== src/Mutex/Examples.antt =====
-- A kernel mutex that is who holds it, and two threads.
use zephyr_lang_rust.Prelude.{
  ℕ, zero, suc, ◌≡◌, ◌≢◌, refl, Bool, true, false, Option, none, some, List, [], ◌∷◌, ◌==◌,
  if◌then◌else◌, arith,
}
use zephyr_lang_rust.Prelude.Int.{ℤ, pos, negsuc}
use zephyr_lang_rust.Prelude.Outcome.{ret, Call, done, waits, err}
use zephyr_lang_rust.Error.{Error, to_result_void}
use zephyr_lang_rust.Queue.Lists.{ticks_expired, list_expired_no_wait}
use zephyr_lang_rust.Time.{Timeout}
use zephyr_lang_rust.Mutex.{KMutex}
use zephyr_lang_rust.Mutex.Machine.{
  Act, locks, goes_on, panicked, holding, nested_panicked, rejection, new, run,
}
use zephyr_lang_rust.Mutex.Exclusion.{has_guard, run-exclusive, run-no_panic, run-recursive}

abbrev Holder : Type 0
Holder = Option (ℕ × ℕ)

-- EBUSY is 16.
abbrev take : Holder → ℕ → Timeout → ℕ → Call ℤ Holder
take none t s e = done (pos 0) (some (t, 0))
take (some (u, n)) t s e =
    if u == t
    then done (pos 0) (some (u, suc n))
    else if ticks_expired s e
    then done (negsuc 15) (some (u, n))
    else waits

-- EPERM is 1.
abbrev give : Holder → ℕ → ℤ × Holder
give none t = (negsuc 21, none)
give (some (u, zero)) t = if u == t then (pos 0, none) else (negsuc 0, some (u, 0))
give (some (u, suc n)) t = if u == t then (pos 0, some (u, n)) else (negsuc 0, some (u, suc n))

take_free :
    (m : Holder) (t : ℕ) (s : Timeout) (e : ℕ)
    → m ≡ none
    → (m' : Holder) × (take m t s e ≡ done (pos 0) m') × (m' ≡ some (t, 0))
take_free m t s e h = (some (t, 0), rw h refl, refl)

take_again :
    (m : Holder) (t n : ℕ) (s : Timeout) (e : ℕ)
    → m ≡ some (t, n)
    → (m' : Holder) × (take m t s e ≡ done (pos 0) m') × (m' ≡ some (t, suc n))
take_again m t n s e h = (some (t, suc n), rw h (ground arith), refl)

busy : (checks : Bool) → (r : Error) × (to_result_void checks (negsuc 15) ≡ ret (err r))
unfolding to_result_void
busy true = (record { errno = 16 }, refl)
busy false = (record { errno = 16 }, refl)

take_held :
    (m : Holder) (t u n : ℕ) (s : Timeout) (e : ℕ)
    → m ≡ some (u, n)
    → u ≢ t
    → (c : ℕ) × (take m t s e ≡ (if ticks_expired s e then done (negsuc c) m else waits))
      × ((checks : Bool) → (r : Error) × (to_result_void checks (negsuc c) ≡ ret (err r)))
take_held m t u n s e h d = (15, rw h (ground arith), busy)

give_last :
    (m : Holder) (t : ℕ) → m ≡ some (t, 0) → (m' : Holder) × (give m t ≡ (pos 0, m')) × (m' ≡ none)
give_last m t h = (none, rw h (ground arith), refl)

give_inner :
    (m : Holder) (t n : ℕ)
    → m ≡ some (t, suc n)
    → (m' : Holder) × (give m t ≡ (pos 0, m')) × (m' ≡ some (t, n))
give_inner m t n h = (some (t, n), rw h (ground arith), refl)

abbrev holders : KMutex
holders = record {
  M = Holder;
  holder = λ m. m;
  expired = ticks_expired;
  k_mutex_init = none;
  k_mutex_lock = take;
  k_mutex_unlock = give;
  expired_no_wait = list_expired_no_wait;
  expired_forever = λ e. refl;
  init_free = refl;
  lock_free = take_free;
  lock_again = take_again;
  lock_held = take_held;
  unlock_last = give_last;
  unlock_inner = give_inner;
}

-- Thread 1 gets the guard; thread 2 tries, and waits.
abbrev contended : List (ℕ × Act × ℕ)
contended = (1, locks false, 0) ∷ (2, locks true, 0) ∷ (1, goes_on, 0) ∷ (2, locks false, 7) ∷ []

thread_1_holds : (run holders true (new holders true) contended).pc 1 ≡ holding
unfolding run new to_result_void
thread_1_holds = refl

guard_of_1 : has_guard ((run holders true (new holders true) contended).pc 1) ≡ true
guard_of_1 = rw thread_1_holds refl

run-exclusive_example : ◌≡◌ {A = ℕ} 1 1
run-exclusive_example = run-exclusive holders true contended 1 1 guard_of_1 guard_of_1

run-no_panic_example :
    ((run holders true (new holders true) contended).fault ≡ false)
    × ((run holders true (new holders true) contended).pc 2 ≢ panicked)
run-no_panic_example = run-no_panic holders true contended 2

run-recursive_example :
    let s =
      run holders true
        (run holders true (new holders true) contended)
        ((1, locks false, 0) ∷ (1, goes_on, 0) ∷ (1, goes_on, 0) ∷ []) in
    (s.pc 1 ≡ rejection holders true false holding nested_panicked)
    × (s.locked ≡ true)
    × (s.inner ≡ some (1, 0))
run-recursive_example = run-recursive holders true contended 1 0 0 0 false thread_1_holds
