-- ===== src/Timer/Examples.antt =====
-- A kernel timer that runs until it is stopped.
use zephyr_lang_rust.Prelude.{
  ℕ, suc, ◌%◌, ◌^◌, arith, ◌≡◌, refl, Bool, true, false, List, [], ◌∷◌, ltb, if◌then◌else◌,
}
use zephyr_lang_rust.Prelude.Outcome.{ret, Call, done, waits}
use zephyr_lang_rust.Time.{k_no_wait}
use zephyr_lang_rust.Timer.{KTimer, new}
use zephyr_lang_rust.Timer.Simple.{start}
use zephyr_lang_rust.Timer.Machine.{Choice, start_callback, drop, go_on, expires, begin, step, run}
use zephyr_lang_rust.Timer.Callbacks.{run-no_fault, run-interrupt, after_interrupt}
use zephyr_lang_rust.Timer.Counts.{
  expiry, reads_count, waits_count, Tally, kernel, on_events, Sums, counts-expired,
}

record Periodic : Type 0 where
  on : Bool
  fired : ℕ

abbrev sync : Periodic → Call ℕ Periodic
sync p =
    if ltb 0 (p.fired % 2 ^ 32)
    then done (p.fired % 2 ^ 32) (record p { fired = 0 })
    else if p.on
    then waits
    else done 0 p

abbrev periodic : KTimer
periodic = record {
  K = Periodic;
  running = λ p. p.on;
  status = λ p. p.fired % 2 ^ 32;
  k_timer_init = record { on = false; fired = 0 };
  k_timer_start = λ p delay period. record { on = true; fired = 0 };
  k_timer_stop = λ p. record p { on = false };
  k_timer_status_get = λ p. (p.fired % 2 ^ 32, record p { fired = 0 });
  k_timer_status_sync = sync;
  expires = λ p. record p { fired = suc p.fired };
  init_stopped = refl;
  start_status = λ p delay period. refl;
  stop_stopped = λ p. refl;
  get_value = λ p. refl;
  get_reset = λ p. refl;
  get_running = λ p. refl;
  sync_lem = λ p. refl;
  status_u32 = λ p. omega arith;
  expires_status = λ p h. omega arith;
}

-- A callback, its timer started, expired, and dropped, with an interrupt between the accesses.
abbrev calls_once : List Choice
calls_once =
    start_callback 9 k_no_wait k_no_wait
    ∷ go_on
    ∷ expires
    ∷ go_on
    ∷ go_on
    ∷ expires
    ∷ drop
    ∷ expires
    ∷ go_on
    ∷ go_on
    ∷ []

ran_once : (run periodic calls_once (begin periodic)).ran ≡ 9 ∷ []
unfolding run begin new
ran_once = refl

run-no_fault_example : (run periodic calls_once (begin periodic)).fault ≡ false
run-no_fault_example = run-no_fault periodic calls_once

abbrev calls_running : List Choice
calls_running = start_callback 9 k_no_wait k_no_wait ∷ go_on ∷ go_on ∷ go_on ∷ []

run-interrupt_example :
    (step periodic expires (run periodic calls_running (begin periodic))).ran
    ≡ after_interrupt periodic (run periodic calls_running (begin periodic))
run-interrupt_example = run-interrupt periodic calls_running

counts-expired_example :
    (b : Tally periodic) × (on_events periodic
        (expiry ∷ expiry ∷ reads_count ∷ waits_count ∷ expiry ∷ waits_count ∷ expiry ∷ [])
        (record {
          timer = start periodic (new periodic) k_no_wait k_no_wait;
          expired = 0;
          returned = 0;
        })
      ≡ ret b)
    × Sums b.returned (periodic.status (kernel periodic b)) b.expired
counts-expired_example =
    counts-expired periodic
      (expiry ∷ expiry ∷ reads_count ∷ waits_count ∷ expiry ∷ waits_count ∷ expiry ∷ [])
      (new periodic) k_no_wait k_no_wait
