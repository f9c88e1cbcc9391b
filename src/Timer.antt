-- ===== src/Timer.antt =====
-- zephyr/src/timer.rs: a timer that is stopped, running with a count, or running with a callback.  The
-- kernel's calls are the parameter `KTimer`, with what Zephyr documents of them.  Here is the timer;
-- Simple has `SimpleTimer` and Machine has `CallbackTimer`, with the interrupts that may come between its accesses.
-- The user data is the number of a box.
pub mod Simple
pub mod Machine
pub mod Callbacks
pub mod Counts
mod Examples
use zephyr_lang_rust.Prelude.{
  ℕ, suc, ◌%◌, ◌^◌, ◌<◌, ◌≡◌, Bool, true, false, Option, none, some, ltb, if◌then◌else◌,
}
use zephyr_lang_rust.Prelude.Outcome.{Call, done, waits}
use zephyr_lang_rust.Time.{Timeout}

-- The kernel's part of a `k_timer`: whether it runs, and how often it has expired since that was last
-- read, which the kernel counts in a `uint32_t` that wraps.
pub record KTimer : Type 1 where
  pub K : Type 0
  pub running : K → Bool
  pub status : K → ℕ
  pub k_timer_init : K
  pub k_timer_start : K → Timeout → Timeout → K
  pub k_timer_stop : K → K
  pub k_timer_status_get : K → ℕ × K
  pub k_timer_status_sync : K → Call ℕ K
  pub expires : K → K
  pub init_stopped : running k_timer_init ≡ false
  pub start_status : (k : K) (delay period : Timeout) → status (k_timer_start k delay period) ≡ 0
  pub stop_stopped : (k : K) → running (k_timer_stop k) ≡ false
  pub get_value : (k : K) → (k_timer_status_get k).0 ≡ status k
  pub get_reset : (k : K) → status (k_timer_status_get k).1 ≡ 0
  pub get_running : (k : K) → running (k_timer_status_get k).1 ≡ running k
  pub sync_lem :
      (k : K)
      → k_timer_status_sync k ≡ (
          if ltb 0 (status k)
          then done (k_timer_status_get k).0 (k_timer_status_get k).1
          else if running k
          then waits
          else done 0 k)
  pub status_u32 : (k : K) → status k < 2 ^ 32
  pub expires_status : (k : K) → running k ≡ true → status (expires k) ≡ suc (status k) % 2 ^ 32

module _ (k : KTimer) where
  -- `struct k_timer`: the kernel's part, whether `expiry_fn` is `timer_expiry`, and the user data.
  pub record Timer : Type 0 where
    pub kernel : k.K
    pub expiry_fn : Bool
    pub user_data : Option ℕ

  -- `StoppedTimer::new`, and `get_wrapped` of the static one
  unfoldable pub new : Timer
  new = record { kernel = k.k_timer_init; expiry_fn = false; user_data = none }

  abbrev pub k_start : Timer → Timeout → Timeout → Timer
  k_start t delay period = record t { kernel = k.k_timer_start t.kernel delay period }

  abbrev pub k_stop : Timer → Timer
  k_stop t = record t { kernel = k.k_timer_stop t.kernel }
