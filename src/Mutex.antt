-- ===== src/Mutex.antt =====
-- zephyr/src/sync/mutex.rs on zephyr/src/sys/sync/mutex.rs: `Mutex`, its guard and `Condvar`.  The
-- kernel's mutex, which a thread may lock again, is the parameter `KMutex`, with what Zephyr documents
-- of it; that the object is initialized at its first use is `Object`'s.  `checks` is as in `Error`.

pub mod Machine
pub mod Held
pub mod Moves
pub mod Exclusion
mod Examples
use zephyr_lang_rust.Prelude.{
  ℕ, suc, ◌≡◌, ◌≢◌, Bool, true, false, Option, none, some, if◌then◌else◌,
}
use zephyr_lang_rust.Prelude.Int.{ℤ, pos, negsuc}
use zephyr_lang_rust.Prelude.Outcome.{Outcome, ret, Result, err, Call, done, waits, undefined}
use zephyr_lang_rust.Error.{Error, to_result_void}
use zephyr_lang_rust.Time.{Timeout, k_forever, k_no_wait}

-- Who has locked the kernel's mutex, and how many more times than once.  `k_mutex_lock m t s e` is a
-- call by thread `t` with timeout `s` that has waited `e` ticks.
pub record KMutex : Type 1 where
  pub M : Type 0
  pub holder : M → Option (ℕ × ℕ)
  pub expired : Timeout → ℕ → Bool
  pub k_mutex_init : M
  pub k_mutex_lock : M → ℕ → Timeout → ℕ → Call ℤ M
  pub k_mutex_unlock : M → ℕ → ℤ × M
  pub expired_no_wait : (e : ℕ) → expired k_no_wait e ≡ true
  pub expired_forever : (e : ℕ) → expired k_forever e ≡ false
  pub init_free : holder k_mutex_init ≡ none
  pub lock_free :
      (m : M) (t : ℕ) (s : Timeout) (e : ℕ)
      → holder m ≡ none
      → (m' : M) × (k_mutex_lock m t s e ≡ done (pos 0) m') × (holder m' ≡ some (t, 0))
  pub lock_again :
      (m : M) (t n : ℕ) (s : Timeout) (e : ℕ)
      → holder m ≡ some (t, n)
      → (m' : M) × (k_mutex_lock m t s e ≡ done (pos 0) m') × (holder m' ≡ some (t, suc n))
  pub lock_held :
      (m : M) (t u n : ℕ) (s : Timeout) (e : ℕ)
      → holder m ≡ some (u, n)
      → u ≢ t
      → (c : ℕ) × (k_mutex_lock m t s e ≡ (if expired s e then done (negsuc c) m else waits))
        × ((checks : Bool) → (r : Error) × (to_result_void checks (negsuc c) ≡ ret (err r)))
  pub unlock_last :
      (m : M) (t : ℕ)
      → holder m ≡ some (t, 0)
      → (m' : M) × (k_mutex_unlock m t ≡ (pos 0, m')) × (holder m' ≡ none)
  pub unlock_inner :
      (m : M) (t n : ℕ)
      → holder m ≡ some (t, suc n)
      → (m' : M) × (k_mutex_unlock m t ≡ (pos 0, m')) × (holder m' ≡ some (t, n))

module _ (k : KMutex) (checks : Bool) where
  abbrev pub with_result : Call ℤ k.M → Call (Outcome (Result (Unit {0}) Error)) k.M
  with_result (done c m) = done (to_result_void checks c) m
  with_result waits = waits
  with_result undefined = undefined

  -- `sys::Mutex::lock`
  unfoldable pub lock : k.M → ℕ → Timeout → ℕ → Call (Outcome (Result (Unit {0}) Error)) k.M
  lock m t timeout e = with_result (k.k_mutex_lock m t timeout e)

  -- `sys::Mutex::unlock`
  unfoldable pub unlock : k.M → ℕ → Outcome (Result (Unit {0}) Error) × k.M
  unlock m t = let (c, m') = k.k_mutex_unlock m t in (to_result_void checks c, m')
