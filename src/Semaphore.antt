-- ===== src/Semaphore.antt =====
-- zephyr/src/sys/sync/semaphore.rs: `Semaphore`, without `reset` and `count_get`.  The kernel's calls
-- are the parameter `KSem`, with what Zephyr documents of them; `init` of the object, which gives the
-- kernel what `new` has stored at the first use, is done by `new`.  `checks` is as in `Error`.
pub mod Pairs
use zephyr_lang_rust.Prelude.{
  ℕ, zero, suc, ◌+◌, ◌≡◌, Bool, true, false, ◌||◌, List, [], ◌∷◌, ltb, ◌==◌, if◌then◌else◌,
}
use zephyr_lang_rust.Prelude.Int.{ℤ, pos, negsuc}
use zephyr_lang_rust.Prelude.Outcome.{
  Outcome, ret, panic, ◌>>=◌, Result, err, Call, done, waits, undefined,
}
use zephyr_lang_rust.Error.{Error, to_result_void}
use zephyr_lang_rust.Time.{Timeout, k_forever, k_no_wait}

-- `k_sem_take s t e` is a call with timeout `t` that has waited `e` ticks.
pub record KSem : Type 1 where
  pub S : Type 0
  pub count : S → ℕ
  pub limit : S → ℕ
  pub expired : Timeout → ℕ → Bool
  pub k_sem_init : ℕ → ℕ → S
  pub k_sem_take : S → Timeout → ℕ → Call ℤ S
  pub k_sem_give : S → S
  pub expired_no_wait : (e : ℕ) → expired k_no_wait e ≡ true
  pub expired_forever : (e : ℕ) → expired k_forever e ≡ false
  pub init_lem : (n l : ℕ) → (count (k_sem_init n l) ≡ n) × (limit (k_sem_init n l) ≡ l)
  pub take_some :
      (s : S) (t : Timeout) (e n : ℕ)
      → count s ≡ suc n
      → (s' : S) × (k_sem_take s t e ≡ done (pos 0) s') × (count s' ≡ n) × (limit s' ≡ limit s)
  pub take_none :
      (s : S) (t : Timeout) (e : ℕ)
      → count s ≡ 0
      → (c : ℕ) × (k_sem_take s t e ≡ (if expired t e then done (negsuc c) s else waits))
        × ((checks : Bool) → (r : Error) × (to_result_void checks (negsuc c) ≡ ret (err r)))
  pub give_lem :
      (s : S)
      → (count (k_sem_give s) ≡ (if ltb (count s) (limit s) then suc (count s) else count s))
        × (limit (k_sem_give s) ≡ limit s)

module _ (k : KSem) (checks : Bool) where
  -- `Semaphore::new`, which panics on a limit that is zero or below the count
  unfoldable pub new : ℕ → ℕ → Outcome k.S
  new initial_count limit =
      if (limit == 0) || ltb limit initial_count
      then panic
      else ret (k.k_sem_init initial_count limit)

  abbrev pub with_result : Call ℤ k.S → Call (Outcome (Result (Unit {0}) Error)) k.S
  with_result (done c s) = done (to_result_void checks c) s
  with_result waits = waits
  with_result undefined = undefined

  unfoldable pub take : k.S → Timeout → ℕ → Call (Outcome (Result (Unit {0}) Error)) k.S
  take s timeout e = with_result (k.k_sem_take s timeout e)

  unfoldable pub give : k.S → k.S
  give s = k.k_sem_give s
