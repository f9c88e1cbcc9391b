-- ===== src/Semaphore/Pairs.antt =====
-- A `KSem` whose semaphores are a count and a limit: the kernel's contract can be met.
use zephyr_lang_rust.Prelude.{ℕ, zero, suc, ◌≡◌, refl, Bool, true, false, ltb, if◌then◌else◌, arith}
use zephyr_lang_rust.Prelude.Int.{ℤ, pos, negsuc}
use zephyr_lang_rust.Prelude.Outcome.{ret, err, Call, done, waits}
use zephyr_lang_rust.Error.{Error, to_result_void}
use zephyr_lang_rust.Queue.Lists.{ticks_expired, list_expired_no_wait}
use zephyr_lang_rust.Time.{Timeout}
use zephyr_lang_rust.Semaphore.{KSem}

-- EBUSY is 16.
abbrev pub take_pair : ℕ × ℕ → Timeout → ℕ → Call ℤ (ℕ × ℕ)
take_pair (zero, l) t e = if ticks_expired t e then done (negsuc 15) (0, l) else waits
take_pair (suc n, l) t e = done (pos 0) (n, l)

pub take_pair-some :
    (s : ℕ × ℕ) (t : Timeout) (e n : ℕ)
    → s.0 ≡ suc n
    → (s' : ℕ × ℕ) × (take_pair s t e ≡ done (pos 0) s') × (s'.0 ≡ n) × (s'.1 ≡ s.1)
take_pair-some (zero, l) t e n h = absurd (omega arith)
take_pair-some (suc m, l) t e n h = ((m, l), refl, omega arith, refl)

pub busy : (checks : Bool) → (r : Error) × (to_result_void checks (negsuc 15) ≡ ret (err r))
unfolding to_result_void
busy true = (record { errno = 16 }, refl)
busy false = (record { errno = 16 }, refl)

pub take_pair-none :
    (s : ℕ × ℕ) (t : Timeout) (e : ℕ)
    → s.0 ≡ 0
    → (c : ℕ) × (take_pair s t e ≡ (if ticks_expired t e then done (negsuc c) s else waits))
      × ((checks : Bool) → (r : Error) × (to_result_void checks (negsuc c) ≡ ret (err r)))
take_pair-none (zero, l) t e h = (15, refl, busy)
take_pair-none (suc n, l) t e h = absurd (omega arith)

abbrev pub pairs : KSem
pairs = record {
  S = ℕ × ℕ;
  count = λ s. s.0;
  limit = λ s. s.1;
  expired = ticks_expired;
  k_sem_init = λ n l. (n, l);
  k_sem_take = take_pair;
  k_sem_give = λ s. ((if ltb s.0 s.1 then suc s.0 else s.0), s.1);
  expired_no_wait = list_expired_no_wait;
  expired_forever = λ e. refl;
  init_lem = λ n l. (refl, refl);
  take_some = take_pair-some;
  take_none = take_pair-none;
  give_lem = λ s. (refl, refl);
}
