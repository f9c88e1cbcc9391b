-- ===== src/Mutex/Machine.antt =====
-- zephyr/src/sync/mutex.rs: threads that lock a `Mutex`, drop its guard and wait on a `Condvar`, a
-- shared access at a time.  A wait on a condition variable may end at any time, as a notified one and
-- a spurious one do; the kernel gives the mutex up and takes it again around it.
use zephyr_lang_rust.Prelude.{ℕ, Bool, true, false, List, [], ◌∷◌, ◌==◌, if◌then◌else◌}
use zephyr_lang_rust.Prelude.Outcome.{
  Outcome, ret, panic, Result, ok, err, Call, done, waits, undefined,
}
use zephyr_lang_rust.Error.{Error}
use zephyr_lang_rust.Time.{from_forever, from_no_wait, k_forever}
use zephyr_lang_rust.Mutex.{KMutex, lock, unlock}

-- Where a thread stands.  `true` is `try_lock` and `false` is `lock`.
pub data Pc : Type 0 where
  idle : Pc
  entered : Bool → Pc  -- the kernel's mutex is locked, before the swap of `locked`
  rejected : Bool → Pc  -- the swap found it locked
  panicked : Pc  -- in `lock`, with no guard
  holding : Pc  -- has a `MutexGuard`
  nested : Bool → Pc  -- has a guard, and is before the swap of another call
  nested_rejected : Bool → Pc  -- has a guard, and the swap of another call found it locked
  nested_panicked : Pc  -- in another call of `lock`, with a guard
  releasing : Pc  -- in `drop` of the guard, `locked` cleared
  wait_begun : Pc  -- in `Condvar::wait`, `locked` cleared
  waiting : Pc  -- waits on the condition variable
  woken : Pc  -- has the kernel's mutex again

-- What a thread does: a call, or the next access of the call that it is in; with how long it has
-- waited in the kernel.
pub data Act : Type 0 where
  locks : Bool → Act
  drops : Act
  waits_on : Act
  goes_on : Act

abbrev pub at : {A : Type 0} → (ℕ → A) → ℕ → A → ℕ → A
at f t a u = if u == t then a else f u

module _ (k : KMutex) (checks : Bool) where
  -- `struct Mutex<T>` without its data, where the threads stand, and whether an `unwrap` or the drop of
  -- a guard has panicked.
  pub record System : Type 0 where
    pub inner : k.M
    pub locked : Bool
    pub pc : ℕ → Pc
    pub fault : Bool

  -- `Mutex::new`
  unfoldable pub new : System
  new = record { inner = k.k_mutex_init; locked = false; pc = λ t. idle; fault = false }

  abbrev pub moved : System → ℕ → Pc → System
  moved s t p = record s { pc = at s.pc t p }

  -- After the kernel's lock: on to a place, or back to another if it has failed.
  abbrev pub after_lock :
      System → ℕ → Call (Outcome (Result (Unit {0}) Error)) k.M → Pc → (System → System) → System
  after_lock s t (done (ret (ok _)) m) p back = record s { inner = m; pc = at s.pc t p }
  after_lock s t (done (ret (err _)) m) p back = back (record s { inner = m })
  after_lock s t (done panic m) p back = record s { fault = true }
  after_lock s t waits p back = s
  after_lock s t undefined p back = record s { fault = true }

  abbrev pub unwrap : System → System
  unwrap s = record s { fault = true }

  -- `lock` and `try_lock`, up to the swap
  unfoldable pub begin_lock : Bool → System → ℕ → ℕ → Pc → System
  unfolding lock
  begin_lock true s t e p = after_lock s t (lock k checks s.inner t from_no_wait e) p (λ r. r)
  begin_lock false s t e p = after_lock s t (lock k checks s.inner t from_forever e) p unwrap

  -- `locked.swap(true)`
  unfoldable pub swap : System → ℕ → Pc → Pc → System
  swap s t found won = record s { locked = true; pc = at s.pc t (if s.locked then found else won) }

  abbrev pub after_unlock : System → ℕ → Outcome (Result (Unit {0}) Error) × k.M → Pc → System
  after_unlock s t (ret (ok _), m) p = record s { inner = m; pc = at s.pc t p }
  after_unlock s t (ret (err _), m) p = record s { inner = m; fault = true }
  after_unlock s t (panic, m) p = record s { inner = m; fault = true }

  unfoldable pub do_unlock : System → ℕ → Pc → System
  unfolding unlock
  do_unlock s t p = after_unlock s t (unlock k checks s.inner t) p

  -- The end of a call of `lock` or `try_lock` that was rejected.
  abbrev pub rejection : Bool → Pc → Pc → Pc
  rejection true would_block panics = would_block
  rejection false would_block panics = panics

  -- The next access of the call that a thread is in.
  unfoldable pub go_on : Pc → System → ℕ → ℕ → System
  unfolding swap do_unlock lock
  go_on (entered try) s t e = swap s t (rejected try) holding
  go_on (rejected try) s t e = do_unlock s t (rejection try idle panicked)
  go_on (nested try) s t e = swap s t (nested_rejected try) holding
  go_on (nested_rejected try) s t e = do_unlock s t (rejection try holding nested_panicked)
  go_on releasing s t e = do_unlock s t idle
  go_on wait_begun s t e = record s {
    inner = (k.k_mutex_unlock s.inner t).1;
    pc = at s.pc t waiting;
  }
  go_on waiting s t e = after_lock s t (lock k checks s.inner t k_forever e) woken unwrap
  go_on woken s t e = record s { locked = true; pc = at s.pc t holding }
  go_on _ s t e = s

  unfoldable pub call_lock : Pc → Bool → System → ℕ → ℕ → System
  unfolding begin_lock
  call_lock idle try s t e = begin_lock try s t e (entered try)
  call_lock holding try s t e = begin_lock try s t e (nested try)
  call_lock _ try s t e = s

  -- `Drop for MutexGuard`, its first access
  unfoldable pub call_drop : Pc → System → ℕ → System
  call_drop holding s t = record s { locked = false; pc = at s.pc t releasing }
  call_drop _ s t = s

  -- `Condvar::wait`, its first access
  unfoldable pub call_wait : Pc → System → ℕ → System
  call_wait holding s t = record s { locked = false; pc = at s.pc t wait_begun }
  call_wait _ s t = s

  unfoldable pub step : System → ℕ → Act → ℕ → System
  unfolding go_on call_lock call_drop call_wait
  step s t (locks try) e = call_lock (s.pc t) try s t e
  step s t drops e = call_drop (s.pc t) s t
  step s t waits_on e = call_wait (s.pc t) s t
  step s t goes_on e = go_on (s.pc t) s t e

  -- Any threads, in any order.
  unfoldable pub run : System → List (ℕ × Act × ℕ) → System
  unfolding step
  run s [] = s
  run s ((t, a, e) ∷ acts) = run (step s t a e) acts
