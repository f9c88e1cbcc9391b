-- ===== src/Mutex/Exclusion.antt =====
-- No two threads have the guard of a `Mutex`, and a lock panics in the thread that has it alone.
use zephyr_lang_rust.Prelude.{ℕ, ◌≡◌, ◌≢◌, refl, ◌∙◌, Bool, true, false, some, List, [], ◌∷◌, arith}
use zephyr_lang_rust.Mutex.{KMutex}
use zephyr_lang_rust.Mutex.Machine.{
  Pc, idle, entered, rejected, panicked, holding, nested, nested_rejected, nested_panicked,
  releasing, wait_begun, waiting, woken, Act, locks, goes_on, System, new, rejection, call_lock,
  step, run,
}
use zephyr_lang_rust.Mutex.Held.{level, flag, is_sound, Inv, owns, at_self}
use zephyr_lang_rust.Mutex.Moves.{reached, step-Inv, begin_lock-nested, unlock_inner-ret}

-- The places at which a thread has a `MutexGuard`.
abbrev pub has_guard : Pc → Bool
has_guard holding = true
has_guard (nested try) = true
has_guard (nested_rejected try) = true
has_guard nested_panicked = true
has_guard _ = false

module _ (k : KMutex) (checks : Bool) where
  has_guard-level : (p : Pc) → has_guard p ≡ true → is_sound p ≡ true → (n : ℕ) × (level p ≡ some n)
  has_guard-level holding h g = (0, refl)
  has_guard-level (nested b) h g = (1, refl)
  has_guard-level (nested_rejected b) h g = (1, refl)
  has_guard-level nested_panicked h g = (0, refl)
  has_guard-level idle h g = absurd (cc)
  has_guard-level (entered b) h g = absurd (cc)
  has_guard-level (rejected b) h g = absurd (cc)
  has_guard-level panicked h g = absurd (cc)
  has_guard-level releasing h g = absurd (cc)
  has_guard-level wait_begun h g = absurd (cc)
  has_guard-level waiting h g = absurd (cc)
  has_guard-level woken h g = absurd (cc)

  -- Whatever calls of `lock`, `try_lock`, the guard's drop and `Condvar::wait` any threads make on a
  -- new mutex, and however their accesses interleave, two threads that have its guard are the same.
  pub run-exclusive :
      (acts : List (ℕ × Act × ℕ)) (t u : ℕ)
      → has_guard ((run k checks (new k checks) acts).pc t) ≡ true
      → has_guard ((run k checks (new k checks) acts).pc u) ≡ true
      → t ≡ u
  run-exclusive acts t u g h =
      let i = reached k checks acts in
      let (n, l) = has_guard-level _ g (i.sound t) in
      let (m, l') = has_guard-level _ h (i.sound u) in
      let o = owns k checks (run k checks (new k checks) acts) t n i.held l in
      let o' = owns k checks (run k checks (new k checks) acts) u m i.held l' in
      cc (o.holder, o'.holder)

  -- In the same runs no `unwrap` fails, no drop of a guard panics, and no call of `lock` panics in a
  -- thread that does not have the guard.
  pub run-no_panic :
      (acts : List (ℕ × Act × ℕ)) (t : ℕ)
      → ((run k checks (new k checks) acts).fault ≡ false)
        × ((run k checks (new k checks) acts).pc t ≢ panicked)
  run-no_panic acts t =
      ((reached k checks acts).no_fault, λ e. cc (e, (reached k checks acts).sound t))

  nested-pc :
      (s : System k checks) (t e : ℕ) (try : Bool)
      → Inv k checks s
      → s.pc t ≡ holding
      → (step k checks s t (locks try) e).pc t ≡ nested try
  unfolding step
  nested-pc s t e try i h =
      let o = owns k checks s t 0 i.held (rw h refl) in
      let (m, went, now) = begin_lock-nested k checks try s t e o.holder in
      rw h (unfold call_lock in rw went (at_self s.pc t (nested try)))

  swapped-pc :
      (s : System k checks) (t e : ℕ) (try : Bool)
      → Inv k checks s
      → s.pc t ≡ nested try
      → (step k checks s t goes_on e).pc t ≡ nested_rejected try
  unfolding step
  swapped-pc s t e try i h =
      let o = owns k checks s t 1 i.held (rw h refl) in rw h (ground (arith, o.locked, h))

  rejected-pc :
      (s : System k checks) (t e : ℕ) (try : Bool)
      → Inv k checks s
      → s.pc t ≡ nested_rejected try
      → (step k checks s t goes_on e).pc t ≡ rejection k checks try holding nested_panicked
  unfolding step
  rejected-pc s t e try i h =
      let o = owns k checks s t 1 i.held (rw h refl) in
      let (m, went, now) =
        unlock_inner-ret k checks s t 0 (rejection k checks try holding nested_panicked) o.holder in
      rw h (rw went (at_self s.pc t (rejection k checks try holding nested_panicked)))

  rejection-level : (try : Bool) → level (rejection k checks try holding nested_panicked) ≡ some 0
  rejection-level true = refl
  rejection-level false = refl

  rejection-flag : (try : Bool) → flag (rejection k checks try holding nested_panicked) ≡ true
  rejection-flag true = refl
  rejection-flag false = refl

  -- Where a thread that has the guard comes to by `try_lock` (true) and by `lock`.
  abbrev pub after_second : Bool → Pc
  after_second true = holding
  after_second false = nested_panicked

  rejected-after_second :
      (try : Bool) → rejection k checks try holding nested_panicked ≡ after_second try
  rejected-after_second true = refl
  rejected-after_second false = refl

  -- After the same runs, a thread that has the guard and calls `lock` or `try_lock`, alone for three
  -- accesses, comes to panic in `lock`, and to have the guard as before in `try_lock`, and either way
  -- it has the kernel's mutex once and `locked` is set.
  pub run-recursive :
      (acts : List (ℕ × Act × ℕ)) (t e e' e'' : ℕ) (try : Bool)
      → (run k checks (new k checks) acts).pc t ≡ holding
      → let s =
          run k checks
            (run k checks (new k checks) acts)
            ((t, locks try, e) ∷ (t, goes_on, e') ∷ (t, goes_on, e'') ∷ []) in
        (s.pc t ≡ after_second try) × (s.locked ≡ true) × (k.holder s.inner ≡ some (t, 0))
  unfolding run
  run-recursive acts t e e' e'' try h =
      let s0 = run k checks (new k checks) acts in
      let i0 = reached k checks acts in
      let s1 = step k checks s0 t (locks try) e in
      let i1 = step-Inv k checks s0 t (locks try) e i0 in
      let s2 = step k checks s1 t goes_on e' in
      let i2 = step-Inv k checks s1 t goes_on e' i1 in
      let s3 = step k checks s2 t goes_on e'' in
      let i3 = step-Inv k checks s2 t goes_on e'' i2 in
      let at_end =
        rejected-pc s2 t e'' try i2 (swapped-pc s1 t e' try i1 (nested-pc s0 t e try i0 h)) in
      let o = owns k checks s3 t 0 i3.held (rw at_end (rejection-level try)) in
      (at_end ∙ rejected-after_second try, o.locked ∙ (rw at_end (rejection-flag try)), o.holder)
