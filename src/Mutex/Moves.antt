-- ===== src/Mutex/Moves.antt =====
-- Every access of every thread keeps the invariant of a `Mutex`.
use zephyr_lang_rust.Prelude.{
  ℕ, suc, ◌≡◌, refl, sym, ◌∙◌, Bool, true, false, none, some, List, [], ◌∷◌, if◌then◌else◌,
  ℕ_discrete, Bool-cases, inl, inr,
}
use zephyr_lang_rust.Prelude.Int.{pos}
use zephyr_lang_rust.Prelude.Outcome.{ret, ok}
use zephyr_lang_rust.Error.{to_result_void}
use zephyr_lang_rust.Time.{Timeout, from_forever, from_no_wait, k_forever}
use zephyr_lang_rust.Mutex.{KMutex, lock}
use zephyr_lang_rust.Mutex.Machine.{
  Pc, idle, entered, rejected, panicked, holding, nested, nested_rejected, nested_panicked,
  releasing, wait_begun, waiting, woken, Act, locks, drops, waits_on, goes_on, at, System, new,
  after_lock, unwrap, begin_lock, swap, do_unlock, go_on, call_lock, call_drop, call_wait, step,
  run,
}
use zephyr_lang_rust.Mutex.Held.{level, flag, is_sound, free, by, Inv, owns, Inv-by, Inv-free}

module _ (k : KMutex) (checks : Bool) where
  void-ok : to_result_void checks (pos 0) ≡ ret (ok tt)
  unfolding to_result_void
  void-ok = refl

  unlock_last-ret :
      (s : System k checks) (t : ℕ) (p : Pc)
      → k.holder s.inner ≡ some (t, 0)
      → (m : k.M) × (do_unlock k checks s t p ≡ record s { inner = m; pc = at s.pc t p })
        × (k.holder m ≡ none)
  unfolding do_unlock
  unlock_last-ret s t p h =
      let (m, went, left) = k.unlock_last s.inner t h in (m, rw went (rw void-ok refl), left)

  pub unlock_inner-ret :
      (s : System k checks) (t n : ℕ) (p : Pc)
      → k.holder s.inner ≡ some (t, suc n)
      → (m : k.M) × (do_unlock k checks s t p ≡ record s { inner = m; pc = at s.pc t p })
        × (k.holder m ≡ some (t, n))
  unfolding do_unlock
  unlock_inner-ret s t n p h =
      let (m, went, left) = k.unlock_inner s.inner t n h in (m, rw went (rw void-ok refl), left)

  -- A thread without the kernel's mutex gets it, or goes back, or waits.
  lock-Inv :
      (s : System k checks) (t : ℕ) (timeout : Timeout) (e : ℕ) (p : Pc)
      (back : System k checks → System k checks)
      → Inv k checks s
      → level (s.pc t) ≡ none
      → level p ≡ some 0
      → flag p ≡ false
      → is_sound p ≡ true
      → (k.expired timeout e ≡ true → Inv k checks (back s))
      → Inv k checks (after_lock k checks s t (lock k checks s.inner t timeout e) p back)
  unfolding lock
  lock-Inv s t timeout e p back i none_yet l f g fails = elim i.held [
    | free h d all ↦
        let (m, went, now) = k.lock_free s.inner t timeout e h in
        rw went (
          rw void-ok (
            Inv-by k checks s (record s { inner = m; pc = at s.pc t p }) t 0 p i (λ u q. all u) refl
              i.no_fault now l (d ∙ sym f) g))
    | by u n h at_u d o ↦ elim (ℕ_discrete u t) [
      | yes same ↦ absurd (cc (rw same at at_u))
      | no other ↦
          let (c, went, codes) = k.lock_held s.inner t u n timeout e h other in
          let (r, error) = codes checks in
          elim (Bool-cases (k.expired timeout e)) [
            | inl over ↦ rw went (rw over (rw error (fails over)))
            | inr early ↦ rw went (rw early i)
          ]
    ]
  ]

  lock_again-ret :
      (s : System k checks) (t n : ℕ) (timeout : Timeout) (e : ℕ) (p : Pc)
      (back : System k checks → System k checks)
      → k.holder s.inner ≡ some (t, n)
      → (m : k.M) × (after_lock k checks s t (lock k checks s.inner t timeout e) p back
          ≡ record s { inner = m; pc = at s.pc t p })
        × (k.holder m ≡ some (t, suc n))
  unfolding lock
  lock_again-ret s t n timeout e p back h =
      let (m, went, now) = k.lock_again s.inner t n timeout e h in
      (m, rw went (rw void-ok refl), now)

  -- The kernel's mutex is given up, or locked once less.
  unlock_last-Inv :
      (s : System k checks) (t : ℕ) (p : Pc)
      → Inv k checks s
      → level (s.pc t) ≡ some 0
      → flag (s.pc t) ≡ false
      → level p ≡ none
      → is_sound p ≡ true
      → Inv k checks (do_unlock k checks s t p)
  unlock_last-Inv s t p i l f l' g =
      let o = owns k checks s t 0 i.held l in
      let (m, went, now) = unlock_last-ret s t p o.holder in
      rw went (
        Inv-free k checks s (record s { inner = m; pc = at s.pc t p }) t p i o.others refl
          i.no_fault now l' (o.locked ∙ f) g)

  unlock_inner-Inv :
      (s : System k checks) (t : ℕ) (p : Pc)
      → Inv k checks s
      → level (s.pc t) ≡ some 1
      → flag (s.pc t) ≡ true
      → level p ≡ some 0
      → flag p ≡ true
      → is_sound p ≡ true
      → Inv k checks (do_unlock k checks s t p)
  unlock_inner-Inv s t p i l f l' f' g =
      let o = owns k checks s t 1 i.held l in
      let (m, went, now) = unlock_inner-ret s t 0 p o.holder in
      rw went (
        Inv-by k checks s (record s { inner = m; pc = at s.pc t p }) t 0 p i o.others refl
          i.no_fault now l' (o.locked ∙ f ∙ sym f') g)

  -- A thread that has the kernel's mutex sets `locked` and goes on.
  set-Inv :
      (s : System k checks) (t n : ℕ) (b : Bool) (p : Pc)
      → Inv k checks s
      → level (s.pc t) ≡ some n
      → level p ≡ some n
      → flag p ≡ b
      → is_sound p ≡ true
      → Inv k checks (record s { locked = b; pc = at s.pc t p })
  set-Inv s t n b p i l l' f g =
      let o = owns k checks s t n i.held l in
      Inv-by k checks s (record s { locked = b; pc = at s.pc t p }) t n p i o.others refl i.no_fault
        o.holder l' (sym f) g

  swap-Inv :
      (s : System k checks) (t n : ℕ) (found won p : Pc)
      → Inv k checks s
      → level (s.pc t) ≡ some n
      → (if flag (s.pc t) then found else won) ≡ p
      → level p ≡ some n
      → flag p ≡ true
      → is_sound p ≡ true
      → Inv k checks (swap k checks s t found won)
  unfolding swap
  swap-Inv s t n found won p i l e l' f g =
      let o = owns k checks s t n i.held l in rw (o.locked, e) (set-Inv s t n true p i l l' f g)

  go_on-Inv :
      (p : Pc) (s : System k checks) (t e : ℕ)
      → s.pc t ≡ p
      → Inv k checks s
      → Inv k checks (go_on k checks p s t e)
  unfolding go_on
  go_on-Inv idle s t e h i = i
  go_on-Inv (entered try) s t e h i =
      swap-Inv s t 0 (rejected try) holding holding i (rw h refl) (rw h refl) refl refl refl
  go_on-Inv (rejected try) s t e h i = absurd (cc (i.sound t, h))
  go_on-Inv panicked s t e h i = i
  go_on-Inv holding s t e h i = i
  go_on-Inv (nested try) s t e h i =
      swap-Inv s t 1 (nested_rejected try) holding (nested_rejected try) i (rw h refl) (rw h refl)
        refl refl refl
  go_on-Inv (nested_rejected true) s t e h i =
      unlock_inner-Inv s t holding i (rw h refl) (rw h refl) refl refl refl
  go_on-Inv (nested_rejected false) s t e h i =
      unlock_inner-Inv s t nested_panicked i (rw h refl) (rw h refl) refl refl refl
  go_on-Inv nested_panicked s t e h i = i
  go_on-Inv releasing s t e h i = unlock_last-Inv s t idle i (rw h refl) (rw h refl) refl refl
  go_on-Inv wait_begun s t e h i =
      let o = owns k checks s t 0 i.held (rw h refl) in
      let (m, went, now) = k.unlock_last s.inner t o.holder in
      rw went (
        Inv-free k checks s (record s { inner = m; pc = at s.pc t waiting }) t waiting i o.others
          refl i.no_fault now refl (o.locked ∙ (rw h refl)) refl)
  go_on-Inv waiting s t e h i =
      lock-Inv s t k_forever e woken (unwrap k checks) i (rw h refl) refl refl refl
        (λ over. absurd (cc (over, k.expired_forever e)))
  go_on-Inv woken s t e h i = set-Inv s t 0 true holding i (rw h refl) refl refl refl

  begin_lock-idle :
      (try : Bool) (s : System k checks) (t e : ℕ)
      → level (s.pc t) ≡ none
      → Inv k checks s
      → Inv k checks (begin_lock k checks try s t e (entered try))
  unfolding begin_lock
  begin_lock-idle true s t e l i =
      lock-Inv s t from_no_wait e (entered true) (λ r. r) i l refl refl refl (λ over. i)
  begin_lock-idle false s t e l i =
      lock-Inv s t from_forever e (entered false) (unwrap k checks) i l refl refl refl
        (λ over. absurd (cc (over, k.expired_forever e)))

  pub begin_lock-nested :
      (try : Bool) (s : System k checks) (t e : ℕ)
      → k.holder s.inner ≡ some (t, 0)
      → (m : k.M) × (begin_lock k checks try s t e (nested try)
          ≡ record s { inner = m; pc = at s.pc t (nested try) })
        × (k.holder m ≡ some (t, 1))
  unfolding begin_lock
  begin_lock-nested true s t e h = lock_again-ret s t 0 from_no_wait e (nested true) (λ r. r) h
  begin_lock-nested false s t e h =
      lock_again-ret s t 0 from_forever e (nested false) (unwrap k checks) h

  call_lock-Inv :
      (p : Pc) (try : Bool) (s : System k checks) (t e : ℕ)
      → s.pc t ≡ p
      → Inv k checks s
      → Inv k checks (call_lock k checks p try s t e)
  unfolding call_lock
  call_lock-Inv idle try s t e h i = begin_lock-idle try s t e (rw h refl) i
  call_lock-Inv (entered b) try s t e h i = i
  call_lock-Inv (rejected b) try s t e h i = i
  call_lock-Inv panicked try s t e h i = i
  call_lock-Inv holding try s t e h i =
      let o = owns k checks s t 0 i.held (rw h refl) in
      let (m, went, now) = begin_lock-nested try s t e o.holder in
      rw went (
        Inv-by k checks s (record s { inner = m; pc = at s.pc t (nested try) }) t 1 (nested try) i
          o.others refl i.no_fault now refl (o.locked ∙ (rw h refl)) refl)
  call_lock-Inv (nested b) try s t e h i = i
  call_lock-Inv (nested_rejected b) try s t e h i = i
  call_lock-Inv nested_panicked try s t e h i = i
  call_lock-Inv releasing try s t e h i = i
  call_lock-Inv wait_begun try s t e h i = i
  call_lock-Inv waiting try s t e h i = i
  call_lock-Inv woken try s t e h i = i

  call_drop-Inv :
      (p : Pc) (s : System k checks) (t : ℕ)
      → s.pc t ≡ p
      → Inv k checks s
      → Inv k checks (call_drop k checks p s t)
  unfolding call_drop
  call_drop-Inv idle s t h i = i
  call_drop-Inv (entered b) s t h i = i
  call_drop-Inv (rejected b) s t h i = i
  call_drop-Inv panicked s t h i = i
  call_drop-Inv holding s t h i = set-Inv s t 0 false releasing i (rw h refl) refl refl refl
  call_drop-Inv (nested b) s t h i = i
  call_drop-Inv (nested_rejected b) s t h i = i
  call_drop-Inv nested_panicked s t h i = i
  call_drop-Inv releasing s t h i = i
  call_drop-Inv wait_begun s t h i = i
  call_drop-Inv waiting s t h i = i
  call_drop-Inv woken s t h i = i

  call_wait-Inv :
      (p : Pc) (s : System k checks) (t : ℕ)
      → s.pc t ≡ p
      → Inv k checks s
      → Inv k checks (call_wait k checks p s t)
  unfolding call_wait
  call_wait-Inv idle s t h i = i
  call_wait-Inv (entered b) s t h i = i
  call_wait-Inv (rejected b) s t h i = i
  call_wait-Inv panicked s t h i = i
  call_wait-Inv holding s t h i = set-Inv s t 0 false wait_begun i (rw h refl) refl refl refl
  call_wait-Inv (nested b) s t h i = i
  call_wait-Inv (nested_rejected b) s t h i = i
  call_wait-Inv nested_panicked s t h i = i
  call_wait-Inv releasing s t h i = i
  call_wait-Inv wait_begun s t h i = i
  call_wait-Inv waiting s t h i = i
  call_wait-Inv woken s t h i = i

  pub step-Inv :
      (s : System k checks) (t : ℕ) (a : Act) (e : ℕ)
      → Inv k checks s
      → Inv k checks (step k checks s t a e)
  unfolding step
  step-Inv s t (locks try) e i = call_lock-Inv (s.pc t) try s t e refl i
  step-Inv s t drops e i = call_drop-Inv (s.pc t) s t refl i
  step-Inv s t waits_on e i = call_wait-Inv (s.pc t) s t refl i
  step-Inv s t goes_on e i = go_on-Inv (s.pc t) s t e refl i

  run-Inv :
      (acts : List (ℕ × Act × ℕ)) (s : System k checks)
      → Inv k checks s
      → Inv k checks (run k checks s acts)
  unfolding run
  run-Inv [] s i = i
  run-Inv ((t, a, e) ∷ acts) s i = run-Inv acts (step k checks s t a e) (step-Inv s t a e i)

  new-Inv : Inv k checks (new k checks)
  unfolding new
  new-Inv = record { held = free k.init_free refl (λ t. refl); sound = λ t. refl; no_fault = refl }

  pub reached : (acts : List (ℕ × Act × ℕ)) → Inv k checks (run k checks (new k checks) acts)
  reached acts = run-Inv acts (new k checks) new-Inv
