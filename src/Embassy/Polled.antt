-- ===== src/Embassy/Polled.antt =====
-- A task that was woken is polled: the executor does not go to sleep on it.
use zephyr_lang_rust.Prelude.{
  ℕ, zero, suc, ◌<◌, ◌≡◌, ◌≢◌, refl, ap, ◌∙◌, ◌⊎◌, inl, inr, Bool, false, List, [], ◌∷◌, Bool-cases,
  arith,
}
use zephyr_lang_rust.Prelude.Outcome.{ret}
use zephyr_lang_rust.Error.{to_result_void}
use zephyr_lang_rust.Time.{from_forever}
use zephyr_lang_rust.Semaphore.{KSem}
use zephyr_lang_rust.Semaphore
use zephyr_lang_rust.Embassy.Executor.{
  RawExecutor, Pc, waiting, taken, Choice, wakes, pends, goes_on, Executor, new, wake, pender, turn,
  step, run,
}

abbrev IsAt : Pc → Type 0
IsAt p = (p ≡ waiting) ⊎ (p ≡ taken)

pc_cases : (p : Pc) → IsAt p
pc_cases waiting = inl refl
pc_cases taken = inr refl

module _ (k : KSem) (r : RawExecutor) (checks : Bool) where
  -- A waker is to call `__pender`, the semaphore has been given, or the executor is before `poll`.
  data Heard (x : Executor k r checks) : Type 0 where
    by_waker : 0 < x.pending → Heard x
    by_count : 0 < k.count x.poll_needed → Heard x
    by_turn : x.pc ≡ taken → Heard x

  record IsHeard (x : Executor k r checks) : Type 0 where
    limit : k.limit x.poll_needed ≡ 1
    heard : r.tasks x.inner ≢ [] → Heard x

  -- The semaphore, taken or waited for.
  data Took (x : Executor k r checks) (e : ℕ) : Type 0 where
    took :
        (s : k.S)
        → turn k r checks x waiting e ≡ record x { poll_needed = s; pc = taken }
        → k.limit s ≡ k.limit x.poll_needed
        → Took x e
    slept : turn k r checks x waiting e ≡ x → k.count x.poll_needed ≡ 0 → Took x e

  take-by : (x : Executor k r checks) (e n : ℕ) → k.count x.poll_needed ≡ n → Took x e
  unfolding turn Semaphore.take to_result_void
  take-by x e zero c =
      let (code, went, codes) = k.take_none x.poll_needed from_forever e c in
      slept (rw went (rw (k.expired_forever e) refl)) c
  take-by x e (suc n) c =
      let (s, went, c', l) = k.take_some x.poll_needed from_forever e n c in took s (rw went refl) l

  -- A task that is queued behind others: who was to hear of them still is.
  Heard-behind :
      (x : Executor k r checks) (inner : r.X) → Heard x → Heard (record x { inner = inner })
  Heard-behind x inner (by_waker p) = by_waker p
  Heard-behind x inner (by_count p) = by_count p
  Heard-behind x inner (by_turn p) = by_turn p

  quiet-some :
      (x : Executor k r checks) (t : ℕ) → (r.enqueue x.inner t).1 ≡ false → r.tasks x.inner ≢ []
  quiet-some x t off none_queued = cc (off, r.enqueue_pends x.inner t none_queued)

  wake-IsHeard : (x : Executor k r checks) (t : ℕ) → IsHeard x → IsHeard (wake k r checks x t)
  unfolding wake
  wake-IsHeard x t h = elim (Bool-cases (r.enqueue x.inner t).1) [
    | inl on ↦ rw on (record { limit = h.limit; heard = λ q. by_waker (omega arith) })
    | inr off ↦ rw off (record {
      limit = h.limit;
      heard = λ q. Heard-behind x (r.enqueue x.inner t).0 (h.heard (quiet-some x t off));
    })
  ]

  pender-IsHeard :
      (x : Executor k r checks) (n : ℕ)
      → x.pending ≡ n
      → IsHeard x
      → IsHeard (pender k r checks x n)
  unfolding pender Semaphore.give
  pender-IsHeard x zero e h = h
  pender-IsHeard x (suc n) e h =
      let (count, same) = k.give_lem x.poll_needed in
      record { limit = same ∙ h.limit; heard = λ q. by_count (ground (arith, count, h.limit)) }

  turn-IsHeard :
      (p : Pc) (x : Executor k r checks) (e : ℕ)
      → x.pc ≡ p
      → IsHeard x
      → IsHeard (turn k r checks x p e)
  turn-IsHeard waiting x e h i = elim (take-by x e (k.count x.poll_needed) refl) [
    | took s went l ↦ rw went (record { limit = l ∙ i.limit; heard = λ q. by_turn refl })
    | slept went c ↦ rw went i
  ]
  turn-IsHeard taken x e h i =
      unfold turn in record { limit = i.limit; heard = λ q. absurd (q (r.poll_empties x.inner)) }

  step-IsHeard : (x : Executor k r checks) (c : Choice) → IsHeard x → IsHeard (step k r checks x c)
  unfolding step
  step-IsHeard x (wakes t) h = wake-IsHeard x t h
  step-IsHeard x pends h = pender-IsHeard x x.pending refl h
  step-IsHeard x (goes_on e) h = turn-IsHeard x.pc x e refl h

  run-IsHeard :
      (cs : List Choice) (x : Executor k r checks) → IsHeard x → IsHeard (run k r checks x cs)
  unfolding run
  run-IsHeard [] x h = h
  run-IsHeard (c ∷ cs) x h = run-IsHeard cs (step k r checks x c) (step-IsHeard x c h)

  -- The executor as it is made.
  abbrev pub begun : Executor k r checks
  begun = record {
    inner = r.new;
    poll_needed = k.k_sem_init 0 1;
    pc = waiting;
    pending = 0;
    polled = [];
  }

  begun-IsHeard : IsHeard begun
  begun-IsHeard = record { limit = (k.init_lem 0 1).1; heard = λ q. absurd (q r.new_empty) }

  new-begun : new k r checks ≡ ret begun
  unfolding new Semaphore.new
  new-begun = refl

  two_turns :
      (x y z : Executor k r checks) (p q : Pc) (e e' : ℕ)
      → x.pc ≡ p
      → turn k r checks x p e ≡ y
      → y.pc ≡ q
      → turn k r checks y q e' ≡ z
      → run k r checks x (goes_on e ∷ goes_on e' ∷ []) ≡ z
  unfolding run step
  two_turns x y z p q e e' a b c d =
      ap (λ w. step k r checks w (goes_on e')) (ap (λ o. turn k r checks x o e) a ∙ b)
      ∙ ap (λ o. turn k r checks y o e') c
      ∙ d

  polled : Executor k r checks → Executor k r checks
  polled x = record x {
    inner = (r.poll x.inner).0;
    pc = waiting;
    polled = (r.poll x.inner).1 ∷ x.polled;
  }

  turn-polled : (x : Executor k r checks) (e : ℕ) → turn k r checks x taken e ≡ polled x
  unfolding turn polled
  turn-polled x e = refl

  -- What two turns leave: nothing queued, and one more batch, of what was.
  abbrev Polls : Executor k r checks → Executor k r checks → Type 0
  Polls x y = (r.tasks y.inner ≡ []) × (y.polled ≡ r.tasks x.inner ∷ x.polled)

  polled-Polls : (x : Executor k r checks) → Polls x (polled x)
  unfolding polled
  polled-Polls x = (r.poll_empties x.inner, ap (λ l. l ∷ x.polled) (r.poll_runs x.inner))

  Polls-waiting :
      (x : Executor k r checks) (e e' : ℕ)
      → x.pc ≡ waiting
      → 0 < k.count x.poll_needed
      → Polls x (run k r checks x (goes_on e ∷ goes_on e' ∷ []))
  unfolding polled
  Polls-waiting x e e' w c = elim (take-by x e (k.count x.poll_needed) refl) [
    | slept went zero_left ↦ absurd (omega (arith, zero_left))
    | took s went l ↦
        let y : Executor k r checks = record x { poll_needed = s; pc = taken } in
        rw (two_turns x y (polled y) waiting taken e e' w went refl (turn-polled y e'))
          (polled-Polls y)
  ]

  Polls-taken :
      (x : Executor k r checks) (e e' : ℕ)
      → x.pc ≡ taken
      → Polls x (run k r checks x (goes_on e ∷ goes_on e' ∷ []))
  unfolding polled
  Polls-taken x e e' t =
      let y = polled x in
      elim (take-by y e' (k.count y.poll_needed) refl) [
        | slept went zero_left ↦
            rw (two_turns x y y taken waiting e e' t (turn-polled x e) refl went) (polled-Polls x)
        | took s went l ↦
            let z : Executor k r checks = record y { poll_needed = s; pc = taken } in
            rw (two_turns x y z taken waiting e e' t (turn-polled x e) refl went) (polled-Polls x)
      ]

  Polls-Heard :
      (x : Executor k r checks) (e e' : ℕ)
      → x.pending ≡ 0
      → IsAt x.pc
      → Heard x
      → Polls x (run k r checks x (goes_on e ∷ goes_on e' ∷ []))
  Polls-Heard x e e' q (inl w) (by_waker p) = absurd (omega (arith, p, q))
  Polls-Heard x e e' q (inl w) (by_count c) = Polls-waiting x e e' w c
  Polls-Heard x e e' q (inl w) (by_turn t) = absurd (cc (w, t))
  Polls-Heard x e e' q (inr t) h = Polls-taken x e e' t

  -- `new` returns, whether or not overflow is checked, with nothing queued and a semaphore of the kernel
  -- of count 0 and limit 1; and after any wakes, calls of `__pender` and turns of it, if tasks are
  -- queued and no waker is between its two steps, then two turns of the executor, however long they
  -- have waited, poll exactly the tasks that were queued, and leave none queued.
  pub executor-polls :
      (cs : List Choice) (e e' : ℕ)
      → r.tasks (run k r checks begun cs).inner ≢ []
      → (run k r checks begun cs).pending ≡ 0
      → let x = run k r checks begun cs in
        let y = run k r checks x (goes_on e ∷ goes_on e' ∷ []) in
        (new k r checks ≡ ret begun)
        × (r.tasks y.inner ≡ [])
        × (y.polled ≡ r.tasks x.inner ∷ x.polled)
  executor-polls cs e e' some_tasks quiet =
      let h = run-IsHeard cs begun begun-IsHeard in
      let (none_left, batch) =
        Polls-Heard (run k r checks begun cs) e e' quiet (pc_cases (run k r checks begun cs).pc)
          (h.heard some_tasks) in
      (new-begun, none_left, batch)
