-- ===== src/Blocking/Invariant/Workers.antt =====
-- A step of a worker keeps the invariant, if it does at the slot that it touches.
use zephyr_lang_rust.Prelude.{
  ℕ, ◌<◌, ◌≡◌, ◌≢◌, ◌⊎◌, inl, inr, refl, sym, ◌∙◌, Option, some, count, arith, ℕ_discrete,
  Option-cases,
}
use zephyr_lang_rust.Blocking.Slot.{Env, Mem, FutPc, WorkPc, update}
use zephyr_lang_rust.Blocking.Invariant.Defs.{
  held, served, FutFits, WorkFits, QueueFits, Touches, Inv,
}
use zephyr_lang_rust.Blocking.Invariant.Frame.{FutFits-frame, WorkFits-frame, QueueFits-frame}
use zephyr_lang_rust.Blocking.Invariant.Served.{serving}
use zephyr_lang_rust.Blocking.Invariant.Futures.{Option-same}

module _ (env : Env) (m m' : Mem env) (fut : ℕ → FutPc) (p p' : WorkPc) (T : Option ℕ) where
  open env.kernel use {items}

  -- What a step of a worker from place `p` to `p'` shows, if it touches at most the slot `T`.
  pub record Moves : Type 0 where
    pub touches : Touches env m m' T
    pub own : WorkFits env m' fut p'
    pub keeps : (s : ℕ) → served p' ≡ some s → T ≡ some s
    pub claims : (s : ℕ) → T ≡ some s → (served p ≡ some s) ⊎ (0 < count s (items m.queue))
    pub alive : (h : ℕ) → m'.alive h ≡ m.alive h
    pub others :
        (h : ℕ)
        → ((s : ℕ) → held (fut h) ≡ some s → T ≢ some s)
        → (m'.op h ≡ m.op h) × (m'.result h ≡ m.result h)
    pub holders :
        (s h : ℕ)
        → T ≡ some s
        → held (fut h) ≡ some s
        → FutFits env m h (fut h)
        → FutFits env m' h (fut h)
    pub queued : (s : ℕ) → T ≡ some s → QueueFits env m' fut s

  module _ {work : ℕ → WorkPc} (w : ℕ) (at : work w ≡ p) (inv : Inv env m fut work)
      (moves : Moves) where
    open inv use {futures, workers, queue, one_holder, one_server, living}
    open moves use {touches, own, keeps, claims, alive, others, holders, queued}

    -- No other worker serves the slot that is touched.
    alone : (v s : ℕ) → v ≢ w → served (work v) ≡ some s → T ≢ some s
    alone v s n h t = elim (claims s t) [
      | inl mine ↦ n (one_server v w s h (rw at mine))
      | inr c ↦ omega (arith, (serving env m fut (work v) s h (workers v)).0)
    ]

    elsewhere : (v : ℕ) → v ≢ w → update work w p' v ≡ work v
    elsewhere v n = ground arith

    moved : update work w p' w ≡ p'
    moved = ground arith

    kept : (s g : ℕ) → T ≢ some s → held (fut g) ≡ some s → (fut g ≡ fut g) × (m'.op g ≡ m.op g)
    kept s g n h = (refl, (others g (λ s' h' t. n (cc))).0)

    futures' : (h : ℕ) → FutFits env m' h (fut h)
    futures' h = elim (Option-cases (held (fut h))) [
      | inl free ↦
          let away : (s : ℕ) → held (fut h) ≡ some s → T ≢ some s = λ s e t. cc in
          FutFits-frame env touches h (fut h) (others h away) away (futures h)
      | inr (s, e) ↦ elim (Option-same T s) [
        | inl t ↦ holders s h t e (futures h)
        | inr n ↦
            let away : (s' : ℕ) → held (fut h) ≡ some s' → T ≢ some s' = λ s' e' t. n (cc) in
            FutFits-frame env touches h (fut h) (others h away) away (futures h)
      ]
    ]

    workers' : (v : ℕ) → WorkFits env m' fut (update work w p' v)
    workers' v = elim (ℕ_discrete v w) [
      | yes e ↦ rw (e, moved) own
      | no n ↦
          rw (elsewhere v n)
            (WorkFits-frame env touches kept (work v) (λ s h. alone v s n h) (workers v))
    ]

    queue' : (s : ℕ) → QueueFits env m' fut s
    queue' s = elim (Option-same T s) [
      | inl t ↦ queued s t
      | inr n ↦ QueueFits-frame env touches kept s n (queue s)
    ]

    one_server' :
        (u v s : ℕ)
        → served (update work w p' u) ≡ some s
        → served (update work w p' v) ≡ some s
        → u ≡ v
    one_server' u v s a b = elim (ℕ_discrete u w) [
      | yes e ↦ elim (ℕ_discrete v w) [
        | yes e' ↦ e ∙ sym e'
        | no n ↦ absurd (alone v s n (rw (elsewhere v n) at b) (keeps s (rw (e, moved) at a)))
      ]
      | no n ↦ elim (ℕ_discrete v w) [
        | yes e' ↦ absurd (alone u s n (rw (elsewhere u n) at a) (keeps s (rw (e', moved) at b)))
        | no n' ↦ one_server u v s (rw (elsewhere u n) at a) (rw (elsewhere v n') at b)
      ]
    ]

    pub Moves-Inv : Inv env m' fut (update work w p')
    Moves-Inv = record {
      futures = futures';
      workers = workers';
      queue = queue';
      one_holder = one_holder;
      one_server = one_server';
      living = λ h. alive h ∙ living h;
    }
