-- ===== src/Blocking/Invariant/WorkerMoves.antt =====
-- The ways in which a step of a worker moves as `Workers` wants it.
use zephyr_lang_rust.Prelude.{
  ℕ, ◌≡◌, ◌≢◌, inl, refl, Bool, true, false, Option, none, some, count, arith, if◌then◌else◌,
}
use zephyr_lang_rust.Blocking.Slot.{Env, Mem, FutPc, WorkPc}
use zephyr_lang_rust.Blocking.Invariant.Defs.{held, served, FutFits, WorkFits, SlotSame}
use zephyr_lang_rust.Blocking.Invariant.Workers.{Moves}

-- The step to `x` moves as wanted, with some slot touched.
abbrev pub StepsTo :
    (env : Env) (m : Mem env) (fut : ℕ → FutPc) (p : WorkPc) → Mem env × WorkPc → Type 0
StepsTo env m fut p x = (T : Option ℕ) × Moves env m x.0 fut p x.1 T

module _ {env : Env} {m : Mem env} {fut : ℕ → FutPc} {p : WorkPc} where
  open env.kernel use {items}

  pub branch :
      (b : Bool) (x y : Mem env × WorkPc)
      → (b ≡ true → StepsTo env m fut p x)
      → (b ≡ false → StepsTo env m fut p y)
      → StepsTo env m fut p (if b then x else y)
  branch true x y h k = h refl
  branch false x y h k = k refl

  pub branch_option :
      {A : Type 0} (o : Option A) (x : Mem env × WorkPc) (y : A → Mem env × WorkPc)
      → (o ≡ none → StepsTo env m fut p x)
      → ((a : A) → o ≡ some a → StepsTo env m fut p (y a))
      → StepsTo env m fut p (elim o [ none ↦ x | some a ↦ y a ])
  branch_option none x y h k = h refl
  branch_option (some a) x y h k = k a refl

  -- A step that touches no slot.
  pub quiet :
      (m' : Mem env) (p' : WorkPc)
      → served p' ≡ none
      → WorkFits env m' fut p'
      → ((s : ℕ) → SlotSame env m m' s)
      → ((s : ℕ) → count s (items m'.queue) ≡ count s (items m.queue))
      → ((h : ℕ) → (m'.alive h ≡ m.alive h) × (m'.op h ≡ m.op h) × (m'.result h ≡ m.result h))
      → StepsTo env m fut p (m', p')
  quiet m' p' h own sl q same = (
    none,
    record {
      touches = record { slots_same = λ s n. sl s; queue_same = λ s n. q s };
      own = own;
      keeps = λ s k. absurd (cc);
      claims = λ s t. absurd (cc);
      alive = λ h. (same h).0;
      others = λ h away. ((same h).1, (same h).2);
      holders = λ s h t. absurd (cc);
      queued = λ s t. absurd (cc);
    },
  )

  -- A step that touches the slot `s` that the worker serves.
  pub serving_step :
      (m' : Mem env) (p' : WorkPc) (s : ℕ)
      → served p ≡ some s
      → ((t : ℕ) → served p' ≡ some t → s ≡ t)
      → WorkFits env m' fut p'
      → ((t : ℕ) → s ≢ t → m'.slots t ≡ m.slots t)
      → ((t : ℕ) → m'.queue ≡ m.queue)
      → ((h : ℕ) → m'.alive h ≡ m.alive h)
      → ((h : ℕ) → held (fut h) ≢ some s → (m'.op h ≡ m.op h) × (m'.result h ≡ m.result h))
      → ((h : ℕ) → held (fut h) ≡ some s → FutFits env m h (fut h) → FutFits env m' h (fut h))
      → count s (items m.queue) ≡ 0
      → StepsTo env m fut p (m', p')
  serving_step m' p' s e k own sl q al oth hold c = (
    some s,
    record {
      touches = record {
        slots_same = λ t n. let d = sl t (λ d. n (cc)) in (rw d, rw d, rw d);
        queue_same = λ t n. rw (q t);
      };
      own = own;
      keeps = λ t h. let d : s ≡ t = k t h in cc;
      claims = λ t h. inl (cc);
      alive = al;
      others = λ h away. oth h (λ d. away s d refl);
      holders = λ t h d. let d' : s ≡ t = ground arith in rw (← d') (hold h);
      queued = λ t d c'. absurd (ground (arith, q t));
    },
  )
