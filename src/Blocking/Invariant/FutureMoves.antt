-- ===== src/Blocking/Invariant/FutureMoves.antt =====
-- The kinds of steps of a future.
use zephyr_lang_rust.Prelude.{
  ℕ, ◌≡◌, ◌≢◌, ◌⊎◌, inl, refl, Bool, true, false, not, Option, none, some, count, arith,
  if◌then◌else◌,
}
use zephyr_lang_rust.Blocking.Slot.{Env, Mem, FutPc, WorkPc, update}
use zephyr_lang_rust.Blocking.Future.{Act, future_step}
use zephyr_lang_rust.Blocking.Invariant.Defs.{
  held, served, submitted, is_gone, FutFits, WorkFits, QueueFits, Local,
}
use zephyr_lang_rust.Blocking.Invariant.Served.{WorkFits-map}
use zephyr_lang_rust.Blocking.Invariant.Futures.{Moves}

module _ (env : Env) (m : Mem env) (fut : ℕ → FutPc) (f : ℕ) where
  -- The step to `x` moves as wanted, with some slot touched.
  abbrev pub StepsTo : Mem env × FutPc → Type 0
  StepsTo x = (T : Option ℕ) × Moves env m x.0 fut f x.1 T

  abbrev pub Steps : FutPc → Act → Type 0
  Steps p a = StepsTo (future_step env m f p a)

  pub branch :
      (b : Bool) (x y : Mem env × FutPc)
      → (b ≡ true → StepsTo x)
      → (b ≡ false → StepsTo y)
      → StepsTo (if b then x else y)
  branch true x y h k = h refl
  branch false x y h k = k refl

  pub branch_option :
      (o : Option (Mem env)) (x : Mem env × FutPc) (y : Mem env → Mem env × FutPc)
      → StepsTo x
      → ((m' : Mem env) → o ≡ some m' → StepsTo (y m'))
      → StepsTo (elim o [ none ↦ x | some m' ↦ y m' ])
  branch_option none x y h k = h
  branch_option (some m') x y h k = k m' refl

  pub branch_result :
      (o : Option ℕ) (x : Mem env × FutPc) (y : ℕ → Mem env × FutPc)
      → (o ≡ none → StepsTo x)
      → ((r : ℕ) → o ≡ some r → StepsTo (y r))
      → StepsTo (elim o [ none ↦ x | some r ↦ y r ])
  branch_result none x y h k = h refl
  branch_result (some r) x y h k = k r refl

  -- A step that touches no slot, of a future that holds none.
  pub quiet :
      (m' : Mem env) (p' : FutPc)
      → held (fut f) ≡ none
      → held p' ≡ none
      → Local env m m' f none
      → FutFits env m' f p'
      → m'.alive f ≡ not (is_gone p')
      → (T : Option ℕ) × Moves env m m' fut f p' T
  quiet m' p' h h' local own alive = (
    none,
    record {
      local = local;
      own = own;
      claims = λ s t. absurd (cc);
      keeps = λ s k. absurd (cc);
      holds = λ s k. absurd (cc);
      alive = alive;
      servers = λ s w t. absurd (cc);
      queued = λ s t. absurd (cc);
    },
  )

  -- Only the waiters, the wakeups and the memory of `f` have changed.
  pub calm :
      (m' : Mem env)
      → m'.slots ≡ m.slots
      → m'.queue ≡ m.queue
      → m'.op ≡ m.op
      → m'.result ≡ m.result
      → ((g : ℕ) → g ≢ f → m'.alive g ≡ m.alive g)
      → Local env m m' f none
  calm m' sl q o r al = record {
    touches = record { slots_same = λ s n. (rw sl, rw sl, rw sl); queue_same = λ s n. rw q };
    op_same = λ g n. rw o;
    result_same = λ g n. rw r;
    alive_same = al;
  }

  -- Only slot `s`, its place in the queue, and what belongs to `f` have changed.
  pub Local-at :
      (m' : Mem env) (s : ℕ)
      → ((t : ℕ) → s ≢ t → m'.slots t ≡ m.slots t)
      → ((t : ℕ) → s ≢ t → count t (env.kernel.items m'.queue) ≡ count t (env.kernel.items m.queue))
      → ((g : ℕ) → g ≢ f → m'.op g ≡ m.op g)
      → ((g : ℕ) → g ≢ f → m'.result g ≡ m.result g)
      → ((g : ℕ) → g ≢ f → m'.alive g ≡ m.alive g)
      → Local env m m' f (some s)
  Local-at m' s sl q o r al = record {
    touches = record {
      slots_same = λ t n. let e = sl t (λ e. n (cc)) in (rw e, rw e, rw e);
      queue_same = λ t n. q t (λ e. n (cc));
    };
    op_same = o;
    result_same = r;
    alive_same = al;
  }

  -- A step of a future that holds slot `s`, while no worker serves it and it is not queued.
  pub private_step :
      (m' : Mem env) (p' : FutPc) (s : ℕ)
      → held (fut f) ≡ some s
      → ((held p' ≡ some s) ⊎ (held p' ≡ none))
      → Local env m m' f (some s)
      → FutFits env m' f p'
      → m'.alive f ≡ not (is_gone p')
      → ((w : WorkPc) → served w ≡ some s → WorkFits env m fut w → ⊥)
      → QueueFits env m' (update fut f p') s
      → StepsTo (m', p')
  private_step m' p' s h h' local own alive noone queued = (
    some s,
    record {
      local = local;
      own = own;
      claims = λ t e. inl (ground arith);
      keeps = λ t k. ground arith;
      holds = λ t k. ground arith;
      alive = alive;
      servers = λ t w e sv k. absurd (noone w (ground arith) k);
      queued = λ t e q. let d : s ≡ t = ground arith in rw (← d) queued;
    },
  )

  -- A step of a future that has submitted slot `s` and goes on holding it.
  pub shared_step :
      (m' : Mem env) (p' : FutPc) (s : ℕ)
      → held (fut f) ≡ some s
      → held p' ≡ some s
      → submitted p' ≡ true
      → Local env m m' f (some s)
      → FutFits env m' f p'
      → m'.alive f ≡ not (is_gone p')
      → (((m'.slots s).state ≡ (m.slots s).state)
          × ((m'.slots s).shared ≡ (m.slots s).shared)
          × ((m'.slots s).runner ≡ (m.slots s).runner)
          × (m'.op ≡ m.op))
      → (count s (env.kernel.items m.queue) ≡ 0 → count s (env.kernel.items m'.queue) ≡ 0)
      → (QueueFits env m fut s → QueueFits env m' (update fut f p') s)
      → StepsTo (m', p')
  shared_step m' p' s h h' sub local own alive kept cnt queued = (
    some s,
    record {
      local = local;
      own = own;
      claims = λ t e. inl (ground arith);
      keeps = λ t k. ground arith;
      holds = λ t k. ground arith;
      alive = alive;
      servers = λ t w e sv k.
          let d : s ≡ t = ground arith in
          WorkFits-map env m m' fut (update fut f p') t (λ g act. inl (ground arith, ground arith))
            (λ o. ground arith) (rw d at cnt) (ground arith) w sv k;
      queued = λ t e q. let d : s ≡ t = ground arith in rw (← d) (queued (rw (← d) at q));
    },
  )
