-- ===== src/Timer/Callbacks.antt =====
-- No interrupt reads freed memory, and the callback that runs is that of the running timer.
use zephyr_lang_rust.Prelude.{
  ℕ, ◌≡◌, refl, sym, ◌∙◌, true, false, none, some, List, [], ◌∷◌, if◌then◌else◌, Bool-cases, inl,
  inr, arith,
}
use zephyr_lang_rust.Prelude.Outcome.{Outcome, ret, Call, done, waits, undefined}
use zephyr_lang_rust.Time.{Timeout}
use zephyr_lang_rust.Timer.{KTimer, Timer, new}
use zephyr_lang_rust.Timer.Simple
use zephyr_lang_rust.Timer.Machine.{
  Pc, stopped, simple, pinned, with_expiry, with_data, callback, halted, cleared, gone, Choice,
  start_simple, start_callback, restart, read_count, read_count_wait, stop, drop, go_on, expires,
  World, begin, on_simple, as_simple, timer_read, timer_waited, expire, resume, begin_simple,
  begin_callback, begin_stop, begin_drop, step, run,
}

module _ (k : KTimer) where
  abbrev Live : World k → ℕ → Type 0
  Live w b = (call : ℕ) × (w.box b ≡ some call)

  -- What the owner knows of the timer.
  abbrev Owned : Pc → World k → Type 0
  Owned stopped w = (k.running w.timer.kernel ≡ false) × (w.timer.expiry_fn ≡ false)
  Owned simple w = (w.timer.expiry_fn ≡ false) × (w.item ≡ true)
  Owned (pinned b) w = (k.running w.timer.kernel ≡ false) × (w.item ≡ true) × Live w b
  Owned (with_expiry b) w =
      (k.running w.timer.kernel ≡ false) × (w.timer.expiry_fn ≡ true) × (w.item ≡ true) × Live w b
  Owned (with_data b) w =
      (k.running w.timer.kernel ≡ false)
      × (w.timer.expiry_fn ≡ true)
      × (w.timer.user_data ≡ some b)
      × (w.item ≡ true)
      × Live w b
  Owned (callback b) w =
      (w.timer.expiry_fn ≡ true) × (w.timer.user_data ≡ some b) × (w.item ≡ true) × Live w b
  Owned (halted b keep) w = k.running w.timer.kernel ≡ false
  Owned (cleared b keep) w = (k.running w.timer.kernel ≡ false) × (w.timer.expiry_fn ≡ false)
  Owned gone w = k.running w.timer.kernel ≡ false

  pub record IsSafe (w : World k) : Type 0 where
    pub owned : Owned w.pc w
    pub no_fault : w.fault ≡ false

  resume-IsSafe :
      (p : Pc) (w : World k) → w.pc ≡ p → Owned p w → w.fault ≡ false → IsSafe (resume k p w)
  unfolding resume
  resume-IsSafe stopped w e o n = record { owned = rw e o; no_fault = n }
  resume-IsSafe simple w e o n = record { owned = rw e o; no_fault = n }
  resume-IsSafe (pinned b) w e (r, i, l) n =
      rw i (record { owned = (r, refl, refl, l); no_fault = n })
  resume-IsSafe (with_expiry b) w e (r, x, i, l) n = record {
    owned = (r, x, refl, i, l);
    no_fault = n;
  }
  resume-IsSafe (with_data b) w e (r, x, u, i, l) n = record { owned = (x, u, i, l); no_fault = n }
  resume-IsSafe (callback b) w e o n = record { owned = rw e o; no_fault = n }
  resume-IsSafe (halted b keep) w e o n = record { owned = (o, refl); no_fault = n }
  resume-IsSafe (cleared b true) w e (r, x) n = record { owned = (r, x); no_fault = n }
  resume-IsSafe (cleared b false) w e (r, x) n = record { owned = r; no_fault = n }
  resume-IsSafe gone w e o n = record { owned = rw e o; no_fault = n }

  -- While the timer runs with a callback, the owner is its `CallbackTimer`.
  owner :
      (p : Pc) (w : World k)
      → Owned p w
      → k.running w.timer.kernel ≡ true
      → w.timer.expiry_fn ≡ true
      → (b : ℕ) × (p ≡ callback b) × (w.timer.user_data ≡ some b) × (w.item ≡ true) × Live w b
  owner stopped w (r, x) h e = absurd (cc)
  owner simple w (x, i) h e = absurd (cc)
  owner (pinned b) w (r, i, l) h e = absurd (cc)
  owner (with_expiry b) w (r, x, i, l) h e = absurd (cc)
  owner (with_data b) w (r, x, u, i, l) h e = absurd (cc)
  owner (callback b) w (x, u, i, l) h e = (b, refl, u, i, l)
  owner (halted b keep) w r h e = absurd (cc)
  owner (cleared b keep) w (r, x) h e = absurd (cc)
  owner gone w r h e = absurd (cc)

  -- The callbacks run after an interrupt, as the owner and its box have it.
  abbrev pub calls : Pc → World k → List ℕ
  calls (callback b) w = elim (w.box b) [ none ↦ w.ran | some call ↦ call ∷ w.ran ]
  calls _ w = w.ran

  expire-runs :
      (w : World k) (b call : ℕ)
      → w.timer.user_data ≡ some b
      → w.box b ≡ some call
      → k.running w.timer.kernel ≡ true
      → w.timer.expiry_fn ≡ true
      → expire k w ≡ record w {
        timer = record w.timer { kernel = k.expires w.timer.kernel };
        ran = call ∷ w.ran;
      }
  unfolding expire
  expire-runs w b call u l r x = ground arith

  expire-idle : (w : World k) → k.running w.timer.kernel ≡ false → expire k w ≡ w
  unfolding expire
  expire-idle w r = rw r refl

  expire-counts :
      (w : World k)
      → k.running w.timer.kernel ≡ true
      → w.timer.expiry_fn ≡ false
      → expire k w ≡ record w { timer = record w.timer { kernel = k.expires w.timer.kernel } }
  unfolding expire
  expire-counts w r x = rw (r, x) refl

  counted : World k → World k
  counted w = record w { timer = record w.timer { kernel = k.expires w.timer.kernel } }

  Owned-counted :
      (p : Pc) (w : World k)
      → Owned p w
      → k.running w.timer.kernel ≡ true
      → w.timer.expiry_fn ≡ false
      → Owned p (counted w)
  unfolding counted
  Owned-counted stopped w o h e = absurd (cc)
  Owned-counted simple w o h e = o
  Owned-counted (pinned b) w o h e = absurd (cc)
  Owned-counted (with_expiry b) w o h e = absurd (cc)
  Owned-counted (with_data b) w o h e = absurd (cc)
  Owned-counted (callback b) w o h e = absurd (cc)
  Owned-counted (halted b keep) w o h e = absurd (cc)
  Owned-counted (cleared b keep) w o h e = absurd (cc)
  Owned-counted gone w o h e = absurd (cc)

  expire-IsSafe : (w : World k) → IsSafe w → IsSafe (expire k w)
  unfolding counted
  expire-IsSafe w s = elim (Bool-cases (k.running w.timer.kernel)) [
    | inr idle ↦ rw (expire-idle w idle) s
    | inl runs ↦ elim (Bool-cases w.timer.expiry_fn) [
      | inr plain ↦
          rw (expire-counts w runs plain)
            (record { owned = Owned-counted w.pc w s.owned runs plain; no_fault = s.no_fault })
      | inl set ↦
          let (b, at, u, i, (call, l)) = owner w.pc w s.owned runs set in
          rw (expire-runs w b call u l runs set)
            (record { owned = rw at (set, u, i, (call, l)); no_fault = s.no_fault })
    ]
  ]

  begin_simple-IsSafe :
      (p : Pc) (w : World k) (delay period : Timeout)
      → w.pc ≡ p
      → IsSafe w
      → IsSafe (begin_simple k p w delay period)
  unfolding begin_simple Simple.start
  begin_simple-IsSafe stopped w d q e s = record {
    owned = ((rw e at s.owned).1, refl);
    no_fault = s.no_fault;
  }
  begin_simple-IsSafe simple w d q e s = s
  begin_simple-IsSafe (pinned b) w d q e s = s
  begin_simple-IsSafe (with_expiry b) w d q e s = s
  begin_simple-IsSafe (with_data b) w d q e s = s
  begin_simple-IsSafe (callback b) w d q e s = s
  begin_simple-IsSafe (halted b keep) w d q e s = s
  begin_simple-IsSafe (cleared b keep) w d q e s = s
  begin_simple-IsSafe gone w d q e s = s

  begin_callback-IsSafe :
      (p : Pc) (w : World k) (call : ℕ) (delay period : Timeout)
      → w.pc ≡ p
      → IsSafe w
      → IsSafe (begin_callback k p w call delay period)
  unfolding begin_callback
  begin_callback-IsSafe stopped w c d q e s = record {
    owned = ((rw e at s.owned).0, refl, (c, ground arith));
    no_fault = s.no_fault;
  }
  begin_callback-IsSafe simple w c d q e s = s
  begin_callback-IsSafe (pinned b) w c d q e s = s
  begin_callback-IsSafe (with_expiry b) w c d q e s = s
  begin_callback-IsSafe (with_data b) w c d q e s = s
  begin_callback-IsSafe (callback b) w c d q e s = s
  begin_callback-IsSafe (halted b keep) w c d q e s = s
  begin_callback-IsSafe (cleared b keep) w c d q e s = s
  begin_callback-IsSafe gone w c d q e s = s

  begin_stop-IsSafe : (p : Pc) (w : World k) → w.pc ≡ p → IsSafe w → IsSafe (begin_stop k p w)
  unfolding begin_stop Simple.stop
  begin_stop-IsSafe stopped w e s = s
  begin_stop-IsSafe simple w e s =
      let (x, i) = rw e at s.owned in
      rw i (record { owned = (k.stop_stopped w.timer.kernel, x); no_fault = s.no_fault })
  begin_stop-IsSafe (pinned b) w e s = s
  begin_stop-IsSafe (with_expiry b) w e s = s
  begin_stop-IsSafe (with_data b) w e s = s
  begin_stop-IsSafe (callback b) w e s =
      let (x, u, i, l) = rw e at s.owned in
      rw i (record { owned = k.stop_stopped w.timer.kernel; no_fault = s.no_fault })
  begin_stop-IsSafe (halted b keep) w e s = s
  begin_stop-IsSafe (cleared b keep) w e s = s
  begin_stop-IsSafe gone w e s = s

  begin_drop-IsSafe : (p : Pc) (w : World k) → w.pc ≡ p → IsSafe w → IsSafe (begin_drop k p w)
  unfolding begin_drop Simple.raw_stop
  begin_drop-IsSafe stopped w e s = record { owned = (rw e at s.owned).0; no_fault = s.no_fault }
  begin_drop-IsSafe simple w e s =
      let (x, i) = rw e at s.owned in
      rw i (record { owned = k.stop_stopped w.timer.kernel; no_fault = s.no_fault })
  begin_drop-IsSafe (pinned b) w e s = s
  begin_drop-IsSafe (with_expiry b) w e s = s
  begin_drop-IsSafe (with_data b) w e s = s
  begin_drop-IsSafe (callback b) w e s =
      let (x, u, i, l) = rw e at s.owned in
      rw i (record { owned = k.stop_stopped w.timer.kernel; no_fault = s.no_fault })
  begin_drop-IsSafe (halted b keep) w e s = s
  begin_drop-IsSafe (cleared b keep) w e s = s
  begin_drop-IsSafe gone w e s = s

  -- A call that returns, with the `SimpleTimer` that has its `item` and no callback.
  Keeps : Simple.SimpleTimer k → Outcome (Simple.SimpleTimer k) → Type 0
  Keeps t o =
      (t' : Simple.SimpleTimer k) × (o ≡ ret t')
      × (t'.timer.expiry_fn ≡ t.timer.expiry_fn)
      × (t'.item ≡ true)

  on_simple-IsSafe :
      (p : Pc) (w : World k) (o : Outcome (Simple.SimpleTimer k))
      → w.pc ≡ p
      → IsSafe w
      → (w.item ≡ true → Keeps (as_simple k w) o)
      → IsSafe (on_simple k p w o)
  unfolding Keeps
  on_simple-IsSafe stopped w o e s h = s
  on_simple-IsSafe simple w o e s h =
      let (x, i) = rw e at s.owned in
      let (t, went, same, there) = h i in
      rw went (record { owned = rw e (same ∙ x, there); no_fault = s.no_fault })
  on_simple-IsSafe (pinned b) w o e s h = s
  on_simple-IsSafe (with_expiry b) w o e s h = s
  on_simple-IsSafe (with_data b) w o e s h = s
  on_simple-IsSafe (callback b) w o e s h = s
  on_simple-IsSafe (halted b keep) w o e s h = s
  on_simple-IsSafe (cleared b keep) w o e s h = s
  on_simple-IsSafe gone w o e s h = s

  -- The `SimpleTimer` of a timer.
  abbrev with_item : Timer k → Simple.SimpleTimer k
  with_item t = record { timer = t; item = true }

  restart-Keeps :
      (t : Timer k) (delay period : Timeout)
      → Keeps (with_item t) (Simple.restart k (with_item t) delay period)
  unfolding Keeps Simple.restart
  restart-Keeps t delay period = (_, refl, refl, refl)

  read_count-Keeps :
      (t : Timer k) → Keeps (with_item t) (timer_read k (Simple.read_count k (with_item t)))
  unfolding Keeps Simple.read_count
  read_count-Keeps t = (_, refl, refl, refl)

  waited-Keeps :
      (t : Timer k) (c : Call ℕ k.K)
      → Keeps (with_item t) (timer_waited k (with_item t) (Simple.waited k (with_item t) c))
  unfolding Keeps
  waited-Keeps t (done n kernel) = (_, refl, refl, refl)
  waited-Keeps t waits = (_, refl, refl, refl)
  waited-Keeps t undefined = (_, refl, refl, refl)

  read_count_wait-Keeps :
      (t : Timer k)
      → Keeps (with_item t) (timer_waited k (with_item t) (Simple.read_count_wait k (with_item t)))
  unfolding Simple.read_count_wait
  read_count_wait-Keeps t = waited-Keeps t (k.k_timer_status_sync t.kernel)

  step-IsSafe : (c : Choice) (w : World k) → IsSafe w → IsSafe (step k c w)
  unfolding step
  step-IsSafe (start_simple delay period) w s = begin_simple-IsSafe w.pc w delay period refl s
  step-IsSafe (start_callback call delay period) w s =
      begin_callback-IsSafe w.pc w call delay period refl s
  step-IsSafe (restart delay period) w s =
      on_simple-IsSafe w.pc w _ refl s (λ i. rw i (restart-Keeps w.timer delay period))
  step-IsSafe read_count w s =
      on_simple-IsSafe w.pc w _ refl s (λ i. rw i (read_count-Keeps w.timer))
  step-IsSafe read_count_wait w s =
      on_simple-IsSafe w.pc w _ refl s (λ i. rw i (read_count_wait-Keeps w.timer))
  step-IsSafe stop w s = begin_stop-IsSafe w.pc w refl s
  step-IsSafe drop w s = begin_drop-IsSafe w.pc w refl s
  step-IsSafe go_on w s = resume-IsSafe w.pc w refl s.owned s.no_fault
  step-IsSafe expires w s = expire-IsSafe w s

  run-IsSafe : (cs : List Choice) (w : World k) → IsSafe w → IsSafe (run k cs w)
  unfolding run
  run-IsSafe [] w s = s
  run-IsSafe (c ∷ cs) w s = run-IsSafe cs (step k c w) (step-IsSafe c w s)

  begin-IsSafe : IsSafe (begin k)
  unfolding begin new
  begin-IsSafe = record { owned = (k.init_stopped, refl); no_fault = refl }

  -- Whatever calls the owners of a timer make from its creation on, and wherever the interrupt of the
  -- timer comes between two accesses of it, the interrupt reads no freed memory, and no call on the
  -- timer panics.
  pub run-no_fault : (cs : List Choice) → (run k cs (begin k)).fault ≡ false
  run-no_fault cs = (run-IsSafe cs (begin k) begin-IsSafe).no_fault

  -- The callbacks after an interrupt: one more, the owner's, while the timer of a `CallbackTimer` runs.
  abbrev pub after_interrupt : World k → List ℕ
  after_interrupt w = if k.running w.timer.kernel then calls w.pc w else w.ran

  calls-none : (p : Pc) (w : World k) → Owned p w → w.timer.expiry_fn ≡ false → calls p w ≡ w.ran
  calls-none stopped w o e = refl
  calls-none simple w o e = refl
  calls-none (pinned b) w o e = refl
  calls-none (with_expiry b) w o e = refl
  calls-none (with_data b) w o e = refl
  calls-none (callback b) w o e = absurd (cc)
  calls-none (halted b keep) w o e = refl
  calls-none (cleared b keep) w o e = refl
  calls-none gone w o e = refl

  expire-ran : (w : World k) → IsSafe w → (expire k w).ran ≡ after_interrupt w
  expire-ran w s = elim (Bool-cases (k.running w.timer.kernel)) [
    | inr idle ↦ rw (expire-idle w idle) (rw idle refl)
    | inl runs ↦ elim (Bool-cases w.timer.expiry_fn) [
      | inr plain ↦
          rw (expire-counts w runs plain) (rw runs (sym (calls-none w.pc w s.owned plain)))
      | inl set ↦
          let (b, at, u, i, (call, l)) = owner w.pc w s.owned runs set in
          rw (expire-runs w b call u l runs set) (rw (runs, at) (rw l refl))
    ]
  ]

  -- In the same runs, the interrupt runs a callback exactly if the timer runs and a `CallbackTimer`
  -- has it that is not being made, stopped or dropped, and then it is the callback in the box of that
  -- `CallbackTimer`.
  pub run-interrupt :
      (cs : List Choice)
      → (step k expires (run k cs (begin k))).ran ≡ after_interrupt (run k cs (begin k))
  unfolding step
  run-interrupt cs = expire-ran (run k cs (begin k)) (run-IsSafe cs (begin k) begin-IsSafe)
