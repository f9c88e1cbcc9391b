-- ===== src/I2c/Target/Registered.antt =====
-- An `I2cTargetData` is on one bus at most, and no bus has it while a thread writes it.
use zephyr_lang_rust.Prelude.{
  ℕ, ◌≡◌, refl, Bool, true, false, some, List, [], ◌∷◌, ◌⊎◌, inl, inr, ◌+◌, ltb, Bool-cases,
  ℕ_discrete, ap, sym, ◌∙◌, arith,
}
use zephyr_lang_rust.Prelude.Int.{ℤ, pos, negsuc}
use zephyr_lang_rust.Prelude.Outcome.{ret, panic, err}
use zephyr_lang_rust.Error.{Error, c_int_bound, to_result_void}
use zephyr_lang_rust.I2c.Target.{
  Driver, Callbacks, on_write_requested, on_read_requested, on_write_received, on_read_processed,
  on_stop, Pc, idle, busy, claimed, written, linked, failed, handle, removed, lost, Act, registers,
  goes_on, at, trampolines, Target, new, after, begin_register, go_on, step, run,
}
use zephyr_lang_rust.I2c.Target.Owned.{
  is_owner, IsComplete, Fits, Others, Inv, free, by, owns, Inv-by, Inv-free, Inv-moved,
}

-- The places from which a thread writes the callbacks or the config next.
abbrev pub writes : Pc → Bool
writes (claimed d) = true
writes (written d) = true
writes _ = false

-- A negative code is an error, or its negation panics.
negative :
    (checks : Bool) (n : ℕ)
    → (to_result_void checks (negsuc n) ≡ panic)
      ⊎ (e : Error) × (to_result_void checks (negsuc n) ≡ ret (err e))
unfolding to_result_void
negative true n = elim (Bool-cases (ltb (n + 1) c_int_bound)) [
  | inl small ↦ inr (record { errno = n + 1 }, rw small refl)
  | inr large ↦ inl (rw large refl)
]
negative false n = inr (record { errno = n + 1 }, refl)

-- Each callback of the driver is the trampoline of that name.
abbrev pub HasTrampolines : Callbacks → Type 0
HasTrampolines cbs =
    (cbs.write_requested ≡ some on_write_requested)
    × (cbs.read_requested ≡ some on_read_requested)
    × (cbs.write_received ≡ some on_write_received)
    × (cbs.read_processed ≡ some on_read_processed)
    × (cbs.stop ≡ some on_stop)

trampolines-HasTrampolines : HasTrampolines trampolines
unfolding trampolines
trampolines-HasTrampolines = (refl, refl, refl, refl, refl)

module _ (k : Driver) (checks : Bool) (cbs_addr : ℕ) where
  -- After a call of the driver by the thread that has claimed the target.
  after-Inv :
      (s : Target k checks cbs_addr) (t : ℕ) (c : ℤ) (b : k.B) (won fell : Pc)
      → s.registered ≡ true
      → Others k checks cbs_addr s t
      → is_owner won ≡ true
      → is_owner fell ≡ true
      → ((n : ℕ) → c ≡ pos n → Fits k checks cbs_addr won b s.cbs s.config)
      → ((n : ℕ) → c ≡ negsuc n → Fits k checks cbs_addr fell b s.cbs s.config)
      → ((n : ℕ) → c ≡ negsuc n → Fits k checks cbs_addr lost b s.cbs s.config)
      → Inv k checks cbs_addr (after k checks cbs_addr s t (to_result_void checks c) b won fell)
  unfolding to_result_void
  after-Inv s t (pos n) b won fell r others o o' f g h =
      Inv-by k checks cbs_addr s (record s { bus = b; pc = at s.pc t won }) t won others refl r o
        (f n refl)
  after-Inv s t (negsuc n) b won fell r others o o' f g h = elim (negative checks n) [
    | inl panics ↦ rw panics (
        Inv-by k checks cbs_addr s (record s { bus = b; pc = at s.pc t lost }) t lost others refl r
          refl (h n refl))
    | inr (e, fails) ↦ rw fails (
        Inv-by k checks cbs_addr s (record s { bus = b; pc = at s.pc t fell }) t fell others refl r
          o' (g n refl))
  ]

  go_on-Inv :
      (p : Pc) (s : Target k checks cbs_addr) (t : ℕ)
      → s.pc t ≡ p
      → Inv k checks cbs_addr s
      → Inv k checks cbs_addr (go_on k checks cbs_addr p s t)
  unfolding go_on
  go_on-Inv idle s t h i = i
  go_on-Inv lost s t h i = i
  go_on-Inv busy s t h i =
      Inv-moved k checks cbs_addr s (record s { pc = at s.pc t idle }) t idle i (rw h refl) refl
        refl
  go_on-Inv (claimed d) s t h i =
      let o = owns k checks cbs_addr s t i (rw h refl) in
      Inv-by k checks cbs_addr s (record s { cbs = trampolines; pc = at s.pc t (written d) }) t
        (written d) o.others refl o.registered refl (rw h at o.fits, refl)
  go_on-Inv (written d) s t h i =
      let o = owns k checks cbs_addr s t i (rw h refl) in
      let (off, cbs) = rw h at o.fits in
      Inv-by k checks cbs_addr s
        (record s { config = record s.config { callbacks = cbs_addr }; pc = at s.pc t (linked d) })
        t (linked d) o.others refl o.registered refl (off, (cbs, refl))
  go_on-Inv (linked d) s t h i =
      let o = owns k checks cbs_addr s t i (rw h refl) in
      let (off, complete) = rw h at o.fits in
      let (c, b) = k.i2c_target_register s.bus d in
      let still : (n : ℕ) → c ≡ negsuc n → k.on b ≡ [] =
        λ n e. k.register_err s.bus b d n (ap (λ x. (x, b)) e) ∙ off in
      after-Inv s t c b (handle d) failed o.registered o.others refl refl
        (λ n e. (k.register_ok s.bus b d n (ap (λ x. (x, b)) e) ∙ ap (λ l. d ∷ l) off, complete))
        still (λ n e. inl (still n e))
  go_on-Inv (handle d) s t h i =
      let o = owns k checks cbs_addr s t i (rw h refl) in
      let (on, complete) = rw h at o.fits in
      let (c, b) = k.i2c_target_unregister s.bus d in
      let still : (n : ℕ) → c ≡ negsuc n → Fits k checks cbs_addr lost b s.cbs s.config =
        λ n e. inr (d, (k.unregister_err s.bus b d n (ap (λ x. (x, b)) e) ∙ on, complete)) in
      after-Inv s t c b removed lost o.registered o.others refl refl
        (λ n e. k.unregister_ok s.bus b d n [] on (ap (λ x. (x, b)) e)) still still
  go_on-Inv failed s t h i =
      let o = owns k checks cbs_addr s t i (rw h refl) in
      Inv-free k checks cbs_addr s (record s { registered = false; pc = at s.pc t idle }) t idle
        o.others refl refl refl (rw h at o.fits)
  go_on-Inv removed s t h i =
      let o = owns k checks cbs_addr s t i (rw h refl) in
      Inv-free k checks cbs_addr s (record s { registered = false; pc = at s.pc t idle }) t idle
        o.others refl refl refl (rw h at o.fits)

  begin_register-Inv :
      (p : Pc) (s : Target k checks cbs_addr) (t d : ℕ)
      → s.pc t ≡ p
      → Inv k checks cbs_addr s
      → Inv k checks cbs_addr (begin_register k checks cbs_addr p s t d)
  unfolding begin_register
  begin_register-Inv idle s t d h (free r b all) = rw r (
      Inv-by k checks cbs_addr s (record s { registered = true; pc = at s.pc t (claimed d) }) t
        (claimed d) (λ u n. all u) refl refl refl b)
  begin_register-Inv idle s t d h (by u r o f others) = rw r (
      Inv-moved k checks cbs_addr s (record s { registered = true; pc = at s.pc t busy }) t busy
        (by u r o f others) (rw h refl) refl (ground (arith, r)))
  begin_register-Inv busy s t d h i = i
  begin_register-Inv (claimed _) s t d h i = i
  begin_register-Inv (written _) s t d h i = i
  begin_register-Inv (linked _) s t d h i = i
  begin_register-Inv failed s t d h i = i
  begin_register-Inv (handle _) s t d h i = i
  begin_register-Inv removed s t d h i = i
  begin_register-Inv lost s t d h i = i

  run-Inv :
      (s : Target k checks cbs_addr) (acts : List (ℕ × Act))
      → Inv k checks cbs_addr s
      → Inv k checks cbs_addr (run k checks cbs_addr s acts)
  unfolding run step
  run-Inv s [] i = i
  run-Inv s ((t, registers d) ∷ acts) i =
      run-Inv (begin_register k checks cbs_addr (s.pc t) s t d) acts
        (begin_register-Inv (s.pc t) s t d refl i)
  run-Inv s ((t, goes_on) ∷ acts) i =
      run-Inv (go_on k checks cbs_addr (s.pc t) s t) acts (go_on-Inv (s.pc t) s t refl i)

  reached :
      (address : ℕ) (acts : List (ℕ × Act))
      → Inv k checks cbs_addr (run k checks cbs_addr (new k checks cbs_addr address) acts)
  unfolding new
  reached address acts =
      run-Inv (new k checks cbs_addr address) acts (free refl k.idle_on (λ t. refl))

  writes-owner : (p : Pc) → writes p ≡ true → is_owner p ≡ true
  writes-owner (claimed d) h = refl
  writes-owner (written d) h = refl
  writes-owner idle h = absurd (cc)
  writes-owner busy h = absurd (cc)
  writes-owner (linked d) h = absurd (cc)
  writes-owner failed h = absurd (cc)
  writes-owner (handle d) h = absurd (cc)
  writes-owner removed h = absurd (cc)
  writes-owner lost h = absurd (cc)

  -- The target on a bus, by where the thread that has claimed it stands.
  Fits-on :
      (p : Pc) (s : Target k checks cbs_addr) (d : ℕ) (l : List ℕ)
      → Fits k checks cbs_addr p s.bus s.cbs s.config
      → k.on s.bus ≡ d ∷ l
      → (l ≡ []) × IsComplete k checks cbs_addr s.cbs s.config
  Fits-on (handle d') s d l (on, complete) h = ((cc), complete)
  Fits-on lost s d l (inl off) h = absurd (cc)
  Fits-on lost s d l (inr (d', (on, complete))) h = ((cc), complete)
  Fits-on (linked d') s d l (off, _) h = absurd (cc)
  Fits-on (written d') s d l (off, _) h = absurd (cc)
  Fits-on (claimed d') s d l off h = absurd (cc)
  Fits-on failed s d l off h = absurd (cc)
  Fits-on removed s d l off h = absurd (cc)
  Fits-on idle s d l off h = absurd (cc)
  Fits-on busy s d l off h = absurd (cc)

  writes-off :
      (p : Pc) (s : Target k checks cbs_addr)
      → writes p ≡ true
      → Fits k checks cbs_addr p s.bus s.cbs s.config
      → k.on s.bus ≡ []
  writes-off (claimed d) s w f = f
  writes-off (written d) s w f = f.0
  writes-off (linked d) s w f = absurd (cc)
  writes-off (handle d) s w f = absurd (cc)
  writes-off lost s w f = absurd (cc)
  writes-off failed s w f = absurd (cc)
  writes-off removed s w f = absurd (cc)
  writes-off idle s w f = absurd (cc)
  writes-off busy s w f = absurd (cc)

  -- Whatever calls of `register` and `unregister` any threads make, on any buses, with any codes of the
  -- driver, and however their accesses interleave: two threads that write the callbacks or the config
  -- next are the same, and while a thread is about to write them no bus has the target.
  pub run-one_writer :
      (address : ℕ) (acts : List (ℕ × Act)) (t u : ℕ)
      → writes ((run k checks cbs_addr (new k checks cbs_addr address) acts).pc t) ≡ true
      → writes ((run k checks cbs_addr (new k checks cbs_addr address) acts).pc u) ≡ true
      → (t ≡ u) × (k.on (run k checks cbs_addr (new k checks cbs_addr address) acts).bus ≡ [])
  run-one_writer address acts t u w w' =
      let s = run k checks cbs_addr (new k checks cbs_addr address) acts in
      let i = reached address acts in
      let o = owns k checks cbs_addr s t i (writes-owner _ w) in
      (
        elim (ℕ_discrete u t) [
          | yes same ↦ sym same
          | no other ↦ absurd (cc (o.others u other, writes-owner _ w'))
        ],
        writes-off (s.pc t) s w o.fits,
      )

  on_bus :
      (s : Target k checks cbs_addr) (d : ℕ) (l : List ℕ)
      → Inv k checks cbs_addr s
      → k.on s.bus ≡ d ∷ l
      → (l ≡ []) × HasTrampolines s.cbs × (s.config.callbacks ≡ cbs_addr) × (s.registered ≡ true)
  on_bus s d l (free r b all) h = absurd (cc)
  on_bus s d l (by t r o f others) h =
      let (one, (set, linked_to)) = Fits-on (s.pc t) s d l f h in
      (one, rw set trampolines-HasTrampolines, linked_to, r)

  -- In the same runs a target that is on a bus is on that one only, each of its five
  -- callbacks is the trampoline of that name, its config points to them, and `registered` is set.
  pub run-one_bus :
      (address : ℕ) (acts : List (ℕ × Act)) (d : ℕ) (l : List ℕ)
      → k.on (run k checks cbs_addr (new k checks cbs_addr address) acts).bus ≡ d ∷ l
      → (l ≡ [])
        × HasTrampolines (run k checks cbs_addr (new k checks cbs_addr address) acts).cbs
        × ((run k checks cbs_addr (new k checks cbs_addr address) acts).config.callbacks ≡ cbs_addr)
        × ((run k checks cbs_addr (new k checks cbs_addr address) acts).registered ≡ true)
  run-one_bus address acts d l h =
      on_bus (run k checks cbs_addr (new k checks cbs_addr address) acts) d l (reached address acts)
        h
