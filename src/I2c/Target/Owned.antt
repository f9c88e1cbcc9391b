-- ===== src/I2c/Target/Owned.antt =====
-- Who has claimed an `I2cTargetData`, and on which bus it is: its invariant.
use zephyr_lang_rust.Prelude.{ℕ, ◌≡◌, ◌≢◌, refl, Bool, true, false, [], ◌∷◌, ◌⊎◌, ℕ_discrete, arith}
use zephyr_lang_rust.I2c.Target.{
  Driver, Callbacks, Config, Pc, idle, busy, written, linked, handle, lost, at, trampolines, Target,
}

-- The places of a thread that has claimed the target.
abbrev pub is_owner : Pc → Bool
is_owner idle = false
is_owner busy = false
is_owner _ = true

at_self : {A : Type 0} (f : ℕ → A) (t : ℕ) (a : A) → at f t a t ≡ a
at_self f t a = ground arith

at_other : {A : Type 0} (f : ℕ → A) (t u : ℕ) (a : A) → u ≢ t → at f t a u ≡ f u
at_other f t u a n = ground arith

module _ (k : Driver) (checks : Bool) (cbs_addr : ℕ) where
  -- Both structures are written.
  abbrev pub IsComplete : Callbacks → Config → Type 0
  IsComplete cbs config = (cbs ≡ trampolines) × (config.callbacks ≡ cbs_addr)

  -- The target is on one bus, with both structures written.
  abbrev pub IsOn : k.B → Callbacks → Config → ℕ → Type 0
  IsOn bus cbs config d = (k.on bus ≡ d ∷ []) × IsComplete cbs config

  -- What the thread at a place that has claimed the target may rely on.
  abbrev pub Fits : Pc → k.B → Callbacks → Config → Type 0
  Fits (written d) bus cbs config = (k.on bus ≡ []) × (cbs ≡ trampolines)
  Fits (linked d) bus cbs config = (k.on bus ≡ []) × IsComplete cbs config
  Fits (handle d) bus cbs config = IsOn bus cbs config d
  Fits lost bus cbs config = (k.on bus ≡ []) ⊎ (d : ℕ) × IsOn bus cbs config d
  Fits _ bus cbs config = k.on bus ≡ []

  abbrev pub Others : Target k checks cbs_addr → ℕ → Type 0
  Others s t = (u : ℕ) → u ≢ t → is_owner (s.pc u) ≡ false

  -- Nobody has claimed the target, or one thread has.
  pub data Inv (s : Target k checks cbs_addr) : Type 0 where
    free : s.registered ≡ false → k.on s.bus ≡ [] → ((t : ℕ) → is_owner (s.pc t) ≡ false) → Inv s
    by :
        (t : ℕ)
        → s.registered ≡ true
        → is_owner (s.pc t) ≡ true
        → Fits (s.pc t) s.bus s.cbs s.config
        → Others s t
        → Inv s

  -- What a thread that has claimed the target knows.
  pub record Owns (s : Target k checks cbs_addr) (t : ℕ) : Type 0 where
    pub registered : s.registered ≡ true
    pub fits : Fits (s.pc t) s.bus s.cbs s.config
    pub others : Others s t

  pub owns : (s : Target k checks cbs_addr) (t : ℕ) → Inv s → is_owner (s.pc t) ≡ true → Owns s t
  owns s t (free r e all) o = absurd (cc (all t))
  owns s t (by u r o' f others) o = elim (ℕ_discrete t u) [
    | no other ↦ absurd (cc (others t other))
    | yes same ↦ record { registered = r; fits = rw same f; others = rw same others }
  ]

  -- A thread goes to a place where it has claimed the target, or to one where it has not.
  pub Inv-by :
      (s s' : Target k checks cbs_addr) (t : ℕ) (p : Pc)
      → Others s t
      → s'.pc ≡ at s.pc t p
      → s'.registered ≡ true
      → is_owner p ≡ true
      → Fits p s'.bus s'.cbs s'.config
      → Inv s'
  Inv-by s s' t p others e r o f =
      by t r (rw e (rw (at_self s.pc t p) o)) (rw e (rw (at_self s.pc t p) f))
        (λ u n. rw e (rw (at_other s.pc t u p n) (others u n)))

  pub Inv-free :
      (s s' : Target k checks cbs_addr) (t : ℕ) (p : Pc)
      → Others s t
      → s'.pc ≡ at s.pc t p
      → s'.registered ≡ false
      → is_owner p ≡ false
      → k.on s'.bus ≡ []
      → Inv s'
  Inv-free s s' t p others e r o b = free r b (λ u. elim (ℕ_discrete u t) [
    | yes same ↦ rw (e, same) (rw (at_self s.pc t p) o)
    | no other ↦ rw e (rw (at_other s.pc t u p other) (others u other))
  ])

  -- A thread that has not claimed the target goes from a place to another such place.
  pub Inv-moved :
      (s s' : Target k checks cbs_addr) (t : ℕ) (p : Pc)
      → Inv s
      → is_owner (s.pc t) ≡ false
      → is_owner p ≡ false
      → s' ≡ record s { pc = at s.pc t p }
      → Inv s'
  Inv-moved s s' t p (free r b all) o o' e =
      rw e (Inv-free s (record s { pc = at s.pc t p }) t p (λ u n. all u) refl r o' b)
  Inv-moved s s' t p (by u r q f others) o o' e = elim (ℕ_discrete u t) [
    | yes same ↦ absurd (cc (q, rw (← same) at o))
    | no other ↦ rw e (
        by u r (rw (at_other s.pc t u p other) q) (rw (at_other s.pc t u p other) f) (λ v n.
          elim (ℕ_discrete v t) [
            | yes same ↦ rw same (rw (at_self s.pc t p) o')
            | no v_other ↦ rw (at_other s.pc t v p v_other) (others v n)
          ]))
  ]
