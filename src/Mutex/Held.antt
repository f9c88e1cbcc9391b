-- ===== src/Mutex/Held.antt =====
-- Who holds the kernel's mutex, by where the threads stand: the invariant of a `Mutex`.
use zephyr_lang_rust.Prelude.{
  ℕ, ◌≡◌, ◌≢◌, sym, ◌∙◌, Bool, true, false, Option, none, some, ℕ_discrete, arith,
}
use zephyr_lang_rust.Mutex.{KMutex}
use zephyr_lang_rust.Mutex.Machine.{
  Pc, idle, entered, rejected, panicked, holding, nested, nested_rejected, nested_panicked,
  releasing, wait_begun, waiting, woken, at, System,
}

-- How many times more than once a thread has locked the kernel's mutex, what `locked` is while it has,
-- and the places that a thread can be at.
abbrev pub level : Pc → Option ℕ
level idle = none
level panicked = none
level waiting = none
level (nested try) = some 1
level (nested_rejected try) = some 1
level (entered try) = some 0
level (rejected try) = some 0
level holding = some 0
level nested_panicked = some 0
level releasing = some 0
level wait_begun = some 0
level woken = some 0

abbrev pub flag : Pc → Bool
flag holding = true
flag (nested try) = true
flag (nested_rejected try) = true
flag nested_panicked = true
flag (rejected try) = true
flag idle = false
flag panicked = false
flag waiting = false
flag (entered try) = false
flag releasing = false
flag wait_begun = false
flag woken = false

abbrev pub is_sound : Pc → Bool
is_sound (rejected try) = false
is_sound panicked = false
is_sound _ = true

pub at_self : {A : Type 0} (f : ℕ → A) (t : ℕ) (a : A) → at f t a t ≡ a
at_self f t a = ground arith

at_other : {A : Type 0} (f : ℕ → A) (t u : ℕ) (a : A) → u ≢ t → at f t a u ≡ f u
at_other f t u a n = ground arith

module _ (k : KMutex) (checks : Bool) where
  abbrev pub Others : System k checks → ℕ → Type 0
  Others s t = (u : ℕ) → u ≢ t → level (s.pc u) ≡ none

  -- Nobody has the kernel's mutex, or one thread has.
  pub data Held (s : System k checks) : Type 0 where
    free : k.holder s.inner ≡ none → s.locked ≡ false → ((t : ℕ) → level (s.pc t) ≡ none) → Held s
    by :
        (t n : ℕ)
        → k.holder s.inner ≡ some (t, n)
        → level (s.pc t) ≡ some n
        → s.locked ≡ flag (s.pc t)
        → Others s t
        → Held s

  pub record Inv (s : System k checks) : Type 0 where
    pub held : Held s
    pub sound : (t : ℕ) → is_sound (s.pc t) ≡ true
    pub no_fault : s.fault ≡ false

  -- What a thread that has the kernel's mutex knows.
  pub record Owns (s : System k checks) (t n : ℕ) : Type 0 where
    pub holder : k.holder s.inner ≡ some (t, n)
    pub locked : s.locked ≡ flag (s.pc t)
    pub others : Others s t

  pub owns : (s : System k checks) (t n : ℕ) → Held s → level (s.pc t) ≡ some n → Owns s t n
  owns s t n (free h l all) e = absurd (cc (all t))
  owns s t n (by u m h d l o) e = elim (ℕ_discrete t u) [
    | no other ↦ absurd (cc (o t other))
    | yes same ↦
        let e' : some m ≡ some n = sym d ∙ (rw same at e) in
        record { holder = h ∙ (cc); locked = rw same l; others = rw same o }
  ]

  -- A thread goes to a place from which it has the kernel's mutex, or at which it has not.
  pub Inv-by :
      (s s' : System k checks) (t n : ℕ) (p : Pc)
      → Inv s
      → Others s t
      → s'.pc ≡ at s.pc t p
      → s'.fault ≡ false
      → k.holder s'.inner ≡ some (t, n)
      → level p ≡ some n
      → s'.locked ≡ flag p
      → is_sound p ≡ true
      → Inv s'
  Inv-by s s' t n p i o e f h l d g = record {
    held =
        by t n h (rw e (rw (at_self s.pc t p) l)) (rw e (rw (at_self s.pc t p) d))
          (λ u q. rw e (rw (at_other s.pc t u p q) (o u q)));
    sound = λ u. elim (ℕ_discrete u t) [
      | yes same ↦ rw (e, same) (rw (at_self s.pc t p) g)
      | no other ↦ rw e (rw (at_other s.pc t u p other) (i.sound u))
    ];
    no_fault = f;
  }

  pub Inv-free :
      (s s' : System k checks) (t : ℕ) (p : Pc)
      → Inv s
      → Others s t
      → s'.pc ≡ at s.pc t p
      → s'.fault ≡ false
      → k.holder s'.inner ≡ none
      → level p ≡ none
      → s'.locked ≡ false
      → is_sound p ≡ true
      → Inv s'
  Inv-free s s' t p i o e f h l d g = record {
    held = free h d (λ u. elim (ℕ_discrete u t) [
      | yes same ↦ rw (e, same) (rw (at_self s.pc t p) l)
      | no other ↦ rw e (rw (at_other s.pc t u p other) (o u other))
    ]);
    sound = λ u. elim (ℕ_discrete u t) [
      | yes same ↦ rw (e, same) (rw (at_self s.pc t p) g)
      | no other ↦ rw e (rw (at_other s.pc t u p other) (i.sound u))
    ];
    no_fault = f;
  }
