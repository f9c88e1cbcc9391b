-- ===== src/Object/Once.antt =====
-- An object is initialized once, and an instance is given once.
use zephyr_lang_rust.Prelude.{
  ℕ, ◌≤◌, ◌≡◌, ◌≢◌, ◌⊎◌, inl, refl, List, [], ◌∷◌, length, ◌==◌, if◌then◌else◌, ℕ_discrete, arith,
}
use zephyr_lang_rust.Object.{
  ZephyrObject, new_raw, GetPc, reading, entering, returned, panicked, get_step, Threads, step, run,
}

-- The object lies at `a`, and is uninitialized or initialized there, once.
abbrev Fine : ℕ → ZephyrObject → Type 0
Fine a o = (o.addr ≡ a) × (((o.state ≡ 0) × (o.inits ≡ [])) ⊎ ((o.state ≡ a) × (o.inits ≡ a ∷ [])))

abbrev PcFine : ℕ → ZephyrObject → GetPc → Type 0
PcFine a o (returned b) = (b ≡ a) × (o.inits ≡ a ∷ [])
PcFine a o panicked = ⊥
PcFine a o _ = Unit

get_step-Fine :
    (a : ℕ) (o : ZephyrObject) (p : GetPc)
    → 0 ≢ a
    → Fine a o
    → PcFine a o p
    → Fine a (get_step o p).0 × PcFine a (get_step o p).0 (get_step o p).1
unfolding get_step
get_step-Fine a o reading n f h = ground arith
get_step-Fine a o entering n f h = ground arith
get_step-Fine a o (returned b) n f h = (f, tt)
get_step-Fine a o panicked n f h = absurd h

others-Fine :
    (a : ℕ) (o : ZephyrObject) (p q : GetPc)
    → 0 ≢ a
    → Fine a o
    → PcFine a o q
    → PcFine a (get_step o p).0 q
unfolding get_step
others-Fine a o p reading n f h = tt
others-Fine a o p entering n f h = tt
others-Fine a o reading (returned b) n f h = ground arith
others-Fine a o entering (returned b) n f h = ground arith
others-Fine a o (returned c) (returned b) n f h = ground arith
others-Fine a o panicked (returned b) n f h = ground arith
others-Fine a o p panicked n f h = h

abbrev AllFine : ℕ → Threads → Type 0
AllFine a s = Fine a s.object × ((t : ℕ) → PcFine a s.object (s.pc t))

step-Fine : (a : ℕ) (s : Threads) (t : ℕ) → 0 ≢ a → AllFine a s → AllFine a (step s t)
unfolding step
step-Fine a s t n (f, h) = (
  (get_step-Fine a s.object (s.pc t) n f (h t)).0,
  λ u. elim (ℕ_discrete u t) [
    | yes e ↦
        let same : (if u == t then (get_step s.object (s.pc t)).1 else s.pc u)
            ≡ (get_step s.object (s.pc t)).1 =
          ground arith in
        rw same (get_step-Fine a s.object (s.pc t) n f (h t)).1
    | no d ↦
        let same : (if u == t then (get_step s.object (s.pc t)).1 else s.pc u) ≡ s.pc u =
          ground arith in
        rw same (others-Fine a s.object (s.pc t) (s.pc u) n f (h u))
  ],
)

run-Fine : (ts : List ℕ) (a : ℕ) (s : Threads) → 0 ≢ a → AllFine a s → AllFine a (run s ts)
unfolding run
run-Fine [] a s n f = f
run-Fine (t ∷ ts) a s n f = run-Fine ts a (step s t) n (step-Fine a s t n f)

abbrev pub start : ℕ → Threads
start a = record { object = new_raw a; pc = λ t. reading }

returned-Fine :
    (a b : ℕ) (o : ZephyrObject) (p : GetPc)
    → p ≡ returned b
    → PcFine a o p
    → (b ≡ a) × (o.inits ≡ a ∷ [])
returned-Fine a b o p e h = rw e at h

not_panicked : (a : ℕ) (o : ZephyrObject) (p : GetPc) → PcFine a o p → p ≢ panicked
not_panicked a o p h e = rw e at h

-- Whatever the interleaving of threads that call `get` on an object at address `a`, no call panics,
-- and the object is initialized at `a` once at most.
pub get-no_panic :
    (ts : List ℕ) (a t : ℕ)
    → 0 ≢ a
    → ((run (start a) ts).pc t ≢ panicked) × (length (run (start a) ts).object.inits ≤ 1)
unfolding new_raw
get-no_panic ts a t n =
    let (fine, pcs) = run-Fine ts a (start a) n ((refl, inl (refl, refl)), λ u. tt) in
    (
      not_panicked a (run (start a) ts).object ((run (start a) ts).pc t) (pcs t),
      ground (arith, fine),
    )

-- A call that has returned has the object's address, and by then it has been initialized, once.
pub get-returned :
    (ts : List ℕ) (a t b : ℕ)
    → 0 ≢ a
    → (run (start a) ts).pc t ≡ returned b
    → (b ≡ a) × ((run (start a) ts).object.inits ≡ a ∷ [])
unfolding new_raw
get-returned ts a t b n e =
    let (fine, pcs) = run-Fine ts a (start a) n ((refl, inl (refl, refl)), λ u. tt) in
    returned-Fine a b (run (start a) ts).object ((run (start a) ts).pc t) e (pcs t)
