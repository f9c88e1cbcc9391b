-- ===== src/Object/Single.antt =====
-- At most one call of `init_once` gives an instance.
use zephyr_lang_rust.Prelude.{
  ℕ, ◌≡◌, ◌≢◌, refl, sym, ◌∙◌, Bool, true, false, List, [], ◌∷◌, ◌==◌, if◌then◌else◌, ℕ_discrete,
  arith,
}
use zephyr_lang_rust.Object.{OncePc, calling, initing, result, init_once, kobj_uninitialized}

-- The state of the object, and where each call stands.
pub record Calls : Type 0 where
  pub init : ℕ
  pub pc : ℕ → OncePc

unfoldable pub start : Calls
start = record { init = kobj_uninitialized; pc = λ t. calling }

-- A step of call `t`.
unfoldable pub step_call : Calls → ℕ → Calls
step_call s t =
    let (i, p) = init_once s.init (s.pc t) in
    record { init = i; pc = λ u. if u == t then p else s.pc u }

unfoldable pub run_calls : Calls → List ℕ → Calls
unfolding step_call
run_calls s [] = s
run_calls s (t ∷ ts) = run_calls (step_call s t) ts

-- A call that initializes the object, or has.
abbrev owns : OncePc → Bool
owns calling = false
owns initing = true
owns (result b) = b

record OneOwner (s : Calls) : Type 0 where
  none_yet : (t : ℕ) → owns (s.pc t) ≡ true → s.init ≢ kobj_uninitialized
  one : (t u : ℕ) → owns (s.pc t) ≡ true → owns (s.pc u) ≡ true → t ≡ u

init_once-old :
    (i : ℕ) (p : OncePc) → i ≢ kobj_uninitialized → owns (init_once i p).1 ≡ true → owns p ≡ true
unfolding init_once
init_once-old i calling n h = absurd (ground arith)
init_once-old i initing n h = refl
init_once-old i (result b) n h = h

init_once-set :
    (i : ℕ) (p : OncePc)
    → (owns p ≡ true → i ≢ kobj_uninitialized)
    → owns (init_once i p).1 ≡ true
    → (init_once i p).0 ≢ kobj_uninitialized
unfolding init_once
init_once-set i calling n h = ground arith
init_once-set i initing n h = ground arith
init_once-set i (result b) n h = n h

init_once-keeps :
    (i : ℕ) (p : OncePc) → i ≢ kobj_uninitialized → (init_once i p).0 ≢ kobj_uninitialized
unfolding init_once
init_once-keeps i calling h = ground arith
init_once-keeps i initing h = ground arith
init_once-keeps i (result b) h = h

moved : (s : Calls) (t : ℕ) → (step_call s t).pc t ≡ (init_once s.init (s.pc t)).1
unfolding step_call
moved s t = ground arith

elsewhere : (s : Calls) (t u : ℕ) → u ≢ t → (step_call s t).pc u ≡ s.pc u
unfolding step_call
elsewhere s t u n = ground arith

step_call-OneOwner : (s : Calls) (t : ℕ) → OneOwner s → OneOwner (step_call s t)
unfolding step_call
step_call-OneOwner s t o = record {
  none_yet = λ u h. elim (ℕ_discrete u t) [
    | yes e ↦ init_once-set s.init (s.pc t) (o.none_yet t) (rw (e, moved s t) at h)
    | no n ↦ init_once-keeps s.init (s.pc t) (o.none_yet u (rw (elsewhere s t u n) at h))
  ];
  one = λ u v h k. elim (ℕ_discrete u t) [
    | yes e ↦ elim (ℕ_discrete v t) [
      | yes e' ↦ e ∙ sym e'
      | no n ↦
          let k' : owns (s.pc v) ≡ true = rw (elsewhere s t v n) at k in
          let h' = init_once-old s.init (s.pc t) (o.none_yet v k') (rw (e, moved s t) at h) in
          absurd (n (o.one v t k' h'))
    ]
    | no n ↦ elim (ℕ_discrete v t) [
      | yes e' ↦
          let h' : owns (s.pc u) ≡ true = rw (elsewhere s t u n) at h in
          let k' = init_once-old s.init (s.pc t) (o.none_yet u h') (rw (e', moved s t) at k) in
          absurd (n (o.one u t h' k'))
      | no n' ↦ o.one u v (rw (elsewhere s t u n) at h) (rw (elsewhere s t v n') at k)
    ]
  ];
}

run_calls-OneOwner : (ts : List ℕ) (s : Calls) → OneOwner s → OneOwner (run_calls s ts)
unfolding run_calls
run_calls-OneOwner [] s o = o
run_calls-OneOwner (t ∷ ts) s o = run_calls-OneOwner ts (step_call s t) (step_call-OneOwner s t o)

-- Whatever the interleaving of calls of `init_once` on one object, one of them at most gives an
-- instance.
pub init_once-single :
    (ts : List ℕ) (t u : ℕ)
    → (run_calls start ts).pc t ≡ result true
    → (run_calls start ts).pc u ≡ result true
    → t ≡ u
unfolding start
init_once-single ts t u h k =
    let owner =
      run_calls-OneOwner ts start
        (record { none_yet = λ v e. absurd (cc); one = λ v w e d. absurd (cc) }) in
    owner.one t u (rw h refl) (rw k refl)
