-- ===== src/Blocking/Invariant/Futures.antt =====
-- A step of a future keeps the invariant, if it does at the slot that it touches.
use zephyr_lang_rust.Prelude.{
  ℕ, ◌≡◌, ◌≢◌, ◌⊎◌, inl, inr, sym, ◌∙◌, not, Option, none, some, arith, ℕ_discrete, Option-cases,
}
use zephyr_lang_rust.Blocking.Slot.{SlotState, Env, Mem, FutPc, WorkPc, update}
use zephyr_lang_rust.Blocking.Invariant.Defs.{
  held, served, is_gone, FutFits, WorkFits, QueueFits, Local, Inv,
}
use zephyr_lang_rust.Blocking.Invariant.Frame.{FutFits-frame, WorkFits-frame, QueueFits-frame}

-- A slot that a future holds, or a worker serves, is not free.
pub held_not_free :
    (env : Env) (m : Mem env) (g : ℕ) (p : FutPc) (s : ℕ)
    → held p ≡ some s
    → FutFits env m g p
    → (m.slots s).state ≢ SlotState.free
held_not_free env m g (FutPc.claimed t) s e h = ground arith
held_not_free env m g p s e h = ground arith

pub Option-same : (T : Option ℕ) (s : ℕ) → (T ≡ some s) ⊎ (T ≢ some s)
Option-same none s = inr (λ e. cc)
Option-same (some t) s = elim (ℕ_discrete t s) [
  | yes e ↦ inl (cc)
  | no d ↦ inr (λ e. d (ground arith))
]

module _ (env : Env) (m m' : Mem env) (fut : ℕ → FutPc) (f : ℕ) (p' : FutPc) (T : Option ℕ) where
  -- What a step of future `f` to place `p'` shows, if it touches at most the slot `T`.
  pub record Moves : Type 0 where
    pub local : Local env m m' f T
    pub own : FutFits env m' f p'
    pub claims :
        (s : ℕ) → T ≡ some s → (held (fut f) ≡ some s) ⊎ ((m.slots s).state ≡ SlotState.free)
    pub keeps : (s : ℕ) → held p' ≡ some s → T ≡ some s
    pub holds : (s : ℕ) → held (fut f) ≡ some s → T ≡ some s
    pub alive : m'.alive f ≡ not (is_gone p')
    pub servers :
        (s : ℕ) (w : WorkPc)
        → T ≡ some s
        → served w ≡ some s
        → WorkFits env m fut w
        → WorkFits env m' (update fut f p') w
    pub queued : (s : ℕ) → T ≡ some s → QueueFits env m fut s → QueueFits env m' (update fut f p') s

  module _ {work : ℕ → WorkPc} (inv : Inv env m fut work) (moves : Moves) where
    open inv use {futures, workers, queue, one_holder, one_server, living}
    open moves use {local, own, claims, keeps, holds, alive, servers, queued}

    -- No other future holds the slot that is touched.
    alone : (g s : ℕ) → g ≢ f → held (fut g) ≡ some s → T ≢ some s
    alone g s n h t = elim (claims s t) [
      | inl mine ↦ n (one_holder g f s h mine)
      | inr free ↦ held_not_free env m g (fut g) s h (futures g) free
    ]

    elsewhere : (g : ℕ) → g ≢ f → update fut f p' g ≡ fut g
    elsewhere g n = ground arith

    kept :
        (s g : ℕ)
        → T ≢ some s
        → held (fut g) ≡ some s
        → (update fut f p' g ≡ fut g) × (m'.op g ≡ m.op g)
    kept s g n h = elim (ℕ_discrete g f) [
      | yes e ↦ absurd (n (holds s (rw e at h)))
      | no d ↦ (elsewhere g d, local.op_same g d)
    ]

    moved : update fut f p' f ≡ p'
    moved = ground arith

    futures' : (g : ℕ) → FutFits env m' g (update fut f p' g)
    futures' g = elim (ℕ_discrete g f) [
      | yes e ↦ rw (e, moved) own
      | no n ↦ rw (elsewhere g n) (
          FutFits-frame env local.touches g (fut g) (local.op_same g n, local.result_same g n)
            (λ s. alone g s n) (futures g))
    ]

    workers' : (w : ℕ) → WorkFits env m' (update fut f p') (work w)
    workers' w = elim (Option-cases (served (work w))) [
      | inl none_served ↦ WorkFits-frame env local.touches kept (work w) (λ s h t. cc) (workers w)
      | inr (s, h) ↦ elim (Option-same T s) [
        | inl t ↦ servers s (work w) t h (workers w)
        | inr n ↦ WorkFits-frame env local.touches kept (work w) (λ s' h' t. n (cc)) (workers w)
      ]
    ]

    queue' : (s : ℕ) → QueueFits env m' (update fut f p') s
    queue' s = elim (Option-same T s) [
      | inl t ↦ queued s t (queue s)
      | inr n ↦ QueueFits-frame env local.touches kept s n (queue s)
    ]

    one_holder' :
        (g h s : ℕ) → held (update fut f p' g) ≡ some s → held (update fut f p' h) ≡ some s → g ≡ h
    one_holder' g h s a b = elim (ℕ_discrete g f) [
      | yes e ↦ elim (ℕ_discrete h f) [
        | yes e' ↦ e ∙ sym e'
        | no n ↦ absurd (alone h s n (rw (elsewhere h n) at b) (keeps s (rw (e, moved) at a)))
      ]
      | no n ↦ elim (ℕ_discrete h f) [
        | yes e' ↦ absurd (alone g s n (rw (elsewhere g n) at a) (keeps s (rw (e', moved) at b)))
        | no n' ↦ one_holder g h s (rw (elsewhere g n) at a) (rw (elsewhere h n') at b)
      ]
    ]

    living' : (g : ℕ) → m'.alive g ≡ not (is_gone (update fut f p' g))
    living' g = ground (arith, living g, local.alive_same g)

    pub Moves-Inv : Inv env m' (update fut f p') work
    Moves-Inv = record {
      futures = futures';
      workers = workers';
      queue = queue';
      one_holder = one_holder';
      one_server = one_server;
      living = living';
    }
