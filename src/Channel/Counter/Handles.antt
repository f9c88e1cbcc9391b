-- ===== src/Channel/Counter/Handles.antt =====
-- The counts are the numbers of handles, and what happens when the last handle of a side goes.
use native.Mathlib.Nat.{mod-eq_of_lt, mod-eq-sub-mod}
use zephyr_lang_rust.Prelude.{
  ℕ, ◌+◌, ◌-◌, ◌/◌, ◌<◌, ◌≡◌, refl, Bool, not, ◌&&◌, ◌||◌, ◌==◌, if◌then◌else◌, List, [], ◌∷◌,
  length, arith, Bool-cases, inl, inr,
}
use zephyr_lang_rust.Prelude.Outcome.{Outcome, ret, panic, ◌>>=◌}
use zephyr_lang_rust.Channel.Counter.{
  Counter, new, destroy_swap, release_sender, release_receiver, clone_sender, clone_receiver,
  drop_sender, drop_receiver, fetch_add_one, fetch_sub_one,
}

-- The calls that make and give up a handle.
pub data HandleOp : Type 0 where
  clone_s clone_r drop_s drop_r : HandleOp

-- What they mean: a number of senders and one of receivers, neither of which may reach zero.
abbrev pub hold_step : HandleOp → ℕ × ℕ → Outcome (ℕ × ℕ)
hold_step clone_s (s, r) = ret (s + 1, r)
hold_step clone_r (s, r) = ret (s, r + 1)
hold_step drop_s (s, r) = if s == 1 then panic else ret (s - 1, r)
hold_step drop_r (s, r) = if r == 1 then panic else ret (s, r - 1)

pub hold : List HandleOp → ℕ × ℕ → Outcome (ℕ × ℕ)
hold [] h = ret h
hold (op ∷ ops) h = hold_step op h >>= hold ops

abbrev pub counts : {C : Type 0} → Outcome (Counter C) → Outcome (ℕ × ℕ)
counts o = o >>= λ c. ret (c.senders, c.receivers)

fetch_add_one_lem : (usize n : ℕ) → n + 1 < usize → fetch_add_one usize n ≡ n + 1
fetch_add_one_lem usize n h = mod-eq_of_lt h

fetch_sub_one_lem : (usize n : ℕ) → 0 < n → n < usize → fetch_sub_one usize n ≡ n - 1
fetch_sub_one_lem usize n h k = grind (arith, mod-eq-sub-mod, mod-eq_of_lt)

-- The counts are positive, and far enough from their bound for so many calls.
abbrev Fits : ℕ → List HandleOp → Outcome (ℕ × ℕ) → Type 0
Fits usize ops (ret (s, r)) =
    (0 < s) × (0 < r) × (s + length ops < usize / 2) × (r + length ops < usize / 2)
Fits usize ops panic = Unit

Fits-step :
    (usize : ℕ) (op : HandleOp) (ops : List HandleOp) (s r : ℕ)
    → Fits usize (op ∷ ops) (ret (s, r))
    → Fits usize ops (hold_step op (s, r))
Fits-step usize clone_s ops s r f = omega arith
Fits-step usize clone_r ops s r f = omega arith
Fits-step usize drop_s ops s r f = ground arith
Fits-step usize drop_r ops s r f = ground arith

-- A step that holds, followed by a run that holds from each state that fits.
hold_next :
    {C : Type 0} (o : Outcome (Counter C)) (k : Counter C → Outcome (Counter C))
    (l : ℕ × ℕ → Outcome (ℕ × ℕ)) (h : Outcome (ℕ × ℕ)) (P : Outcome (ℕ × ℕ) → Type 0)
    → counts o ≡ h
    → P h
    → ((c : Counter C)
        → P (ret (c.senders, c.receivers))
        → counts (k c) ≡ l (c.senders, c.receivers))
    → counts (o >>= k) ≡ (h >>= l)
hold_next (ret c) k l h P e p next = rw (← e) (next c (rw (← e) at p))
hold_next panic k l h P e p next = rw (← e)

module _ (usize : ℕ) {C : Type 0} where
  pub step : HandleOp → Counter C → Outcome (Counter C)
  unfolding clone_sender clone_receiver drop_sender drop_receiver
  step clone_s c = clone_sender usize c
  step clone_r c = clone_receiver usize c
  step drop_s c = drop_sender usize c
  step drop_r c = drop_receiver usize c

  pub run : List HandleOp → Counter C → Outcome (Counter C)
  run [] c = ret c
  run (op ∷ ops) c = step op c >>= run ops

  -- One call, where the counts are far from their bound.
  step_holds :
      (op : HandleOp) (c : Counter C)
      → 0 < c.senders
      → 0 < c.receivers
      → c.senders + 1 < usize / 2
      → c.receivers + 1 < usize / 2
      → counts (step op c) ≡ hold_step op (c.senders, c.receivers)
  unfolding step
  step_holds clone_s c s r hs hr = ground (arith, fetch_add_one_lem usize c.senders)
  step_holds clone_r c s r hs hr = ground (arith, fetch_add_one_lem usize c.receivers)
  step_holds drop_s c s r hs hr = ground (arith, fetch_sub_one_lem usize c.senders)
  step_holds drop_r c s r hs hr = ground (arith, fetch_sub_one_lem usize c.receivers)

  run_holds :
      (ops : List HandleOp) (c : Counter C)
      → Fits usize ops (ret (c.senders, c.receivers))
      → counts (run ops c) ≡ hold ops (c.senders, c.receivers)
  unfolding run hold
  run_holds [] c f = refl
  run_holds (op ∷ ops) c f =
      hold_next (step op c) (run ops) (hold ops) _ (Fits usize ops)
        (step_holds op c f.0 f.1 (omega arith) (omega arith))
        (Fits-step usize op ops c.senders c.receivers f) (run_holds ops)

  -- From a new channel, any sequence of clones and drops of handles that is shorter than half the
  -- range of `usize` keeps the two counts at the numbers of senders and of receivers, and panics
  -- just when it drops the last handle of one side, however many the other side has.
  pub run-new_holds :
      (chan : C) (ops : List HandleOp)
      → length ops + 1 < usize / 2
      → counts (run ops (new chan)) ≡ hold ops (1, 1)
  unfolding new
  run-new_holds chan ops h = run_holds ops (new chan) (omega arith)

-- The two sides, and the calls on each.
pub data Side : Type 0 where
  senders receivers : Side

abbrev pub other : Side → Side
other senders = receivers
other receivers = senders

module _ {C : Type 0} where
  abbrev pub handles : Side → Counter C → ℕ
  handles senders c = c.senders
  handles receivers c = c.receivers

  abbrev pub release : ℕ → (C → Outcome Bool) → Side → Counter C → Outcome (Counter C)
  release usize disconnect senders c = release_sender usize disconnect c
  release usize disconnect receivers c = release_receiver usize disconnect c

-- `destroy` is set when one side has no handle left, and the box is freed when neither has.
pub record IsValid {C : Type 0} (usize : ℕ) (c : Counter C) : Type 0 where
  pub fits : (c.senders < usize) × (c.receivers < usize)
  pub destroying : c.destroy ≡ (c.senders == 0 || c.receivers == 0)
  pub freed : c.live ≡ not (c.senders == 0 && c.receivers == 0)

module _ (usize : ℕ) {C : Type 0} (disconnect : C → Outcome Bool) (c : Counter C) (b : Bool) where
  release_sender_lem :
      IsValid usize c
      → disconnect c.chan ≡ ret b
      → 0 < c.senders
      → (s : Counter C) × (release_sender usize disconnect c ≡ ret s)
        × IsValid usize s
        × (s.senders + 1 ≡ c.senders)
        × (s.receivers ≡ c.receivers)
  unfolding release_sender destroy_swap
  release_sender_lem v d h = elim (Bool-cases (c.senders == 1)) [
    | inl last ↦ (
      destroy_swap (record c { senders = c.senders - 1 }),
      ground (arith, fetch_sub_one_lem usize c.senders, v.fits),
      ground (arith, v),
      ground arith,
      ground arith,
    )
    | inr more ↦ (
      record c { senders = c.senders - 1 },
      ground (arith, fetch_sub_one_lem usize c.senders, v.fits),
      ground (arith, v),
      ground arith,
      ground arith,
    )
  ]

  release_receiver_lem :
      IsValid usize c
      → disconnect c.chan ≡ ret b
      → 0 < c.receivers
      → (r : Counter C) × (release_receiver usize disconnect c ≡ ret r)
        × IsValid usize r
        × (r.receivers + 1 ≡ c.receivers)
        × (r.senders ≡ c.senders)
  unfolding release_receiver destroy_swap
  release_receiver_lem v d h = elim (Bool-cases (c.receivers == 1)) [
    | inl last ↦ (
      destroy_swap (record c { receivers = c.receivers - 1 }),
      ground (arith, fetch_sub_one_lem usize c.receivers, v.fits),
      ground (arith, v),
      ground arith,
      ground arith,
    )
    | inr more ↦ (
      record c { receivers = c.receivers - 1 },
      ground (arith, fetch_sub_one_lem usize c.receivers, v.fits),
      ground (arith, v),
      ground arith,
      ground arith,
    )
  ]

  -- On a valid counter, with a `disconnect` that returns, giving up a handle of a side that has one
  -- returns a valid counter, with one handle less on that side and as many on the other: `destroy`
  -- is set when one side has no handle left, and the box is freed when neither has, not before.
  pub release_keeps :
      (side : Side)
      → IsValid usize c
      → disconnect c.chan ≡ ret b
      → 0 < handles side c
      → (c' : Counter C) × (release usize disconnect side c ≡ ret c')
        × IsValid usize c'
        × (handles side c' + 1 ≡ handles side c)
        × (handles (other side) c' ≡ handles (other side) c)
  release_keeps senders v d h = release_sender_lem v d h
  release_keeps receivers v d h = release_receiver_lem v d h
