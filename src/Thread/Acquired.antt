-- ===== src/Thread/Acquired.antt =====
-- The entries of a pool that a program acquires, one after another.
use zephyr_lang_rust.Prelude.{
  ℕ, zero, suc, ◌+◌, ◌≤◌, ◌<◌, ◌≡◌, refl, ap, ◌∙◌, ◌⊎◌, inl, inr, Bool, Option-cases, none, some,
  List, [], ◌∷◌, ◌++◌, append-nil, append_assoc, length, length-append, ltb, if◌then◌else◌, dec_lt,
  arith,
}
use zephyr_lang_rust.Prelude.Int.{ℤ}
use zephyr_lang_rust.Prelude.Outcome.{Outcome, ret, panic, ◌>>=◌}
use zephyr_lang_rust.Time.{k_forever}
use zephyr_lang_rust.Thread.{
  init, allocated, ThreadData, new, ThreadCall, ThreadPool, find_from, find_thread, mark, store,
  replace_init, update_at, startup, acquire, set_priority, start,
}

-- What a program does with a pool, and the threads of the pool that come to run their entry function,
-- of any entry and as often as may be; which threads `k_thread_join` finds finished is given with each
-- `acquire`.
pub data Op : Type 0 where
  acquires : (ℕ → Bool) → ℕ → ℕ → ℤ → ℕ → Op
  sets_priority : ℕ → ℤ → Op
  starts : ℕ → Op
  runs_startup : ℕ → Op

unfoldable pub new_threads : ℕ → List ThreadData
unfolding new
new_threads zero = []
new_threads (suc n) = new ∷ new_threads n

-- The entries that are acquired, in order, and the pool in the end.
unfoldable pub run : ThreadPool → ℕ → ℕ → List Op → Outcome (List ℕ × ThreadPool)
run p stacks size [] = ret ([], p)
run p stacks size (acquires joined args entry priority name ∷ ops) =
    acquire joined p stacks size args entry priority name >>= λ (id, p').
    run p' stacks size ops >>= λ (ids, p''). ret (id ∷ ids, p'')
run p stacks size (sets_priority id priority ∷ ops) =
    run (set_priority p id priority) stacks size ops
run p stacks size (starts id ∷ ops) = run (start p id) stacks size ops
run p stacks size (runs_startup id ∷ ops) = run (startup p id) stacks size ops

abbrev pub args_of : List Op → List ℕ
args_of [] = []
args_of (acquires joined args entry priority name ∷ ops) = args ∷ args_of ops
args_of (sets_priority id priority ∷ ops) = args_of ops
args_of (starts id ∷ ops) = args_of ops
args_of (runs_startup id ∷ ops) = args_of ops

abbrev pub from : ℕ → List ℕ → List ℕ
from m [] = []
from m (a ∷ xs) = m ∷ from (suc m) xs

-- An entry that was acquired: it has its arguments and its function has not been called, or it has none
-- and its function was called once, with these arguments.
abbrev pub Given : ℕ → ThreadData → Type 0
Given a t = (t.init ≡ some a) × (t.called ≡ []) ⊎ (t.init ≡ none) × (t.called ≡ a ∷ [])

-- The first entries are allocated, each given its arguments, and the others are as new.
abbrev pub Taken : List ℕ → List ThreadData → Type 0
Taken [] [] = Unit {0}
Taken [] (t ∷ ts) = (t.state ≡ init) × (t.init ≡ none) × (t.called ≡ []) × Taken [] ts
Taken (a ∷ xs) [] = ⊥
Taken (a ∷ xs) (t ∷ ts) = (t.state ≡ allocated) × Given a t × Taken xs ts

replace_init-Given : (a : ℕ) (t : ThreadData) → Given a t → Given a (replace_init t)
unfolding replace_init
replace_init-Given a t (inl (i, c)) = rw i (inr (refl, rw c refl))
replace_init-Given a t (inr (i, c)) = rw i (inr (refl, c))

state-replace_init : (t : ThreadData) → (replace_init t).state ≡ t.state
unfolding replace_init
state-replace_init t = elim (Option-cases t.init) [
  | inl none_there ↦ rw none_there refl
  | inr (a, there) ↦ rw there refl
]

replace_init-none : (t : ThreadData) → t.init ≡ none → replace_init t ≡ t
unfolding replace_init
replace_init-none t e = rw e refl

startup-Taken :
    (xs : List ℕ) (ts : List ThreadData) (id : ℕ)
    → Taken xs ts
    → Taken xs (update_at replace_init ts id)
startup-Taken [] [] id h = h
startup-Taken [] (t ∷ ts) zero (s, i, c, h) = rw (replace_init-none t i) (s, i, c, h)
startup-Taken [] (t ∷ ts) (suc id) (s, i, c, h) = (s, i, c, startup-Taken [] ts id h)
startup-Taken (a ∷ xs) [] id h = h
startup-Taken (a ∷ xs) (t ∷ ts) zero (s, g, h) =
    (state-replace_init t ∙ s, replace_init-Given a t g, h)
startup-Taken (a ∷ xs) (t ∷ ts) (suc id) (s, g, h) = (s, g, startup-Taken xs ts id h)

length-update_at :
    (f : ThreadData → ThreadData) (ts : List ThreadData) (id : ℕ)
    → length (update_at f ts id) ≡ length ts
length-update_at f [] id = refl
length-update_at f (t ∷ ts) zero = refl
length-update_at f (t ∷ ts) (suc id) = ap suc (length-update_at f ts id)

find_from-Taken :
    (joined : ℕ → Bool) (id : ℕ) (xs : List ℕ) (ts : List ThreadData)
    → Taken xs ts
    → find_from joined id ts ≡ (if ltb (length xs) (length ts) then some (id + length xs) else none)
unfolding find_from
find_from-Taken joined id [] [] h = ground arith
find_from-Taken joined id [] (t ∷ ts) h = rw h.0 (ground arith)
find_from-Taken joined id (a ∷ xs) [] h = absurd h
find_from-Taken joined id (a ∷ xs) (t ∷ ts) h =
    rw h.0 (find_from-Taken joined (suc id) xs ts h.2 ∙ ground arith)

find_thread-ret :
    (joined : ℕ → Bool) (xs : List ℕ) (ts : List ThreadData)
    → Taken xs ts
    → length xs < length ts
    → find_thread joined ts ≡ ret (length xs, mark ts (length xs))
unfolding find_thread
find_thread-ret joined xs ts h l = ground (arith, find_from-Taken joined 0 xs ts h)

find_thread-panic :
    (joined : ℕ → Bool) (xs : List ℕ) (ts : List ThreadData)
    → Taken xs ts
    → length ts ≤ length xs
    → find_thread joined ts ≡ panic
unfolding find_thread
find_thread-panic joined xs ts h l = ground (arith, find_from-Taken joined 0 xs ts h)

take-Taken :
    (xs : List ℕ) (a : ℕ) (ts : List ThreadData)
    → Taken xs ts
    → length xs < length ts
    → Taken (xs ++ a ∷ []) (store (mark ts (length xs)) (length xs) a)
take-Taken [] a [] h l = absurd (omega arith)
take-Taken [] a (t ∷ ts) (s, i, c, h) l = (refl, inl (refl, c), h)
take-Taken (b ∷ xs) a [] h l = absurd h
take-Taken (b ∷ xs) a (t ∷ ts) h l = (h.0, h.1, take-Taken xs a ts h.2 (omega arith))

length-take : (ts : List ThreadData) (i a : ℕ) → length (store (mark ts i) i a) ≡ length ts
length-take [] i a = refl
length-take (t ∷ ts) zero a = refl
length-take (t ∷ ts) (suc i) a = ap suc (length-take ts i a)

new_threads-Taken : (n : ℕ) → Taken [] (new_threads n)
unfolding new_threads
new_threads-Taken zero = tt
new_threads-Taken (suc n) = (refl, refl, refl, new_threads-Taken n)

length-new_threads : (n : ℕ) → length (new_threads n) ≡ n
unfolding new_threads
length-new_threads zero = refl
length-new_threads (suc n) = ap suc (length-new_threads n)

module _ (stacks size : ℕ) where
  acquired : ThreadPool → List ℕ → ℕ → ℕ → ℤ → ℕ → ThreadPool
  acquired p xs args entry priority name = record {
    threads = store (mark p.threads (length xs)) (length xs) args;
    calls =
        ThreadCall.k_thread_name_set (length xs) name
        ∷ ThreadCall.k_thread_create (length xs) (length xs) size entry priority k_forever
        ∷ p.calls;
  }

  acquire-ret :
      (joined : ℕ → Bool) (p : ThreadPool) (xs : List ℕ) (args entry : ℕ) (priority : ℤ) (name : ℕ)
      → Taken xs p.threads
      → length p.threads ≤ stacks
      → length xs < length p.threads
      → acquire joined p stacks size args entry priority name
        ≡ ret (length xs, acquired p xs args entry priority name)
  unfolding acquire acquired
  acquire-ret joined p xs args entry priority name h s l =
      rw (find_thread-ret joined xs p.threads h l) (ground arith)

  acquire-panic :
      (joined : ℕ → Bool) (p : ThreadPool) (xs : List ℕ) (args entry : ℕ) (priority : ℤ) (name : ℕ)
      → Taken xs p.threads
      → length p.threads ≤ length xs
      → acquire joined p stacks size args entry priority name ≡ panic
  unfolding acquire
  acquire-panic joined p xs args entry priority name h l =
      rw (find_thread-panic joined xs p.threads h l) refl

  -- With these entries taken before and these acquired: all are there, or the pool is exhausted.
  abbrev Ends : ℕ → List ℕ → List ℕ → Outcome (List ℕ × ThreadPool) → Type 0
  Ends n xs bs o =
      (length xs + length bs ≤ n)
        × ((p : ThreadPool) × (o ≡ ret (from (length xs) bs, p)) × Taken (xs ++ bs) p.threads)
      ⊎ (n < length xs + length bs) × (o ≡ panic)

  acquired-Ends :
      (xs : List ℕ) (a : ℕ) (bs : List ℕ) (n : ℕ) (o : Outcome (List ℕ × ThreadPool))
      → Ends n (xs ++ a ∷ []) bs o
      → Ends n xs (a ∷ bs) (o >>= λ (ids, p). ret (length xs ∷ ids, p))
  acquired-Ends xs a bs n o (inl (b, (p, e, t))) =
      let l : length (xs ++ a ∷ []) ≡ suc (length xs) = omega (arith, length-append xs (a ∷ [])) in
      inl (omega (arith, l), (p, rw e (rw l refl), rw (append_assoc xs (a ∷ []) bs) at t))
  acquired-Ends xs a bs n o (inr (b, e)) = inr (omega (arith, length-append xs (a ∷ [])), rw e refl)

  run-Ends :
      (ops : List Op) (p : ThreadPool) (xs : List ℕ) (n : ℕ)
      → Taken xs p.threads
      → length xs ≤ n
      → length p.threads ≡ n
      → n ≤ stacks
      → Ends n xs (args_of ops) (run p stacks size ops)
  unfolding run
  run-Ends [] p xs n h b e s = inl (omega arith, (p, refl, rw (append-nil xs) h))
  run-Ends (sets_priority id priority ∷ ops) p xs n h b e s =
      run-Ends ops (set_priority p id priority) xs n (unfold set_priority in h) b
        (unfold set_priority in e) s
  run-Ends (starts id ∷ ops) p xs n h b e s =
      run-Ends ops (start p id) xs n (unfold start in h) b (unfold start in e) s
  run-Ends (runs_startup id ∷ ops) p xs n h b e s =
      run-Ends ops (startup p id) xs n (unfold startup in startup-Taken xs p.threads id h) b
        (unfold startup in (length-update_at replace_init p.threads id ∙ e)) s
  run-Ends (acquires joined args entry priority name ∷ ops) p xs n h b e s =
      elim (dec_lt (length xs) n) [
        | no full ↦ inr (
          omega arith,
          rw (acquire-panic joined p xs args entry priority name h (omega (arith, e))) refl,
        )
        | yes room ↦
            let p' = acquired p xs args entry priority name in
            let l = length-append xs (args ∷ []) in
            rw
              (acquire-ret joined p xs args entry priority name h (omega (arith, e))
                (omega (arith, e)))
              (acquired-Ends xs args (args_of ops) n (run p' stacks size ops) (
                run-Ends ops p' (xs ++ args ∷ []) n
                  (unfold acquired in take-Taken xs args p.threads h (omega (arith, e)))
                  (omega (arith, l))
                  (unfold acquired in (length-take p.threads (length xs) args ∙ e)) s))
      ]

  -- However a program acquires the entries of a new pool of `n`, with at least as many stacks, sets
  -- priorities and starts threads, whenever threads run their `startup`, and whatever threads the
  -- kernel would find finished: with at most `n` acquired, each gets an entry of its own, in order
  -- from 0, and the function of an entry has been called with the entry's own arguments and once, or
  -- not yet, and then the arguments are there; with more, the program panics, though the threads may
  -- have finished.
  pub run-ids :
      (ops : List Op) (n : ℕ)
      → n ≤ stacks
      → let o = run (record { threads = new_threads n; calls = [] }) stacks size ops in
        (length (args_of ops) ≤ n)
          × ((p : ThreadPool) × (o ≡ ret (from 0 (args_of ops), p)) × Taken (args_of ops) p.threads)
        ⊎ (n < length (args_of ops)) × (o ≡ panic)
  run-ids ops n s =
      elim (run-Ends ops (record { threads = new_threads n; calls = [] }) [] n (new_threads-Taken n)
        (omega arith) (length-new_threads n) s) [
          | inl (b, (p, e, t)) ↦ inl (omega (arith, b), (p, e, t))
          | inr (b, e) ↦ inr (omega (arith, b), e)
        ]
