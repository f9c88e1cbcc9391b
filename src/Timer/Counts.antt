-- ===== src/Timer/Counts.antt =====
-- What `read_count` and `read_count_wait` return is what the timer has expired.
use zephyr_lang_rust.Prelude.{
  ℕ, suc, ◌+◌, ◌%◌, ◌^◌, ◌≤◌, ◌≡◌, refl, Bool, true, false, Option, none, some, List, [], ◌∷◌, ltb,
  if◌then◌else◌, Bool-cases, inl, inr, arith,
}
use zephyr_lang_rust.Prelude.Outcome.{Outcome, ret, ◌>>=◌}
use zephyr_lang_rust.Time.{Timeout}
use zephyr_lang_rust.Timer.{KTimer, Timer}
use zephyr_lang_rust.Timer.Simple.{SimpleTimer, start, read_count, read_count_wait}

pub data Event : Type 0 where
  expiry reads_count waits_count : Event

-- What was returned and what is unread make up what has expired, in 32 bits, and are no more than it.
abbrev pub Sums : ℕ → ℕ → ℕ → Type 0
Sums returned status expired =
    ((returned + status) % 2 ^ 32 ≡ expired % 2 ^ 32) × (returned + status ≤ expired)

Sums-start : (s : ℕ) → s ≡ 0 → Sums 0 s 0
Sums-start s z = (rw z refl, omega (arith, z))

Sums-expired : (r s s' e : ℕ) → Sums r s e → s' ≡ suc s % 2 ^ 32 → Sums r s' (suc e)
Sums-expired r s s' e (m, l) h = (omega (arith, m, h), omega (arith, l, h))

Sums-read : (r s n s' e : ℕ) → Sums r s e → n ≡ s → s' ≡ 0 → Sums (r + n) s' e
Sums-read r s n s' e (m, l) h z =
    let same : r + n + s' ≡ r + s = omega (arith, h, z) in (rw same m, rw same l)

module _ (k : KTimer) where
  -- A running timer, how often it has expired, and the sum of the counts that were returned.
  pub record Tally : Type 0 where
    pub timer : SimpleTimer k
    pub expired : ℕ
    pub returned : ℕ

  abbrev pub kernel : Tally → k.K
  kernel a = a.timer.timer.kernel

  -- The timer expires, if it runs.
  unfoldable pub expire : Tally → Tally
  expire a =
      if k.running (kernel a)
      then record a {
        timer = record a.timer { timer = record a.timer.timer { kernel = k.expires (kernel a) } };
        expired = suc a.expired;
      }
      else a

  abbrev pub take_count : Tally → Option (ℕ × SimpleTimer k) → Outcome Tally
  take_count a none = ret a
  take_count a (some (n, s)) = ret (record a { timer = s; returned = a.returned + n })

  -- A call that waits returns later or not at all.
  unfoldable pub on_event : Event → Tally → Outcome Tally
  unfolding expire read_count read_count_wait
  on_event expiry a = ret (expire a)
  on_event reads_count a = read_count k a.timer >>= λ r. take_count a (some r)
  on_event waits_count a = read_count_wait k a.timer >>= λ r. take_count a r

  unfoldable pub on_events : List Event → Tally → Outcome Tally
  unfolding on_event
  on_events [] a = ret a
  on_events (e ∷ es) a = on_event e a >>= λ b. on_events es b

  abbrev Counts : Tally → Type 0
  Counts a = (a.timer.item ≡ true) × (Sums a.returned (k.status (kernel a)) a.expired)

  abbrev Kept : Outcome Tally → Type 0
  Kept o = (b : Tally) × (o ≡ ret b) × Counts b

  -- After the kernel has given its count.
  given : Tally → Tally
  given a = record a {
    timer = record a.timer {
      timer = record a.timer.timer { kernel = (k.k_timer_status_get (kernel a)).1 };
    };
    returned = a.returned + (k.k_timer_status_get (kernel a)).0;
  }

  given-Counts : (a : Tally) → Counts a → Counts (given a)
  unfolding given
  given-Counts a (i, c) = (
    i,
    Sums-read a.returned (k.status (kernel a)) _ _ a.expired c (k.get_value (kernel a))
        (k.get_reset (kernel a)),
  )

  on_event-read : (a : Tally) → a.timer.item ≡ true → on_event reads_count a ≡ ret (given a)
  unfolding on_event given
  on_event-read a i = rw i refl

  on_event-wait :
      (a : Tally)
      → a.timer.item ≡ true
      → on_event waits_count a ≡ (
          if ltb 0 (k.status (kernel a))
          then ret (given a)
          else if k.running (kernel a)
          then ret a
          else ret a)
  unfolding on_event given
  on_event-wait a i = rw i (rw (k.sync_lem (kernel a)) (ground arith))

  expire-Counts : (a : Tally) → Counts a → Counts (expire a)
  unfolding expire
  expire-Counts a (i, c) = elim (Bool-cases (k.running (kernel a))) [
    | inr idle ↦ rw idle (i, c)
    | inl runs ↦ rw runs (
      i,
      Sums-expired a.returned (k.status (kernel a)) _ a.expired c
          (k.expires_status (kernel a) runs),
    )
  ]

  -- A call that gives a count, or still waits, or has nothing to wait for.
  Kept-if :
      (b c : Bool) (x y : Tally)
      → Counts x
      → Counts y
      → Kept (if b then ret x else if c then ret y else ret y)
  Kept-if true c x y p q = (x, refl, p)
  Kept-if false true x y p q = (y, refl, q)
  Kept-if false false x y p q = (y, refl, q)

  on_event-Kept : (e : Event) (a : Tally) → Counts a → Kept (on_event e a)
  unfolding on_event
  on_event-Kept expiry a c = (expire a, refl, expire-Counts a c)
  on_event-Kept reads_count a c = (given a, on_event-read a c.0, given-Counts a c)
  on_event-Kept waits_count a c = rw (on_event-wait a c.0) (
      Kept-if (ltb 0 (k.status (kernel a))) (k.running (kernel a)) (given a) a (given-Counts a c) c)

  on_events-Kept : (es : List Event) (a : Tally) → Counts a → Kept (on_events es a)
  unfolding on_events
  on_events-Kept [] a c = (a, refl, c)
  on_events-Kept (e ∷ es) a c =
      let (b, went, c') = on_event-Kept e a c in rw went (on_events-Kept es b c')

  -- From `start_simple` on, whatever expirations and calls of `read_count` and `read_count_wait` come,
  -- in any order, no call panics, and the counts that have been returned, with the count that has not
  -- been read, sum up to the number of times that the timer has expired, modulo 2^32, and to no more
  -- than it.
  pub counts-expired :
      (es : List Event) (t : Timer k) (delay period : Timeout)
      → (b : Tally) × (on_events es
            (record { timer = start k t delay period; expired = 0; returned = 0 })
          ≡ ret b)
        × Sums b.returned (k.status (kernel b)) b.expired
  unfolding start
  counts-expired es t delay period =
      let (b, went, (i, c)) =
        on_events-Kept es (record { timer = start k t delay period; expired = 0; returned = 0 })
          (
            refl,
            Sums-start (k.status (k.k_timer_start t.kernel delay period))
                (k.start_status t.kernel delay period),
          ) in
      (b, went, c)
