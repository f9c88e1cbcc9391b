-- ===== src/Embassy/Alarm.antt =====
-- The loops of `check_alarm` and `schedule_wake` end, with the alarm set for the first entry.
use zephyr_lang_rust.Prelude.{
  ℕ, zero, suc, ◌+◌, ◌-◌, ◌^◌, ◌≤◌, ◌<◌, ◌≡◌, refl, sym, ap, ◌∙◌, inl, inr, Bool, true, Option,
  some, List, [], ◌∷◌, length, dec_lt, Bool-cases, arith,
}
use zephyr_lang_rust.Prelude.Outcome.{Outcome, ret}
use zephyr_lang_rust.Time.{Timeout, k_forever, from_instant}
use zephyr_lang_rust.Embassy.{
  u64_max, later, earliest, TimerQueue, TimerCall, start, as_i64, initialize, Driver, expire,
  alarm_loop, check_alarm, schedule_wake,
}
use zephyr_lang_rust.Embassy.Target.{
  length-later, later-shorter, earliest-le, armed, set_alarm-set, set_alarm-late, from_instant-past,
}

module _ (k : TimerQueue) (now : ℕ → ℕ) where
  -- The latest call of the timer was made at a reading of the clock before every entry, and starts it
  -- for what is left to the first of them, and one tick more.
  pub record Armed (checks : Bool) (d : Driver k checks now) : Type 0 where
    pub reading : ℕ
    pub rest : List TimerCall
    pub before : now reading < earliest (k.entries d.queue)
    pub initialized : d.timer.initialized ≡ true
    pub latest :
        d.timer.calls
        ≡ start
            (record { ticks = as_i64 (earliest (k.entries d.queue) - now reading + 1) })
            k_forever
          ∷ rest

  -- A clock that does not run back, is past zero, and does not reach the greatest time.
  pub record Clock : Type 0 where
    pub ordered : (i : ℕ) → now i ≤ now (suc i)
    pub positive : (i : ℕ) → 0 < now i
    pub bounded : (i : ℕ) → now i < u64_max

module _ (k : TimerQueue) (checks : Bool) (now : ℕ → ℕ) (clock : Clock k now) where
  step-set :
      (fuel : ℕ) (d : Driver k checks now) (next : ℕ)
      → next ≤ u64_max
      → now d.reads < next
      → alarm_loop k checks now (suc fuel) d next
        ≡ ret (some (record d { timer = armed d.timer next (now d.reads); reads = suc d.reads }))
  unfolding alarm_loop
  step-set fuel d next b h =
      rw (set_alarm-set checks d.timer next (now d.reads) (clock.positive d.reads) b h) refl

  step-late :
      (fuel : ℕ) (d : Driver k checks now) (next : ℕ)
      → next ≤ now d.reads
      → alarm_loop k checks now (suc fuel) d next
        ≡ alarm_loop k checks now fuel
            (expire k checks now (record d { reads = suc d.reads })).0
            (expire k checks now (record d { reads = suc d.reads })).1
  unfolding alarm_loop
  step-late fuel d next h = rw (set_alarm-late checks d.timer next (now d.reads) h) refl

  abbrev Ends : Outcome (Option (Driver k checks now)) → Type 0
  Ends o = (end : Driver k checks now) × (o ≡ ret (some end)) × Armed k now checks end

  -- What `next_expiration` leaves, and the time that it gives.
  expire-first :
      (d : Driver k checks now)
      → (expire k checks now d).1 ≡ earliest (k.entries (expire k checks now d).0.queue)
  unfolding expire
  expire-first d =
      k.expiration_first d.queue (now d.reads)
      ∙ ap earliest (sym (k.expiration_kept d.queue (now d.reads)))

  expire-shorter :
      (d : Driver k checks now)
      → earliest (k.entries d.queue) ≤ now d.reads
      → length (k.entries (expire k checks now d).0.queue) < length (k.entries d.queue)
  unfolding expire
  expire-shorter d h =
      rw (k.expiration_kept d.queue (now d.reads))
        (later-shorter (now d.reads) (k.entries d.queue) h (clock.bounded d.reads))

  alarm_loop-Ends :
      (fuel : ℕ) (d : Driver k checks now) (next : ℕ)
      → next ≡ earliest (k.entries d.queue)
      → length (k.entries d.queue) < fuel
      → Ends (alarm_loop k checks now fuel d next)
  alarm_loop-Ends zero d next e h = absurd (omega arith)
  alarm_loop-Ends (suc fuel) d next e h = elim (dec_lt (now d.reads) next) [
    | yes wait ↦ (
      record d { timer = armed d.timer next (now d.reads); reads = suc d.reads },
      step-set fuel d next (rw e (earliest-le (k.entries d.queue))) wait,
      record {
        reading = d.reads;
        rest = (initialize d.timer).calls;
        before = rw (← e) wait;
        initialized = refl;
        latest = rw (← e) refl;
      },
    )
    | no late ↦
        let after : Driver k checks now = record d { reads = suc d.reads } in
        let passed : earliest (k.entries d.queue) ≤ now (suc d.reads) =
          omega (arith, clock.ordered d.reads, e) in
        let fewer = expire-shorter after passed in
        rw (step-late fuel d next (omega arith)) (
          alarm_loop-Ends fuel (expire k checks now after).0 (expire k checks now after).1
            (expire-first after) (omega arith))
  ]

  expire-length :
      (d : Driver k checks now)
      → length (k.entries (expire k checks now d).0.queue) ≤ length (k.entries d.queue)
  unfolding expire
  expire-length d =
      rw (k.expiration_kept d.queue (now d.reads)) (length-later (now d.reads) (k.entries d.queue))

  -- With fuel for one round more than the queue has entries, on a clock that never runs back, is past
  -- zero and stays below the greatest time, `check_alarm` ends without a panic, whatever the overflow
  -- checks, and leaves the timer initialized and last started, at a reading of the clock before every
  -- entry that the queue still has, with as many ticks as the time that is left to the first of them
  -- and one more, taken `as i64`: from 2^63 on they are negative.
  pub check_alarm_ends :
      (fuel : ℕ) (d : Driver k checks now)
      → length (k.entries d.queue) < fuel
      → (end : Driver k checks now) × (check_alarm k checks now fuel d ≡ ret (some end))
        × Armed k now checks end
  unfolding check_alarm
  check_alarm_ends fuel d h =
      alarm_loop-Ends fuel (expire k checks now d).0 (expire k checks now d).1 (expire-first d)
        (omega (arith, expire-length d))

  -- What the alarm's time says of the queue.
  abbrev pub IsArmed : Driver k checks now → Type 0
  IsArmed d = Armed k now checks d

  -- On the same clock, if the timer was last started for the first entry of the queue, then after
  -- `schedule_wake` has ended, as it does on fuel for one round more than the queue then has entries,
  -- it was last started for the first entry of the new queue, with the ticks to it and one more taken
  -- `as i64`, which from 2^63 on are negative.
  pub schedule_wake-IsArmed :
      (fuel : ℕ) (d : Driver k checks now) (at waker : ℕ)
      → length (k.entries (k.schedule_wake d.queue at waker).0) < fuel
      → IsArmed d
      → (end : Driver k checks now) × (schedule_wake k checks now fuel d at waker ≡ ret (some end))
        × IsArmed end
  unfolding schedule_wake
  schedule_wake-IsArmed fuel d at waker h a =
      elim (Bool-cases (k.schedule_wake d.queue at waker).1) [
        | inl changed ↦
            rw changed
              (check_alarm_ends fuel (record d { queue = (k.schedule_wake d.queue at waker).0 }) h)
        | inr same ↦
            let kept = k.schedule_same d.queue at waker same in
            rw same (
              record d { queue = (k.schedule_wake d.queue at waker).0 },
              refl,
              record {
                reading = a.reading;
                rest = a.rest;
                before = rw kept a.before;
                initialized = a.initialized;
                latest = rw kept a.latest;
              },
            )
      ]

  -- On the same clock, if it reads 3 or more and less than 2^63 and nothing is left in the queue after
  -- what has expired is dropped, the alarm that `check_alarm` sets is no wait for ever: it is the
  -- timeout of the instant two ticks before a reading of the clock.
  pub check_alarm-empty :
      (debug : Bool) (fuel : ℕ) (d : Driver k checks now)
      → later (now d.reads) (k.entries d.queue) ≡ []
      → 3 ≤ now (suc d.reads)
      → now (suc d.reads) < 2 ^ 63
      → (end : Driver k checks now) × (t : Timeout) × (rest : List TimerCall) × (check_alarm k
            checks now
            (suc fuel)
            d
          ≡ ret (some end))
        × (end.timer.calls ≡ start t k_forever ∷ rest)
        × (from_instant debug (now (suc d.reads) - 2) ≡ ret t)
  unfolding check_alarm
  check_alarm-empty debug fuel d e three small =
      let after = (expire k checks now d).0 in
      let greatest : (expire k checks now d).1 ≡ u64_max =
        k.expiration_first d.queue (now d.reads) ∙ ap earliest e in
      (
        record after {
          timer = armed after.timer (expire k checks now d).1 (now after.reads);
          reads = suc after.reads;
        },
        record { ticks = as_i64 ((expire k checks now d).1 - now after.reads + 1) },
        (initialize d.timer).calls,
        step-set fuel after (expire k checks now d).1 (omega (arith, greatest))
            (omega (arith, greatest, clock.bounded (suc d.reads))),
        refl,
        rw greatest (from_instant-past debug (now (suc d.reads)) three small),
      )
