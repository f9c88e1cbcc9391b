-- ===== src/Time/Kinds.antt =====
-- What Zephyr takes a timeout for, after the table in zephyr/src/time.rs, and that each conversion
-- gives a timeout of the kind that it is for.
use zephyr_lang_rust.Prelude.{
  ℕ, zero, suc, ◌+◌, ◌≡◌, refl, true, false, ltb, ◌&&◌, if◌then◌else◌, arith,
}
use zephyr_lang_rust.Prelude.Int.{pos, negsuc}
use zephyr_lang_rust.Prelude.Outcome.{Outcome, ret, panic, ◌>>=◌}
use zephyr_lang_rust.Time.{Width, bits32, bits64, ticks_bound, Timeout, from_duration, from_instant}

pub data Kind : Type 0 where
  no_wait : Kind
  relative : ℕ → Kind
  forever : Kind
  absolute : ℕ → Kind

pub kind : Timeout → Kind
kind t = elim t.ticks [
  | pos n ↦ elim n [ zero ↦ no_wait | suc m ↦ relative (suc m) ]
  | negsuc n ↦ elim n [ zero ↦ forever | suc m ↦ absolute m ]
]

abbrev kind_of : Outcome Timeout → Outcome Kind
kind_of o = o >>= λ t. ret (kind t)

-- With debug assertions on, a duration from 1 tick to the greatest `k_ticks_t` becomes a wait of
-- just that many ticks from now, and any other panics.  With them off, a duration of 0 ticks or one
-- that does not fit becomes "do not wait".
pub kind-from_duration :
    (w : Width) (d : ℕ)
    → (kind_of (from_duration true w d)
        ≡ (if ltb 0 d && ltb d (ticks_bound w) then ret (relative d) else panic))
      × (kind_of (from_duration false w d)
          ≡ ret (if ltb 0 d && ltb d (ticks_bound w) then relative d else no_wait))
unfolding kind from_duration
kind-from_duration bits32 zero = (refl, refl)
kind-from_duration bits32 (suc d) = (ground arith, ground arith)
kind-from_duration bits64 zero = (refl, refl)
kind-from_duration bits64 (suc d) = (ground arith, ground arith)

-- With debug assertions on, an instant from tick 1 to the one before the greatest `k_ticks_t`
-- becomes a wait until just that tick, and any other panics, the instants at 0 and at the greatest
-- `k_ticks_t` too.  With them off, instants up to that tick, 0 included, become a wait until it, the
-- greatest becomes a wait of 2^63 - 1 ticks from now, and one that does not fit a wait until tick 0.
pub kind-from_instant :
    (t : ℕ)
    → (kind_of (from_instant true t)
        ≡ (if ltb 0 t && ltb (t + 1) (ticks_bound bits64) then ret (absolute t) else panic))
      × (kind_of (from_instant false t)
          ≡ ret (
              if ltb (t + 1) (ticks_bound bits64)
              then absolute t
              else if ltb t (ticks_bound bits64)
              then relative t
              else absolute 0))
unfolding kind from_instant
kind-from_instant zero = (refl, refl)
kind-from_instant (suc t) = (ground arith, ground arith)
