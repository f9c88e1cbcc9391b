-- ===== src/Embassy/Target.antt =====
-- The entries that a queue keeps and their first time, and the timeout that the alarm is given.
use zephyr_lang_rust.Prelude.{
  ℕ, ◌+◌, ◌-◌, ◌^◌, ◌≤◌, ◌<◌, ◌≡◌, Bool, true, false, List, [], ◌∷◌, length, arith,
}
use zephyr_lang_rust.Prelude.Outcome.{ret}
use zephyr_lang_rust.Time.{k_forever, from_instant}
use zephyr_lang_rust.Embassy.{
  u64_max, later, earliest, ZTimer, start, initialize, delta, as_i64, set_alarm,
}

pub length-later : (t : ℕ) (es : List (ℕ × ℕ)) → length (later t es) ≤ length es
length-later t [] = omega arith
length-later t ((at, w) ∷ es) = ground (arith, length-later t es)

-- Past the first time of all, an entry is dropped.
pub later-shorter :
    (t : ℕ) (es : List (ℕ × ℕ)) → earliest es ≤ t → t < u64_max → length (later t es) < length es
later-shorter t [] h b = absurd (omega arith)
later-shorter t ((at, w) ∷ es) h b = ground (arith, length-later t es, later-shorter t es)

pub earliest-later : (t : ℕ) (es : List (ℕ × ℕ)) → t < u64_max → t < earliest (later t es)
earliest-later t [] b = b
earliest-later t ((at, w) ∷ es) b = ground (arith, earliest-later t es b)

pub earliest-le : (es : List (ℕ × ℕ)) → earliest es ≤ u64_max
earliest-le [] = omega arith
earliest-le ((at, w) ∷ es) = ground (arith, earliest-le es)

-- The timer once its alarm is set for a time.
abbrev pub armed : ZTimer → ℕ → ℕ → ZTimer
armed z next now = record {
  initialized = true;
  calls = start (record { ticks = as_i64 (next - now + 1) }) k_forever ∷ (initialize z).calls;
}

pub initialize-initialized : (z : ZTimer) → (initialize z).initialized ≡ true
unfolding initialize
initialize-initialized z = ground arith

delta_lem :
    (checks : Bool) (next now : ℕ)
    → 0 < now
    → next ≤ u64_max
    → delta checks next now ≡ ret (next - now + 1)
unfolding delta
delta_lem checks next now p b = ground arith

pub set_alarm-set :
    (checks : Bool) (z : ZTimer) (next now : ℕ)
    → 0 < now
    → next ≤ u64_max
    → now < next
    → set_alarm checks z next now ≡ ret (armed z next now, true)
unfolding set_alarm
set_alarm-set checks z next now p b h =
    ground (arith, delta_lem checks next now p b, initialize-initialized z)

pub set_alarm-late :
    (checks : Bool) (z : ZTimer) (next now : ℕ)
    → next ≤ now
    → set_alarm checks z next now ≡ ret (z, false)
unfolding set_alarm
set_alarm-late checks z next now h = ground arith

-- The ticks from a time to the greatest one, as those of the instant two ticks before that time.
pub from_instant-past :
    (debug : Bool) (now : ℕ)
    → 3 ≤ now
    → now < 2 ^ 63
    → from_instant debug (now - 2) ≡ ret (record { ticks = as_i64 (u64_max - now + 1) })
unfolding from_instant as_i64
from_instant-past true now h small = ground arith
from_instant-past false now h small = ground arith
