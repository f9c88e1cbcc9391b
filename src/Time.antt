-- ===== src/Time.antt =====
-- zephyr/src/time.rs and the two constants of zephyr/src/sys.rs: durations and instants as the
-- `k_timeout_t` of Zephyr's calls.  A `Tick` is an unsigned number of 64 bits
-- (CONFIG_TIMEOUT_64BIT) or 32, and `k_ticks_t` the signed number of the same size.  `debug` says
-- whether debug assertions are on; overflow checks of arithmetic follow them, as in Cargo's
-- profiles.  The `fugit` types are their tick counts.
pub mod Kinds
use zephyr_lang_rust.Prelude.{
  ℕ, zero, suc, ◌+◌, ◌-◌, ◌^◌, ◌<◌, Bool, true, false, not, ltb, ◌==◌, if◌then◌else◌,
}
use zephyr_lang_rust.Prelude.Int.{ℤ, pos, negsuc}
use zephyr_lang_rust.Prelude.Outcome.{Outcome, ret, panic, debug_assert, ◌>>=◌, ◌>>◌}

pub data Width : Type 0 where
  bits32 bits64 : Width

-- The first number that does not fit a `k_ticks_t`, and a `Tick`.
abbrev pub ticks_bound : Width → ℕ
ticks_bound bits32 = 2 ^ 31
ticks_bound bits64 = 2 ^ 63

abbrev pub tick_bound : Width → ℕ
tick_bound bits32 = 2 ^ 32
tick_bound bits64 = 2 ^ 64

-- `struct Timeout(pub k_timeout_t)`
pub record Timeout : Type 0 where
  pub ticks : ℤ

abbrev pub k_forever : Timeout
k_forever = record { ticks = negsuc 0 }

abbrev pub k_no_wait : Timeout
k_no_wait = record { ticks = pos 0 }

-- `==` of `ticks`
abbrev pub eq_ℤ : ℤ → ℤ → Bool
eq_ℤ (pos a) (pos b) = a == b
eq_ℤ (negsuc a) (negsuc b) = a == b
eq_ℤ (pos a) (negsuc b) = false
eq_ℤ (negsuc a) (pos b) = false

-- `impl PartialEq for Timeout`
abbrev pub timeout_eq : Timeout → Timeout → Bool
timeout_eq a b = eq_ℤ a.ticks b.ticks

pub checked_cast : Bool → Width → ℕ → Outcome ℤ
checked_cast true w tick = if ltb tick (ticks_bound w) then ret (pos tick) else panic
checked_cast false w tick = if ltb tick (ticks_bound w) then ret (pos tick) else ret (pos 0)

-- `impl From<Duration> for Timeout`
unfoldable pub from_duration : Bool → Width → ℕ → Outcome Timeout
unfolding checked_cast
from_duration debug w value = do
  ticks ← checked_cast debug w value
  debug_assert debug (not (eq_ℤ ticks k_forever.ticks))
  debug_assert debug (not (eq_ℤ ticks k_no_wait.ticks))
  ret (record { ticks = ticks })

-- `-1 - 1 - ticks` on an `i64`: -2 - ticks, which lies below the least `i64` for the greatest.
pub minus_two_minus : Bool → ℤ → Outcome ℤ
minus_two_minus debug (pos n) =
    if ltb (n + 1) (ticks_bound bits64)
    then ret (negsuc (n + 1))
    else if debug
    then panic
    else ret (pos (2 ^ 64 - 2 - n))
minus_two_minus debug (negsuc zero) = ret (negsuc 0)
minus_two_minus debug (negsuc (suc n)) = ret (pos n)

-- `impl From<Instant> for Timeout`, which exists for 64-bit time alone
unfoldable pub from_instant : Bool → ℕ → Outcome Timeout
unfolding checked_cast minus_two_minus
from_instant debug value = do
  ticks ← checked_cast debug bits64 value
  debug_assert debug (not (eq_ℤ ticks k_forever.ticks))
  debug_assert debug (not (eq_ℤ ticks k_no_wait.ticks))
  absolute ← minus_two_minus debug ticks
  ret (record { ticks = absolute })

-- `From<Forever>` and `From<NoWait>`
abbrev pub from_forever : Timeout
from_forever = k_forever

abbrev pub from_no_wait : Timeout
from_no_wait = k_no_wait
