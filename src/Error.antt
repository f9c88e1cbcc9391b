-- ===== src/Error.antt =====
-- zephyr/src/error.rs: the return codes of Zephyr calls as results.  A `c_int` is an integer from
-- -2^31 to 2^31 - 1; negating the least one overflows, which panics where overflow checks are on
-- (`checks`) and wraps to 2^31 as a `u32` where they are off.
pub mod Codes
use zephyr_lang_rust.Prelude.{ℕ, suc, ◌+◌, ◌^◌, ◌<◌, Bool, true, false, ltb, if◌then◌else◌}
use zephyr_lang_rust.Prelude.Int.{ℤ, pos, negsuc}
use zephyr_lang_rust.Prelude.Outcome.{Outcome, ret, panic, ◌>>=◌, Result, ok, err}

-- `struct Error(pub u32)`
pub record Error : Type 0 where
  pub errno : ℕ

abbrev pub c_int_bound : ℕ
c_int_bound = 2 ^ 31

-- `-code as u32`, for the code -(n + 1).
pub negate_code : Bool → ℕ → Outcome ℕ
negate_code true n = if ltb (n + 1) c_int_bound then ret (n + 1) else panic
negate_code false n = ret (n + 1)

unfoldable pub to_result : Bool → ℤ → Outcome (Result ℤ Error)
unfolding negate_code
to_result checks (pos n) = ret (ok (pos n))
to_result checks (negsuc n) = negate_code checks n >>= λ e. ret (err (record { errno = e }))

-- `Result::map(|_| ())`
abbrev pub map_void : Result ℤ Error → Result (Unit {0}) Error
map_void (ok _) = ok tt
map_void (err e) = err e

unfoldable pub to_result_void : Bool → ℤ → Outcome (Result (Unit {0}) Error)
unfolding to_result
to_result_void checks code = to_result checks code >>= λ r. ret (map_void r)
