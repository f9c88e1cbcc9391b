-- ===== src/Error/Codes.antt =====
-- What `to_result` makes of every code.
use zephyr_lang_rust.Prelude.{zero, suc, ◌+◌, ◌-◌, ◌≡◌, refl, Bool, true, false, arith}
use zephyr_lang_rust.Prelude.Int.{ℤ, pos, negsuc, ◌<ℤ◌, ltb_ℤ}
use zephyr_lang_rust.Prelude.Outcome.{ret, Result, ok, err}
use zephyr_lang_rust.Error.{Error, c_int_bound, to_result, to_result_void, map_void}

-- The code that a result stands for: a success as it is, an error number negated.
abbrev pub code_of : Result ℤ Error → ℤ
code_of (ok c) = c
code_of (err e) = elim e.errno [ zero ↦ pos 0 | suc n ↦ negsuc n ]

abbrev pub is_err {ℓ} : {A : Type ℓ} → Result A Error → Bool
is_err (ok _) = false
is_err (err _) = true

-- For every code above the least `c_int`, whether or not overflow is checked, `to_result` returns,
-- what it returns stands for the same code, and it is an error exactly for a negative code; and
-- `to_result_void` returns the same with the value of a success dropped.
pub to_result_lem :
    (checks : Bool) (code : ℤ)
    → negsuc (c_int_bound - 1) <ℤ code
    → (r : Result ℤ Error) × (to_result checks code ≡ ret r)
      × (code_of r ≡ code)
      × (is_err r ≡ ltb_ℤ code (pos 0))
      × (to_result_void checks code ≡ ret (map_void r))
unfolding to_result_void
to_result_lem checks (pos n) h = (ok (pos n), refl, refl, ground arith, refl)
to_result_lem true (negsuc n) h =
    (err (record { errno = n + 1 }), ground arith, ground arith, ground arith, ground arith)
to_result_lem false (negsuc n) h =
    (err (record { errno = n + 1 }), refl, ground arith, ground arith, refl)
