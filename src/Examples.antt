-- ===== src/Examples.antt =====
-- Timeouts and return codes.
use zephyr_lang_rust.Prelude.{◌+◌, ◌≡◌, true, false, ◌&&◌, ltb, if◌then◌else◌, arith}
use zephyr_lang_rust.Prelude.Int.{ℤ, pos, negsuc, ltb_ℤ}
use zephyr_lang_rust.Prelude.Outcome.{ret, panic, Result, ◌>>=◌}
use zephyr_lang_rust.Time.{bits64, ticks_bound, from_instant}
use zephyr_lang_rust.Time.Kinds.{relative, absolute, kind, kind-from_instant}
use zephyr_lang_rust.Error.{Error, to_result, to_result_void, map_void}
use zephyr_lang_rust.Error.Codes.{code_of, is_err, to_result_lem}

kind-from_instant_example :
    ((from_instant true 100 >>= λ t. ret (kind t))
      ≡ (if ltb 0 100 && ltb (100 + 1) (ticks_bound bits64) then ret (absolute 100) else panic))
    × ((from_instant false 100 >>= λ t. ret (kind t))
        ≡ ret (
            if ltb (100 + 1) (ticks_bound bits64)
            then absolute 100
            else if ltb 100 (ticks_bound bits64)
            then relative 100
            else absolute 0))
kind-from_instant_example = kind-from_instant 100

to_result_lem_example :
    (r : Result ℤ Error) × (to_result true (negsuc 21) ≡ ret r)
    × (code_of r ≡ negsuc 21)
    × (is_err r ≡ ltb_ℤ (negsuc 21) (pos 0))
    × (to_result_void true (negsuc 21) ≡ ret (map_void r))
to_result_lem_example = to_result_lem true (negsuc 21) (omega arith)
