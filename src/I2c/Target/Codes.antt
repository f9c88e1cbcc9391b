-- ===== src/I2c/Target/Codes.antt =====
-- The code that a trampoline returns, read as the error of the callback.
use zephyr_lang_rust.Prelude.{ℕ, zero, suc, ◌<◌, ◌≡◌, refl, Bool, true, false, arith}
use zephyr_lang_rust.Prelude.Int.{ℤ, pos, negsuc}
use zephyr_lang_rust.Prelude.Outcome.{Outcome, ret, ◌>>=◌, Result, ok, err}
use zephyr_lang_rust.Error.{Error, c_int_bound, to_result_void}
use zephyr_lang_rust.I2c.Target.{
  as_c_int, negate, I2cTargetCallbacks, Trampoline, on_write_requested, on_read_requested,
  on_write_received, on_read_processed, on_stop, code_of_void, code_of_byte, trampoline,
}

-- A `u32` that is a positive `c_int`, as the errors of the kernel are.
abbrev pub IsErrno : ℕ → Type 0
IsErrno n = (0 < n) × (n < c_int_bound)

abbrev pub InRange : {A : Type 0} → Result A Error → Type 0
InRange (ok _) = Unit
InRange (err e) = IsErrno e.errno

abbrev pub void : {A : Type 0} → Result A Error → Result (Unit {0}) Error
void (ok _) = ok tt
void (err e) = err e

-- The byte of a success, or the one that was there.
abbrev pub byte_or : ℕ → Result ℕ Error → ℕ
byte_or val (ok byte) = byte
byte_or val (err _) = val

-- The result of a callback that returns no byte, with one.
abbrev pub with_byte : ℕ → Result (Unit {0}) Error → Result ℕ Error
with_byte val (ok _) = ok val
with_byte val (err e) = err e

-- The callback of a trampoline.
abbrev pub called : {T : Type 0} → I2cTargetCallbacks T → Trampoline → T → ℕ → Result ℕ Error × T
called cb on_write_requested t val =
    (with_byte val (cb.write_requested t).0, (cb.write_requested t).1)
called cb on_write_received t val =
    (with_byte val (cb.write_received t val).0, (cb.write_received t val).1)
called cb on_read_requested t val = cb.read_requested t
called cb on_read_processed t val = cb.read_processed t
called cb on_stop t val = (with_byte val (cb.stop t).0, (cb.stop t).1)

-- The code of an error, and the error of the code.
errno-code :
    (checks : Bool) (n : ℕ)
    → IsErrno n
    → (c : ℤ) × (negate checks (as_c_int n) ≡ ret c)
      × (to_result_void checks c ≡ ret (err (record { errno = n })))
unfolding negate as_c_int to_result_void
errno-code checks zero h = absurd (omega (arith, h.0))
errno-code true (suc n) h = (negsuc n, ground (arith, h.1), ground (arith, h.1))
errno-code false (suc n) h = (negsuc n, ground (arith, h.1), ground (arith, h.1))

abbrev answer : Outcome ℤ → ℕ → Outcome (ℤ × ℕ)
answer o val = o >>= λ c. ret (c, val)

code_of_void-code :
    (checks : Bool) (r : Result (Unit {0}) Error) (val : ℕ)
    → InRange (with_byte val r)
    → (c : ℤ) × (answer (code_of_void checks r) val ≡ ret (c, byte_or val (with_byte val r)))
      × (to_result_void checks c ≡ ret (void (with_byte val r)))
unfolding code_of_void to_result_void
code_of_void-code checks (ok _) val h = (pos 0, refl, refl)
code_of_void-code checks (err e) val h =
    let (c, went, back) = errno-code checks e.errno h in (c, rw went refl, back)

code_of_byte-code :
    (checks : Bool) (r : Result ℕ Error) (val : ℕ)
    → InRange r
    → (c : ℤ) × (code_of_byte checks r val ≡ ret (c, byte_or val r))
      × (to_result_void checks c ≡ ret (void r))
unfolding code_of_byte to_result_void
code_of_byte-code checks (ok byte) val h = (pos 0, refl, refl)
code_of_byte-code checks (err e) val h =
    let (c, went, back) = errno-code checks e.errno h in (c, rw went refl, back)

-- For every trampoline and every callback whose error, if it returns one, is a positive `c_int`: the
-- trampoline returns, with the state that the callback left; `to_result_void` makes of its code the
-- callback's success or its very error; and `*val` is the byte of a read that succeeded, else as it was.
pub trampoline-to_result :
    {T : Type 0} (cb : I2cTargetCallbacks T) (checks : Bool) (f : Trampoline) (t : T) (val : ℕ)
    → InRange (called cb f t val).0
    → (c : ℤ) × (trampoline cb checks f t val
        ≡ (ret (c, byte_or val (called cb f t val).0), (called cb f t val).1))
      × (to_result_void checks c ≡ ret (void (called cb f t val).0))
unfolding trampoline
trampoline-to_result cb checks on_write_requested t val h =
    let (c, went, back) = code_of_void-code checks (cb.write_requested t).0 val h in
    (c, rw went refl, back)
trampoline-to_result cb checks on_write_received t val h =
    let (c, went, back) = code_of_void-code checks (cb.write_received t val).0 val h in
    (c, rw went refl, back)
trampoline-to_result cb checks on_read_requested t val h =
    let (c, went, back) = code_of_byte-code checks (cb.read_requested t).0 val h in
    (c, rw went refl, back)
trampoline-to_result cb checks on_read_processed t val h =
    let (c, went, back) = code_of_byte-code checks (cb.read_processed t).0 val h in
    (c, rw went refl, back)
trampoline-to_result cb checks on_stop t val h =
    let (c, went, back) = code_of_void-code checks (cb.stop t).0 val h in (c, rw went refl, back)
