-- ===== src/I2c/Target/Examples.antt =====
-- A target that two threads register, on a bus whose driver always succeeds, and a callback that fails.
use zephyr_lang_rust.Prelude.{ℕ, suc, ◌≡◌, refl, sym, ap, ◌∙◌, true, List, [], ◌∷◌, arith}
use zephyr_lang_rust.Prelude.Int.{ℤ, pos}
use zephyr_lang_rust.Prelude.Outcome.{ret, err}
use zephyr_lang_rust.Error.{to_result_void}
use zephyr_lang_rust.I2c.Target.{
  I2cTargetCallbacks, provided, on_write_received, trampoline, Driver, Act, registers, goes_on, new,
  run,
}
use zephyr_lang_rust.I2c.Target.Codes.{trampoline-to_result}
use zephyr_lang_rust.I2c.Target.Registered.{HasTrampolines, run-one_writer, run-one_bus}

abbrev tail : List ℕ → List ℕ
tail [] = []
tail (_ ∷ l) = l

-- A driver that keeps a list of devices.
abbrev lists : Driver
lists = record {
  B = List ℕ;
  on = λ b. b;
  idle_bus = [];
  i2c_target_register = λ b d. (pos 0, d ∷ b);
  i2c_target_unregister = λ b d. (pos 0, tail b);
  idle_on = refl;
  register_ok = λ b b' d n e. cc;
  register_err = λ b b' d n e. absurd (cc);
  unregister_ok = λ b b' d n l h e. sym (ap (λ p. p.1) e) ∙ ap tail h;
  unregister_err = λ b b' d n e. absurd (cc);
}

-- Thread 1 has claimed the target, and thread 2 finds it claimed; then thread 1 has a handle.
abbrev claims : List (ℕ × Act)
claims = (1, registers 7) ∷ (2, registers 8) ∷ (1, goes_on) ∷ []

abbrev registers_first : List (ℕ × Act)
registers_first =
    (1, registers 7) ∷ (2, registers 8) ∷ (1, goes_on) ∷ (1, goes_on) ∷ (1, goes_on) ∷ []

run-one_writer_example :
    ◌≡◌ {A = ℕ} 1 1 × (lists.on (run lists true 900 (new lists true 900 66) claims).bus ≡ [])
unfolding run new
run-one_writer_example = run-one_writer lists true 900 66 claims 1 1 refl refl

run-one_bus_example :
    ◌≡◌ {A = List ℕ} [] []
    × HasTrampolines (run lists true 900 (new lists true 900 66) registers_first).cbs
    × ((run lists true 900 (new lists true 900 66) registers_first).config.callbacks ≡ 900)
    × ((run lists true 900 (new lists true 900 66) registers_first).registered ≡ true)
unfolding run new to_result_void
run-one_bus_example = run-one_bus lists true 900 66 registers_first 7 [] refl

-- A target whose writes fail with error 5, and which counts them.
abbrev refuses : I2cTargetCallbacks ℕ
unfolding provided
refuses = record (provided {T = ℕ}) {
  write_received = λ t val. (err (record { errno = 5 }), suc t);
}

trampoline-to_result_example :
    (c : ℤ) × (trampoline refuses true on_write_received 0 200 ≡ (ret (c, 200), 1))
    × (to_result_void true c ≡ ret (err (record { errno = 5 })))
unfolding refuses
trampoline-to_result_example =
    trampoline-to_result refuses true on_write_received 0 200 (omega arith, omega arith)
