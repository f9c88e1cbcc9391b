-- ===== src/I2c/Examples.antt =====
-- A write, a read after it, and another read.
use zephyr_lang_rust.Prelude.{ℕ, List, [], ◌∷◌}
use zephyr_lang_rust.Prelude.Int.{ℤ, pos}
use zephyr_lang_rust.I2c.{Operation, write, I2cMsg}

abbrev write_and_read : List Operation
write_and_read = write 100 2 ∷ Operation.read 200 4 ∷ Operation.read 300 1 ∷ []

abbrev succeeds : List I2cMsg → ℕ → ℕ → ℤ
succeeds msgs n addr = pos 0
