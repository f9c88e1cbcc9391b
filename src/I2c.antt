-- ===== src/I2c.antt =====
-- zephyr/src/device/i2c/controller.rs: transfers of several operations.  A buffer is its address and
-- its length; of the flags of a message only the direction and the RESTART are used.  The kernel's
-- `i2c_transfer` is an argument, as `checks` is in `Error`.
pub mod Messages
pub mod Target
mod Examples
use zephyr_lang_rust.Prelude.{
  ℕ, suc, ◌%◌, ◌^◌, Bool, true, false, Option, none, some, List, [], ◌∷◌, length, ltb,
  if◌then◌else◌,
}
use zephyr_lang_rust.Prelude.Int.{ℤ}
use zephyr_lang_rust.Prelude.Outcome.{Outcome, ret, Result, err}
use zephyr_lang_rust.Error.{Error, to_result_void}

-- `enum Operation`
pub data Operation : Type 0 where
  write read : ℕ → ℕ → Operation

-- `i2c_msg`
pub record I2cMsg : Type 0 where
  pub buf : ℕ
  pub len : ℕ
  pub read : Bool
  pub restart : Bool

-- The buffer of an operation, its length, and its direction.
abbrev pub buffer : Operation → ℕ
buffer (write buf n) = buf
buffer (Operation.read buf n) = buf

abbrev pub size : Operation → ℕ
size (write buf n) = n
size (Operation.read buf n) = n

abbrev pub is_read : Operation → Bool
is_read (write buf n) = false
is_read (Operation.read buf n) = true

-- `!=` of the READ flags
abbrev pub differ : Bool → Bool → Bool
differ true true = false
differ true false = true
differ false true = true
differ false false = false

-- `i > 0 && …`, given the message before
unfoldable pub restarts : Option I2cMsg → Bool → Bool
restarts none flag = false
restarts (some before) flag = differ before.read flag

unfoldable pub message : Option I2cMsg → Operation → I2cMsg
unfolding restarts
message before op = record {
  buf = buffer op;
  len = size op % 2 ^ 32;
  read = is_read op;
  restart = restarts before (is_read op);
}

-- The loop of `transfer`, after a message.
unfoldable pub messages : Option I2cMsg → List Operation → List I2cMsg
messages before [] = []
messages before (op ∷ ops) = message before op ∷ messages (some (message before op)) ops

-- `MAX_TRANSFER_OPS` and `E2BIG`
abbrev pub max_transfer_ops : ℕ
max_transfer_ops = 8

abbrev pub e2big : ℕ
e2big = 7

-- `I2c::transfer`; `i2c_transfer` is given the messages, their number as a `u8`, and the address
unfoldable pub transfer :
    Bool → (List I2cMsg → ℕ → ℕ → ℤ) → ℕ → List Operation → Outcome (Result (Unit {0}) Error)
transfer checks i2c_transfer addr ops =
    if ltb max_transfer_ops (length ops)
    then ret (err (record { errno = e2big }))
    else to_result_void checks (i2c_transfer (messages none ops) (length ops % 2 ^ 8) addr)
