-- ===== src/I2c/Messages.antt =====
-- The messages of a transfer.
use zephyr_lang_rust.Prelude.{◌%◌, ◌^◌, true, false}
use zephyr_lang_rust.I2c.{Operation, I2cMsg, write}

-- What the message of an operation is to be, after another operation.
abbrev pub message_after : Operation → Operation → I2cMsg
message_after (write a m) (write buf n) = record {
  buf = buf;
  len = n % 2 ^ 32;
  read = false;
  restart = false;
}
message_after (Operation.read a m) (write buf n) = record {
  buf = buf;
  len = n % 2 ^ 32;
  read = false;
  restart = true;
}
message_after (write a m) (Operation.read buf n) = record {
  buf = buf;
  len = n % 2 ^ 32;
  read = true;
  restart = true;
}
message_after (Operation.read a m) (Operation.read buf n) = record {
  buf = buf;
  len = n % 2 ^ 32;
  read = true;
  restart = false;
}
