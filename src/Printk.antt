-- ===== src/Printk.antt =====
-- zephyr/src/printk.rs: the buffer between Rust's formatting and the kernel's console.
use zephyr_lang_rust.Prelude.{
  ℕ, zero, suc, ◌+◌, ◌/◌, ◌≡◌, Bool, true, false, List, [], ◌∷◌, ◌++◌, length, set, take, ltb, ◌==◌,
  if◌then◌else◌,
}
use zephyr_lang_rust.Prelude.Outcome.{Outcome, ret, panic, ◌>>=◌}
pub mod Buffer
pub mod Packed
pub mod Whole
mod Examples

-- `BUF_SIZE`
abbrev pub buf_size : ℕ
buf_size = 32

abbrev pub zeros : ℕ → List ℕ
zeros zero = []
zeros (suc n) = 0 ∷ zeros n

-- The buffer, and what the kernel was given so far: each call of `k_str_out` with its bytes.
pub record Context : Type 0 where
  pub count : ℕ
  pub buf : List ℕ
  pub out : List (List ℕ)

abbrev pub new : List (List ℕ) → Context
new out = record { count = 0; buf = zeros buf_size; out = out }

-- The top bits of a byte: `byte & 0b1110_0000 == 0b1100_0000` is `byte / 32 == 6`.
unfoldable pub utf8_byte_length : ℕ → ℕ
utf8_byte_length byte =
    if byte / 128 == 0
    then 1
    else if byte / 32 == 6
    then 2
    else if byte / 16 == 14
    then 3
    else if byte / 8 == 30
    then 4
    else 1

unfoldable pub flush : Context → Context
flush c =
    if ltb 0 c.count
    then record { count = 0; buf = c.buf; out = c.out ++ take c.count c.buf ∷ [] }
    else c

-- `self.buf[self.count] = b; self.count += 1`, which panics out of bounds
unfoldable pub store : Context → ℕ → Outcome Context
store c b =
    if ltb c.count (length c.buf)
    then ret (record c { count = c.count + 1; buf = set c.buf c.count b })
    else panic

unfoldable pub add_byte : Context → ℕ → Outcome Context
unfolding flush store
add_byte c b = store (if ltb (length c.buf) (c.count + utf8_byte_length b) then flush c else c) b

unfoldable pub write_str : Context → List ℕ → Outcome Context
unfolding add_byte
write_str c [] = ret c
write_str c (b ∷ s) = add_byte c b >>= λ c'. write_str c' s

-- `core::fmt::write` hands over the pieces of the text one by one.
unfoldable pub write : Context → List (List ℕ) → Outcome Context
unfolding write_str
write c [] = ret c
write c (s ∷ args) = write_str c s >>= λ c'. write c' args

-- The calls of `k_str_out` that printing these pieces makes, after those of `out`.
unfoldable pub printk : List (List ℕ) → List (List ℕ) → Outcome (List (List ℕ))
unfolding write flush
printk out args = write (new out) args >>= λ c. ret (flush c).out

unfoldable pub printkln : List (List ℕ) → List (List ℕ) → Outcome (List (List ℕ))
unfolding write flush add_byte
printkln out args = write (new out) args >>= λ c. add_byte c 10 >>= λ c'. ret (flush c').out
