-- ===== src/Printk/Buffer.antt =====
-- What a byte does to the buffer.
use zephyr_lang_rust.Prelude.{
  ℕ, suc, ◌+◌, ◌≤◌, ◌<◌, ◌≡◌, refl, ap, sym, ◌∙◌, true, false, List, [], ◌∷◌, ◌++◌, length,
  length-append, length-set, take, take-set, set, ltb, arith,
}
use zephyr_lang_rust.Prelude.Outcome.{Outcome, ret, ◌>>=◌, bind_cong, bind_assoc}
use zephyr_lang_rust.Printk.{buf_size, Context, utf8_byte_length, flush, store, add_byte, write_str}

-- The buffer holds the bytes `p`, and the kernel was given `out`.
pub record Holds (c : Context) (out : List (List ℕ)) (p : List ℕ) : Type 0 where
  pub sent : c.out ≡ out
  pub size : length c.buf ≡ buf_size
  pub used : c.count ≡ length p
  pub bytes : take c.count c.buf ≡ p
  pub fits : length p ≤ buf_size

pub byte_length_bounds : (b : ℕ) → (1 ≤ utf8_byte_length b) × (utf8_byte_length b ≤ 4)
unfolding utf8_byte_length
byte_length_bounds b = ground arith

abbrev pub Stores : Outcome Context → List (List ℕ) → List ℕ → Type 0
Stores o out p = (c : Context) × (o ≡ ret c) × Holds c out p

pub store_lem :
    (c : Context) (out : List (List ℕ)) (p : List ℕ) (b : ℕ)
    → Holds c out p
    → length p < buf_size
    → Stores (store c b) out (p ++ b ∷ [])
unfolding store
store_lem c out p b h room =
    let inside : c.count < length c.buf = omega (arith, h.used, h.size) in
    let test : ltb c.count (length c.buf) ≡ true = ground arith in
    let next : c.count + 1 ≡ suc c.count = omega arith in
    let written : take (c.count + 1) (set c.buf c.count b) ≡ p ++ b ∷ [] =
      ap (λ n. take n (set c.buf c.count b)) next
      ∙ (take-set c.buf c.count b inside ∙ ap (λ z. z ++ b ∷ []) h.bytes) in
    (
      record c { count = c.count + 1; buf = set c.buf c.count b },
      rw test refl,
      record {
        sent = h.sent;
        size = length-set c.buf c.count b ∙ h.size;
        used = omega (arith, h.used, length-append p (b ∷ []));
        bytes = written;
        fits = omega (arith, length-append p (b ∷ []));
      },
    )

pub flush_lem :
    (c : Context) (out : List (List ℕ)) (p : List ℕ)
    → Holds c out p
    → 0 < length p
    → Holds (flush c) (out ++ p ∷ []) []
unfolding flush
flush_lem c out p h some_bytes =
    let test : ltb 0 c.count ≡ true = ground (arith, h.used) in
    rw test (record {
      sent = rw (h.sent, h.bytes) refl;
      size = h.size;
      used = refl;
      bytes = refl;
      fits = omega arith;
    })

-- A byte whose sequence has room.
pub add_byte-room :
    (c : Context) (out : List (List ℕ)) (p : List ℕ) (b : ℕ)
    → Holds c out p
    → length p + utf8_byte_length b ≤ buf_size
    → Stores (add_byte c b) out (p ++ b ∷ [])
unfolding add_byte
add_byte-room c out p b h room =
    let test : ltb (length c.buf) (c.count + utf8_byte_length b) ≡ false =
      ground (arith, h.used, h.size) in
    rw test (store_lem c out p b h (omega (arith, byte_length_bounds b)))

-- A byte whose sequence has no room.
pub add_byte-full :
    (c : Context) (out : List (List ℕ)) (p : List ℕ) (b : ℕ)
    → Holds c out p
    → buf_size < length p + utf8_byte_length b
    → Stores (add_byte c b) (out ++ p ∷ []) (b ∷ [])
unfolding add_byte
add_byte-full c out p b h full =
    let test : ltb (length c.buf) (c.count + utf8_byte_length b) ≡ true =
      ground (arith, h.used, h.size) in
    rw test (
      store_lem (flush c) (out ++ p ∷ []) [] b
        (flush_lem c out p h (omega (arith, byte_length_bounds b))) (omega arith))

pub write_str-append :
    (c : Context) (s t : List ℕ) → write_str c (s ++ t) ≡ (write_str c s >>= λ c'. write_str c' t)
unfolding write_str
write_str-append c [] t = refl
write_str-append c (b ∷ s) t =
    bind_cong (add_byte c b) _ _ (λ c'. write_str-append c' s t)
    ∙ sym (bind_assoc (add_byte c b) _ _)
