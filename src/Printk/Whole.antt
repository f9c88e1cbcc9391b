-- ===== src/Printk/Whole.antt =====
-- The console is given whole UTF-8 sequences.
use zephyr_lang_rust.Prelude.{
  ℕ, ◌+◌, ◌≤◌, ◌<◌, ◌≡◌, inl, inr, refl, ap, ◌∙◌, List, [], ◌∷◌, ◌++◌, map, append-nil,
  append_assoc, length, length-append, concat, concat-append, ltb, arith, Bool-cases,
}
use zephyr_lang_rust.Prelude.Outcome.{ret}
use zephyr_lang_rust.Printk.{buf_size, utf8_byte_length, printk, printkln}
use zephyr_lang_rust.Printk.Buffer.{byte_length_bounds}
use zephyr_lang_rust.Printk.Packed.{
  Sequence, sequence, follow_nil, follow_cons, All, all_nil, all_cons, pack, All-append,
  newline-Sequence, printk_lem, printkln_lem,
}

no_sequences : (p : List (List ℕ)) → All Sequence p → length (concat p) ≡ 0 → p ≡ []
no_sequences [] w e = refl
no_sequences ((b ∷ s) ∷ p) (all_cons (sequence n f) w) e = absurd (omega arith)
no_sequences ([] ∷ p) (all_cons q w) e = elim q [ ]

-- The groups are the sequences, in order.
pub concat-pack :
    (ss p : List (List ℕ)) → All Sequence p → All Sequence ss → concat (pack p ss) ≡ p ++ ss
unfolding pack
concat-pack [] p v w = elim (Bool-cases (ltb 0 (length (concat p)))) [
  | inl some_bytes ↦ rw some_bytes refl
  | inr nothing ↦ rw (nothing, no_sequences p v (ground arith)) refl
]
concat-pack (s ∷ ss) p v (all_cons q w) =
    elim (Bool-cases (ltb buf_size (length (concat p) + length s))) [
      | inl full ↦ rw (full, concat-pack ss (s ∷ []) (all_cons q all_nil) w) refl
      | inr room ↦
          rw (room, concat-pack ss (p ++ s ∷ []) (All-append p s v q) w)
            (append_assoc p (s ∷ []) ss)
    ]

Sequence-length : (s : List ℕ) → Sequence s → length s ≤ 4
Sequence-length (b ∷ s) (sequence n f) = omega (arith, n, byte_length_bounds b)
Sequence-length [] q = elim q [ ]

-- A group that the buffer takes at once.
abbrev pub Fits : List (List ℕ) → Type 0
Fits g = (0 < length (concat g)) × (length (concat g) ≤ buf_size)

pub pack-Fits :
    (ss p : List (List ℕ)) → All Sequence ss → length (concat p) ≤ buf_size → All Fits (pack p ss)
unfolding pack
pack-Fits [] p w h = elim (Bool-cases (ltb 0 (length (concat p)))) [
  | inl some_bytes ↦ rw some_bytes (all_cons (ground arith, h) all_nil)
  | inr nothing ↦ rw nothing all_nil
]
pack-Fits (s ∷ ss) p (all_cons q w) h =
    elim (Bool-cases (ltb buf_size (length (concat p) + length s))) [
      | inl full ↦
          let small : length s ≤ 4 = Sequence-length s q in
          let fits : Fits p = (ground arith, h) in
          let one : length (concat (s ∷ [])) ≤ buf_size = rw (append-nil s) (omega arith) in
          rw full (all_cons fits (pack-Fits ss (s ∷ []) w one))
      | inr room ↦
          let joined : concat (p ++ s ∷ []) ≡ concat p ++ s =
            concat-append p (s ∷ []) ∙ ap (λ z. concat p ++ z) (append-nil s) in
          rw room
            (pack-Fits ss (p ++ s ∷ []) w (rw joined (ground (arith, length-append (concat p) s))))
    ]

-- A byte that continues a character, and the bytes of a character as UTF-8 has them: the ranges of the
-- first byte say how many follow.
abbrev pub IsContinuation : ℕ → Type 0
IsContinuation b = (128 ≤ b) × (b < 192)

pub data Utf8 : List ℕ → Type 0 where
  one_byte : {b : ℕ} → b < 128 → Utf8 (b ∷ [])
  two_bytes : {b c : ℕ} → 194 ≤ b → b < 224 → IsContinuation c → Utf8 (b ∷ c ∷ [])
  three_bytes :
      {b c d : ℕ} → 224 ≤ b → b < 240 → IsContinuation c → IsContinuation d → Utf8 (b ∷ c ∷ d ∷ [])
  four_bytes :
      {b c d e : ℕ}
      → 240 ≤ b
      → b < 245
      → IsContinuation c
      → IsContinuation d
      → IsContinuation e
      → Utf8 (b ∷ c ∷ d ∷ e ∷ [])

continuation_length : (b : ℕ) → IsContinuation b → utf8_byte_length b ≡ 1
unfolding utf8_byte_length
continuation_length b (l, u) = ground (arith, l, u)

ascii_length : (b : ℕ) → b < 128 → utf8_byte_length b ≡ 1
unfolding utf8_byte_length
ascii_length b u = ground (arith, u)

two_length : (b : ℕ) → 194 ≤ b → b < 224 → utf8_byte_length b ≡ 2
unfolding utf8_byte_length
two_length b l u = ground (arith, l, u)

three_length : (b : ℕ) → 224 ≤ b → b < 240 → utf8_byte_length b ≡ 3
unfolding utf8_byte_length
three_length b l u = ground (arith, l, u)

four_length : (b : ℕ) → 240 ≤ b → b < 245 → utf8_byte_length b ≡ 4
unfolding utf8_byte_length
four_length b l u = ground (arith, l, u)

-- The code reads the length of a character off its first byte.
Utf8-Sequence : (s : List ℕ) → Utf8 s → Sequence s
Utf8-Sequence _ (one_byte {b = b} u) = sequence (ascii_length b u) follow_nil
Utf8-Sequence _ (two_bytes {b = b} {c = c} l u p) =
    sequence (two_length b l u) (follow_cons (continuation_length c p) follow_nil)
Utf8-Sequence _ (three_bytes {b = b} {c = c} {d = d} l u p q) =
    sequence (three_length b l u)
      (follow_cons (continuation_length c p) (follow_cons (continuation_length d q) follow_nil))
Utf8-Sequence _ (four_bytes {b = b} {c = c} {d = d} {e = e} l u p q r) =
    sequence (four_length b l u) (
      follow_cons (continuation_length c p)
        (follow_cons (continuation_length d q) (follow_cons (continuation_length e r) follow_nil)))

sequences : (ss : List (List ℕ)) → All Utf8 ss → All Sequence ss
sequences [] all_nil = all_nil
sequences (s ∷ ss) (all_cons u w) = all_cons (Utf8-Sequence s u) (sequences ss w)

-- Printing a text, in pieces of whole UTF-8 characters, does not panic.  The kernel is given groups of
-- whole characters, none empty or above the size of the buffer, that together are the text in order.
pub printk-whole :
    (out : List (List ℕ)) (pieces : List (List (List ℕ)))
    → All Utf8 (concat pieces)
    → (groups : List (List (List ℕ))) × (printk out (map concat pieces)
        ≡ ret (out ++ map concat groups))
      × (concat groups ≡ concat pieces)
      × All Fits groups
printk-whole out pieces u =
    let w = sequences (concat pieces) u in
    (
      pack [] (concat pieces),
      printk_lem out pieces w,
      concat-pack (concat pieces) [] all_nil w,
      pack-Fits (concat pieces) [] w (omega arith),
    )

-- The same for `printkln`, whose text has a newline at the end.
pub printkln-whole :
    (out : List (List ℕ)) (pieces : List (List (List ℕ)))
    → All Utf8 (concat pieces)
    → (groups : List (List (List ℕ))) × (printkln out (map concat pieces)
        ≡ ret (out ++ map concat groups))
      × (concat groups ≡ concat pieces ++ (10 ∷ []) ∷ [])
      × All Fits groups
printkln-whole out pieces u =
    let w = sequences (concat pieces) u in
    let w' = All-append (concat pieces) (10 ∷ []) w newline-Sequence in
    (
      pack [] (concat pieces ++ (10 ∷ []) ∷ []),
      printkln_lem out pieces w,
      concat-pack (concat pieces ++ (10 ∷ []) ∷ []) [] all_nil w',
      pack-Fits (concat pieces ++ (10 ∷ []) ∷ []) [] w' (omega arith),
    )
