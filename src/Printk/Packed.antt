-- ===== src/Printk/Packed.antt =====
-- What is printed is packed into the buffer, a sequence at a time.
use zephyr_lang_rust.Prelude.{
  ℕ, suc, ◌+◌, ◌≤◌, ◌<◌, ◌≡◌, inl, inr, refl, ap, sym, ◌∙◌, true, false, List, [], ◌∷◌, ◌++◌, map,
  append-nil, append_assoc, length, length-append, concat, concat-append, ltb, if◌then◌else◌, arith,
  Bool-cases,
}
use zephyr_lang_rust.Prelude.Outcome.{Outcome, ret, ◌>>=◌, bind_cong, bind_assoc}
use zephyr_lang_rust.Printk.{
  buf_size, Context, utf8_byte_length, flush, add_byte, write_str, write, new, printk, printkln,
}
use zephyr_lang_rust.Printk.Buffer.{
  Holds, Stores, add_byte-room, add_byte-full, byte_length_bounds, write_str-append,
}

-- Bytes that no sequence begins with.
pub data Follow : List ℕ → Type 0 where
  follow_nil : Follow []
  follow_cons : {b : ℕ} {s : List ℕ} → utf8_byte_length b ≡ 1 → Follow s → Follow (b ∷ s)

-- The bytes of one character: the first says how many there are.
pub data Sequence : List ℕ → Type 0 where
  sequence :
      {b : ℕ} {s : List ℕ} → utf8_byte_length b ≡ suc (length s) → Follow s → Sequence (b ∷ s)

pub data All {ℓ κ} {A : Type ℓ} (P : A → Type κ) : List A → Type (ℓ ⊔ κ) where
  all_nil : All P []
  all_cons : {x : A} {l : List A} → P x → All P l → All P (x ∷ l)

-- How sequences are to be grouped: each joins the group before it, if it has room.
unfoldable pub pack : List (List ℕ) → List (List ℕ) → List (List (List ℕ))
pack p [] = if ltb 0 (length (concat p)) then p ∷ [] else []
pack p (s ∷ ss) =
    let full = ltb buf_size (length (concat p) + length s) in
    (if full then p ∷ [] else []) ++ pack (if full then s ∷ [] else p ++ s ∷ []) ss

write-Follow :
    (c : Context) (out : List (List ℕ)) (p s : List ℕ)
    → Follow s
    → Holds c out p
    → length p + length s ≤ buf_size
    → Stores (write_str c s) out (p ++ s)
unfolding write_str
write-Follow c out p [] follow_nil h room = (c, refl, rw (append-nil p) h)
write-Follow c out p (b ∷ s) (follow_cons one rest) h room =
    let (c', e, h') = add_byte-room c out p b h (omega (arith, one)) in
    let (c'', e', h'') =
      write-Follow c' out (p ++ b ∷ []) s rest h' (omega (arith, length-append p (b ∷ []))) in
    (c'', rw (e, e') refl, rw (← append_assoc p (b ∷ []) s) h'')

-- A sequence that has room joins the buffer; else the buffer is flushed before it.
write_room :
    (c : Context) (out : List (List ℕ)) (p s : List ℕ)
    → Sequence s
    → Holds c out p
    → length p + length s ≤ buf_size
    → Stores (write_str c s) out (p ++ s)
unfolding write_str
write_room c out p [] w h room = elim w [ ]
write_room c out p (b ∷ s) (sequence n rest) h room =
    let (c', e, h') = add_byte-room c out p b h (omega (arith, n)) in
    let (c'', e', h'') =
      write-Follow c' out (p ++ b ∷ []) s rest h' (omega (arith, length-append p (b ∷ []))) in
    (c'', rw (e, e') refl, rw (← append_assoc p (b ∷ []) s) h'')

write_full :
    (c : Context) (out : List (List ℕ)) (p s : List ℕ)
    → Sequence s
    → Holds c out p
    → buf_size < length p + length s
    → Stores (write_str c s) (out ++ p ∷ []) s
unfolding write_str
write_full c out p [] w h full = elim w [ ]
write_full c out p (b ∷ s) (sequence n rest) h full =
    let (c', e, h') = add_byte-full c out p b h (omega (arith, n)) in
    let (c'', e', h'') =
      write-Follow c' (out ++ p ∷ []) (b ∷ []) s rest h' (omega (arith, n, byte_length_bounds b)) in
    (c'', rw (e, e') refl, h'')

abbrev Packs : Context → List (List ℕ) → List (List ℕ) → List (List ℕ) → Type 0
Packs c out p ss =
    (c' : Context) × (write_str c (concat ss) ≡ ret c')
    × ((flush c').out ≡ out ++ map concat (pack p ss))

pub write_pack :
    (ss : List (List ℕ)) (c : Context) (out p : List (List ℕ))
    → All Sequence ss
    → Holds c out (concat p)
    → Packs c out p ss
unfolding write_str pack flush
write_pack [] c out p w h = (
  c,
  refl,
  elim (Bool-cases (ltb 0 (length (concat p)))) [
    | inl some_bytes ↦
        let test : ltb 0 c.count ≡ true = ground (arith, h.used) in
        rw (test, some_bytes, h.sent, h.bytes) refl
    | inr nothing ↦
        let test : ltb 0 c.count ≡ false = ground (arith, h.used) in
        rw (test, nothing, h.sent, append-nil out) refl
  ],
)
write_pack (s ∷ ss) c out p (all_cons q w) h =
    elim (Bool-cases (ltb buf_size (length (concat p) + length s))) [
      | inl full ↦
          let (c', e, h') = write_full c out (concat p) s q h (ground arith) in
          let (c'', e', r) =
            write_pack ss c' (out ++ concat p ∷ []) (s ∷ []) w (rw (append-nil s) h') in
          (
            c'',
            write_str-append c s (concat ss) ∙ rw e e',
            r ∙ rw full (append_assoc out (concat p ∷ []) (map concat (pack (s ∷ []) ss))),
          )
      | inr room ↦
          let (c', e, h') = write_room c out (concat p) s q h (ground arith) in
          let joined : concat (p ++ s ∷ []) ≡ concat p ++ s =
            concat-append p (s ∷ []) ∙ ap (λ z. concat p ++ z) (append-nil s) in
          let (c'', e', r) = write_pack ss c' out (p ++ s ∷ []) w (rw joined h') in
          (c'', write_str-append c s (concat ss) ∙ rw e e', r ∙ rw room refl)
    ]

-- The pieces that are written one by one are written as one.
write_lem : (args : List (List ℕ)) (c : Context) → write c args ≡ write_str c (concat args)
unfolding write write_str
write_lem [] c = refl
write_lem (s ∷ args) c =
    bind_cong (write_str c s) _ _ (λ c'. write_lem args c')
    ∙ sym (write_str-append c s (concat args))

concat-concat :
    (pieces : List (List (List ℕ))) → concat (map concat pieces) ≡ concat (concat pieces)
concat-concat [] = refl
concat-concat (x ∷ l) = ap (λ z. concat x ++ z) (concat-concat l) ∙ sym (concat-append x (concat l))

new-Holds : (out : List (List ℕ)) → Holds (new out) out []
new-Holds out = record { sent = refl; size = refl; used = refl; bytes = refl; fits = omega arith }

-- Printing a text, in pieces of whole UTF-8 sequences, does not panic, and gives the kernel the
-- groups of sequences that `pack` makes.
pub printk_lem :
    (out : List (List ℕ)) (pieces : List (List (List ℕ)))
    → All Sequence (concat pieces)
    → printk out (map concat pieces) ≡ ret (out ++ map concat (pack [] (concat pieces)))
unfolding printk
printk_lem out pieces w =
    let (c, e, r) = write_pack (concat pieces) (new out) out [] w (new-Holds out) in
    let written : write (new out) (map concat pieces) ≡ ret c =
      write_lem (map concat pieces) (new out)
      ∙ (ap (write_str (new out)) (concat-concat pieces) ∙ e) in
    rw (written, r) refl

pub All-append :
    (k : List (List ℕ)) (s : List ℕ) → All Sequence k → Sequence s → All Sequence (k ++ s ∷ [])
All-append [] s all_nil q = all_cons q all_nil
All-append (x ∷ k) s (all_cons p w) q = all_cons p (All-append k s w q)

-- The calls of the kernel that a buffer still makes.
abbrev finish : Context → Outcome (List (List ℕ))
finish c = ret (flush c).out

printkln-newline :
    (out args : List (List ℕ))
    → printkln out args ≡ (write_str (new out) (concat args ++ 10 ∷ []) >>= finish)
unfolding printkln write_str
printkln-newline out args =
    let each : (c : Context) → (add_byte c 10 >>= finish) ≡ (write_str c (10 ∷ []) >>= finish) =
      λ c. sym (bind_assoc (add_byte c 10) _ finish) in
    ap (λ o. o >>= λ c. add_byte c 10 >>= finish) (write_lem args (new out))
    ∙ (bind_cong (write_str (new out) (concat args)) _ _ each
        ∙ (sym (bind_assoc (write_str (new out) (concat args)) _ finish)
            ∙ ap (λ o. o >>= finish) (sym (write_str-append (new out) (concat args) (10 ∷ [])))))

pub newline-Sequence : Sequence (10 ∷ [])
unfolding utf8_byte_length
newline-Sequence = sequence refl follow_nil

-- The same for `printkln`, with a newline at the end.
pub printkln_lem :
    (out : List (List ℕ)) (pieces : List (List (List ℕ)))
    → All Sequence (concat pieces)
    → printkln out (map concat pieces)
      ≡ ret (out ++ map concat (pack [] (concat pieces ++ (10 ∷ []) ∷ [])))
printkln_lem out pieces w =
    let (c, e, r) =
      write_pack (concat pieces ++ (10 ∷ []) ∷ []) (new out) out []
        (All-append (concat pieces) (10 ∷ []) w newline-Sequence) (new-Holds out) in
    let bytes : concat (map concat pieces) ++ 10 ∷ [] ≡ concat (concat pieces ++ (10 ∷ []) ∷ []) =
      ap (λ z. z ++ 10 ∷ []) (concat-concat pieces)
      ∙ sym (concat-append (concat pieces) ((10 ∷ []) ∷ [])) in
    printkln-newline out (map concat pieces)
    ∙ (ap (λ z. write_str (new out) z >>= finish) bytes ∙ (ap (λ o. o >>= finish) e ∙ ap ret r))
