-- ===== src/Queue/Counts.antt =====
-- How often a pointer stands in a queue, after each call.
use zephyr_lang_rust.Prelude.{
  ℕ, ◌+◌, ◌-◌, ◌≡◌, List, [], ◌∷◌, ltb, ◌==◌, any, if◌then◌else◌, count, count-append, arith,
}
use zephyr_lang_rust.Queue.{KQueue, erase}
use zephyr_lang_rust.Queue

count-erase :
    (a s : ℕ) (l : List ℕ) → count s (erase a l) ≡ (if a == s then count s l - 1 else count s l)
count-erase a s [] = ground arith
count-erase a s (x ∷ l) = ground (arith, count-erase a s l)

any-count : (a : ℕ) (l : List ℕ) → any (λ x. x == a) l ≡ ltb 0 (count a l)
any-count a [] = ground arith
any-count a (x ∷ l) = ground (arith, any-count a l)

module _ (k : KQueue) where
  pub count-send :
      (q : k.Q) (a s : ℕ)
      → count s (k.items (Queue.send k q a)) ≡ count s (k.items q) + (if a == s then 1 else 0)
  count-send q a s = ground (arith, k.items_append q a, count-append s (k.items q) (a ∷ []))

  pub count-remove :
      (q : k.Q) (a s : ℕ)
      → count s (k.items (Queue.remove k q a).1)
        ≡ (if a == s then count s (k.items q) - 1 else count s (k.items q))
  count-remove q a s = ground (arith, k.remove_items q a, count-erase a s (k.items q))

  pub remove-count : (q : k.Q) (a : ℕ) → (Queue.remove k q a).0 ≡ ltb 0 (count a (k.items q))
  remove-count q a = ground (arith, k.remove_found q a, any-count a (k.items q))
