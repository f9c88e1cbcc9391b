-- ===== src/Queue.antt =====
-- zephyr/src/sys/queue.rs: `Queue`, a wrapper of Zephyr's `k_queue`.  The kernel's calls are not in
-- this repository: they are the parameter `KQueue`, with what the kernel documents of them.  The
-- initialisation of the object at its first use is `Object`'s.
pub mod Lists
pub mod Counts
use mathlib.Core.Option.{Option, none, some}
use zephyr_lang_rust.Prelude.{
  ℕ, ◌≡◌, refl, Bool, true, false, List, [], ◌∷◌, ◌++◌, ◌==◌, any, if◌then◌else◌,
}
use zephyr_lang_rust.Prelude.Outcome.{Call, done, waits, undefined}
use zephyr_lang_rust.Time.{Timeout, k_forever, k_no_wait}

-- A list without the first place at which a value stands.
abbrev pub erase : ℕ → List ℕ → List ℕ
erase a [] = []
erase a (x ∷ xs) = if x == a then xs else x ∷ erase a xs

-- Pointers are numbers, and the null pointer is `none`.  `k_queue_get q t e` is a call with timeout
-- `t` that has waited `e` ticks: while the queue is empty it waits until the timeout has expired.
pub record KQueue : Type 1 where
  pub Q : Type 0
  pub items : Q → List ℕ
  pub expired : Timeout → ℕ → Bool
  pub k_queue_init : Q
  pub k_queue_append : Q → ℕ → Q
  pub k_queue_get : Q → Timeout → ℕ → Call (Option ℕ) Q
  pub k_queue_remove : Q → ℕ → Bool × Q
  pub expired_no_wait : (e : ℕ) → expired k_no_wait e ≡ true
  pub expired_forever : (e : ℕ) → expired k_forever e ≡ false
  pub items_init : items k_queue_init ≡ []
  pub items_append : (q : Q) (a : ℕ) → items (k_queue_append q a) ≡ items q ++ a ∷ []
  pub get_first :
      (q : Q) (t : Timeout) (e : ℕ) (a : ℕ) (r : List ℕ)
      → items q ≡ a ∷ r
      → (q' : Q) × (k_queue_get q t e ≡ done (some a) q') × (items q' ≡ r)
  pub get_empty :
      (q : Q) (t : Timeout) (e : ℕ)
      → items q ≡ []
      → k_queue_get q t e ≡ (if expired t e then done none q else waits)
  pub remove_found : (q : Q) (a : ℕ) → (k_queue_remove q a).0 ≡ any (λ x. x == a) (items q)
  pub remove_items : (q : Q) (a : ℕ) → items (k_queue_remove q a).1 ≡ erase a (items q)

module _ (k : KQueue) where
  open k use {Q, k_queue_init, k_queue_append, k_queue_get, k_queue_remove}

  abbrev pub new : Q
  new = k_queue_init

  abbrev pub send : Q → ℕ → Q
  send q p = k_queue_append q p

  abbrev pub recv : Q → Timeout → ℕ → Call (Option ℕ) Q
  recv q timeout e = k_queue_get q timeout e

  abbrev pub remove : Q → ℕ → Bool × Q
  remove q p = k_queue_remove q p

  -- What a receive finds: nothing, or the first item.
  pub data Found (q : Q) (t : Timeout) (e : ℕ) : Type 0 where
    empty :
        k.items q ≡ [] → recv q t e ≡ (if k.expired t e then done none q else waits) → Found q t e
    first :
        (a : ℕ) (r : List ℕ) (q' : Q)
        → k.items q ≡ a ∷ r
        → recv q t e ≡ done (some a) q'
        → k.items q' ≡ r
        → Found q t e

  Found-in : (q : Q) (t : Timeout) (e : ℕ) (l : List ℕ) → k.items q ≡ l → Found q t e
  Found-in q t e [] h = empty h (k.get_empty q t e h)
  Found-in q t e (a ∷ r) h =
      let (q', got, rest) = k.get_first q t e a r h in first a r q' h got rest

  pub found : (q : Q) (t : Timeout) (e : ℕ) → Found q t e
  found q t e = Found-in q t e (k.items q) refl
