-- ===== src/Queue/Lists.antt =====
-- A `KQueue` whose queues are lists: the kernel's contract can be met.
use zephyr_lang_rust.Prelude.{
  ℕ, ◌≡◌, refl, Bool, true, false, Option, none, some, List, [], ◌∷◌, ◌++◌, leb, ◌==◌, any,
  if◌then◌else◌, arith,
}
use zephyr_lang_rust.Prelude.Int.{pos, negsuc}
use zephyr_lang_rust.Prelude.Outcome.{Call, done, waits}
use zephyr_lang_rust.Time.{Timeout, k_no_wait}
use zephyr_lang_rust.Queue.{erase, KQueue}

-- A relative timeout of `n` ticks has expired after `n`; an absolute one is not used here.
abbrev pub ticks_expired : Timeout → ℕ → Bool
ticks_expired t e = elim t.ticks [ pos n ↦ leb n e | negsuc n ↦ false ]

abbrev pub list_get : List ℕ → Timeout → ℕ → Call (Option ℕ) (List ℕ)
list_get [] t e = if ticks_expired t e then done none [] else waits
list_get (a ∷ r) t e = done (some a) r

pub list_expired_no_wait : (e : ℕ) → ticks_expired k_no_wait e ≡ true
list_expired_no_wait e = ground arith

pub list_get_first :
    (q : List ℕ) (t : Timeout) (e a : ℕ) (r : List ℕ)
    → q ≡ a ∷ r
    → (q' : List ℕ) × (list_get q t e ≡ done (some a) q') × (q' ≡ r)
list_get_first q t e a r h = (r, rw h, refl)

pub list_get_empty :
    (q : List ℕ) (t : Timeout) (e : ℕ)
    → q ≡ []
    → list_get q t e ≡ (if ticks_expired t e then done none q else waits)
list_get_empty q t e h = rw h

abbrev pub list_queue : KQueue
list_queue = record {
  Q = List ℕ;
  items = λ q. q;
  expired = ticks_expired;
  k_queue_init = [];
  k_queue_append = λ q a. q ++ a ∷ [];
  k_queue_get = list_get;
  k_queue_remove = λ q a. (any (λ x. x == a) q, erase a q);
  expired_no_wait = list_expired_no_wait;
  expired_forever = λ e. refl;
  items_init = refl;
  items_append = λ q a. refl;
  get_first = list_get_first;
  get_empty = list_get_empty;
  remove_found = λ q a. refl;
  remove_items = λ q a. refl;
}
