-- ===== src/Channel/Bounded/Threads/Held.antt =====
-- Who has which slot of a bounded channel: the invariant of its threads.
use zephyr_lang_rust.Prelude.{
  ℕ, ◌+◌, ◌≤◌, ◌<◌, ◌≡◌, ◌≢◌, refl, sym, ◌∙◌, false, Option, none, some, List, ◌∷◌, ◌++◌, count,
  ◌==◌, if◌then◌else◌, ℕ_discrete, arith,
}
use zephyr_lang_rust.Queue.{KQueue}
use zephyr_lang_rust.Channel.Message.{Message, message_new, Memory}
use zephyr_lang_rust.Channel.Bounded.{Bounded}
use zephyr_lang_rust.Channel.Bounded.Valid.{payloads}
use zephyr_lang_rust.Channel.Bounded.Threads.{
  Pc, idle, filling, filled, emptying, emptied, at, Threads,
}

at_self : {A : Type 0} (f : ℕ → A) (t : ℕ) (a : A) → at f t a t ≡ a
at_self f t a = ground arith

at_other : {A : Type 0} (f : ℕ → A) (t u : ℕ) (a : A) → u ≢ t → at f t a u ≡ f u
at_other f t u a n = ground arith

module _ {T : Type 0} where
  -- The slot that a thread has, and what it knows of it.
  abbrev pub slot_of : Pc T → Option ℕ
  slot_of idle = none
  slot_of (filling a msg) = some a
  slot_of (filled a msg) = some a
  slot_of (emptying a v) = some a
  slot_of (emptied a v w) = some a

  abbrev pub Fits : Memory T → Pc T → Type 0
  Fits m idle = Unit
  Fits m (filling a msg) = Unit
  Fits m (filled a msg) = m a ≡ some (message_new msg)
  Fits m (emptying a v) = (c : Message T) × (m a ≡ some c) × (c.payload ≡ v)
  Fits m (emptied a v w) = v ≡ w

  -- The message that a thread has read is the one that the slot had when it was taken from the queue.
  abbrev pub Returns : Pc T → Type 0
  Returns (emptied a v w) = v ≡ w
  Returns _ = Unit

  pub Fits-Returns : (m : Memory T) (p : Pc T) → Fits m p → Returns p
  Fits-Returns m idle f = tt
  Fits-Returns m (filling a msg) f = tt
  Fits-Returns m (filled a msg) f = tt
  Fits-Returns m (emptying a v) f = tt
  Fits-Returns m (emptied a v w) f = f

  Fits-same :
      (m m' : Memory T) (p : Pc T)
      → ((a : ℕ) → slot_of p ≡ some a → m' a ≡ m a)
      → Fits m p
      → Fits m' p
  Fits-same m m' idle h f = tt
  Fits-same m m' (filling a msg) h f = tt
  Fits-same m m' (filled a msg) h f = h a refl ∙ f
  Fits-same m m' (emptying a v) h (c, e, p) = (c, h a refl ∙ e, p)
  Fits-same m m' (emptied a v w) h f = f

  pub payloads-cons :
      (m : Memory T) (a : ℕ) (l : List ℕ) (c : Message T)
      → m a ≡ some c
      → payloads m (a ∷ l) ≡ c.payload ∷ payloads m l
  unfolding payloads
  payloads-cons m a l c h = ground (arith, h)

module _ (k : KQueue) (T : Type 0) where
  -- How often a slot stands in the two queues.
  abbrev pub places : Bounded k T → ℕ → ℕ
  places b a = count a (k.items b.free) + count a (k.items b.chan)

  pub record Inv (s : Threads k T) : Type 0 where
    pub once : (a : ℕ) → places s.chan a ≤ 1
    pub away : (t a : ℕ) → slot_of (s.pc t) ≡ some a → places s.chan a ≡ 0
    pub alone : (t u a : ℕ) → slot_of (s.pc t) ≡ some a → slot_of (s.pc u) ≡ some a → t ≡ u
    pub written : (a : ℕ) → 0 < count a (k.items s.chan.chan) → s.chan.slots a ≢ none
    pub fits : (t : ℕ) → Fits s.chan.slots (s.pc t)
    pub fifo : s.got ++ payloads s.chan.slots (k.items s.chan.chan) ≡ s.sent
    pub no_fault : s.fault ≡ false

  -- A thread goes to a place: what the others have is as it was, and not what this one has.
  pub Inv-moved :
      (s s' : Threads k T) (t : ℕ) (p : Pc T)
      → Inv s
      → s'.pc ≡ at s.pc t p
      → ((a : ℕ) → places s'.chan a ≤ 1)
      → ((a : ℕ) → slot_of p ≡ some a → places s'.chan a ≡ 0)
      → ((u a : ℕ) → u ≢ t → slot_of (s.pc u) ≡ some a → places s'.chan a ≡ 0)
      → ((u a : ℕ) → u ≢ t → slot_of (s.pc u) ≡ some a → slot_of p ≢ some a)
      → ((u a : ℕ) → u ≢ t → slot_of (s.pc u) ≡ some a → s'.chan.slots a ≡ s.chan.slots a)
      → Fits s'.chan.slots p
      → ((a : ℕ) → 0 < count a (k.items s'.chan.chan) → s'.chan.slots a ≢ none)
      → s'.got ++ payloads s'.chan.slots (k.items s'.chan.chan) ≡ s'.sent
      → s'.fault ≡ false
      → Inv s'
  Inv-moved s s' t p i e once own rest apart same fits written fifo ok = record {
    once = once;
    away = λ u a h. elim (ℕ_discrete u t) [
      | yes d ↦ own a (rw (e, d, at_self s.pc t p) at h)
      | no n ↦ rest u a n (rw (e, at_other s.pc t u p n) at h)
    ];
    alone = λ u v a h g. elim (ℕ_discrete u t) [
      | yes d ↦ elim (ℕ_discrete v t) [
        | yes d' ↦ d ∙ sym d'
        | no n ↦
            absurd
              (apart v a n (rw (e, at_other s.pc t v p n) at g) (rw (e, d, at_self s.pc t p) at h))
      ]
      | no n ↦ elim (ℕ_discrete v t) [
        | yes d' ↦
            absurd
              (apart u a n (rw (e, at_other s.pc t u p n) at h) (rw (e, d', at_self s.pc t p) at g))
        | no n' ↦
            i.alone u v a (rw (e, at_other s.pc t u p n) at h) (rw (e, at_other s.pc t v p n') at g)
      ]
    ];
    written = written;
    fits = λ u. elim (ℕ_discrete u t) [
      | yes d ↦ rw (e, d, at_self s.pc t p) fits
      | no n ↦
          rw (e, at_other s.pc t u p n)
            (Fits-same s.chan.slots s'.chan.slots (s.pc u) (λ a h. same u a n h) (i.fits u))
    ];
    fifo = fifo;
    no_fault = ok;
  }

  pub head-count : (q : k.Q) (a : ℕ) (r : List ℕ) → k.items q ≡ a ∷ r → 0 < count a (k.items q)
  head-count q a r h = ground (arith, h)

  pub tail-count :
      (q q' : k.Q) (a b : ℕ) (r : List ℕ)
      → k.items q ≡ a ∷ r
      → k.items q' ≡ r
      → count b (k.items q) ≡ (if a == b then 1 else 0) + count b (k.items q')
  tail-count q q' a b r h h' = rw (h, h') refl
