-- ===== src/Channel/Bounded/Runs.antt =====
-- What the users of a bounded channel see: any sequence of calls, and the calls that fix the timeout.
use zephyr_lang_rust.Prelude.{
  ℕ, ◌≡◌, ◌<◌, refl, Bool, ap, List, [], ◌∷◌, ◌++◌, length, ltb, if◌then◌else◌, arith,
}
use zephyr_lang_rust.Prelude.Outcome.{
  ret, panic, Result, ok, err, Call, done, waits, undefined, map_state, Leaves,
}
use zephyr_lang_rust.Time.{Timeout, from_forever, from_no_wait}
use zephyr_lang_rust.Queue.{KQueue}
use zephyr_lang_rust.Channel.Message.{SendError, send_error, RecvError, recv_error}
use zephyr_lang_rust.Channel.Bounded.{
  Bounded, bounded, bounded_new, send_timeout, recv_timeout, send_forever, try_send, recv_forever,
  try_recv,
}
use zephyr_lang_rust.Channel.Bounded.Fifo.{fifo_send, fifo_recv}
use zephyr_lang_rust.Channel.Bounded.Valid.{
  messages, IsValid, bounded_new-IsValid, messages-bounded_new,
}
use zephyr_lang_rust.Channel.Bounded.Refine.{
  send_timeout_refines, recv_timeout_refines, bounded_keeps, recv_timeout-IsValid,
}

-- A call by some user, with its timeout and the ticks that it has waited.
pub data Op (T : Type 0) : Type 0 where
  send : T → Timeout → ℕ → Op T
  recv : Timeout → ℕ → Op T

pub data Reply (T : Type 0) : Type 0 where
  sent : Reply T
  refused : T → Reply T
  received : T → Reply T
  failed : Reply T
  blocked : Reply T
  broken : Reply T

module _ {T : Type 0} where
  abbrev pub send_reply : Result (Unit {0}) (SendError T) → Reply T
  send_reply (ok _) = sent
  send_reply (err (send_error msg)) = refused msg

  abbrev pub recv_reply : Result T RecvError → Reply T
  recv_reply (ok msg) = received msg
  recv_reply (err _) = failed

  -- The reply of a call and the state after it; a call that still waits has changed nothing.
  abbrev pub after {ℓ} : {A : Type 0} {S : Type ℓ} → (A → Reply T) → S → Call A S → Reply T × S
  after reply old (done a s) = (reply a, s)
  after reply old waits = (blocked, old)
  after reply old undefined = (broken, old)

  after-map_state {ℓ κ} :
      {A : Type 0} {S : Type ℓ} {V : Type κ} (reply : A → Reply T) (g : S → V) (old : S)
      (c : Call A S)
      → after reply (g old) (map_state g c) ≡ ((after reply old c).0, g (after reply old c).1)
  after-map_state reply g old (done a s) = refl
  after-map_state reply g old waits = refl
  after-map_state reply g old undefined = refl

  after-Leaves {ℓ κ} :
      {A : Type 0} {S : Type ℓ} (P : S → Type κ) (reply : A → Reply T) (old : S) (c : Call A S)
      → P old
      → Leaves P c
      → P (after reply old c).1
  after-Leaves P reply old (done a s) p q = q
  after-Leaves P reply old waits p q = p
  after-Leaves P reply old undefined p q = p

  -- The replies to a sequence of calls.
  pub replies {ℓ} : {S : Type ℓ} → (S → Op T → Reply T × S) → S → List (Op T) → List (Reply T)
  replies step s [] = []
  replies step s (op ∷ ops) = let (r, s') = step s op in r ∷ replies step s' ops

module _ (expired : Timeout → ℕ → Bool) (cap : ℕ) {T : Type 0} where
  abbrev pub fifo_step : List T → Op T → Reply T × List T
  fifo_step l (send msg t e) = after send_reply l (fifo_send expired cap l msg t e)
  fifo_step l (recv t e) = after recv_reply l (fifo_recv expired l t e)

module _ (k : KQueue) {T : Type 0} where
  pub step : Bounded k T → Op T → Reply T × Bounded k T
  step b (send msg t e) = after send_reply b (send_timeout k b msg t e)
  step b (recv t e) = after recv_reply b (recv_timeout k b t e)

  step_refines :
      (b : Bounded k T) (op : Op T)
      → IsValid b
      → fifo_step k.expired b.cap (messages b) op ≡ ((step b op).0, messages (step b op).1)
  unfolding step
  step_refines b (send msg t e) v =
      rw (← send_timeout_refines k b msg t e v) (after-map_state send_reply messages b _)
  step_refines b (recv t e) v =
      rw (← recv_timeout_refines k b t e v) (after-map_state recv_reply messages b _)

  step-IsValid :
      (b : Bounded k T) (op : Op T)
      → IsValid b
      → IsValid (step b op).1 × ((step b op).1.cap ≡ b.cap)
  unfolding step
  step-IsValid b (send msg t e) v =
      after-Leaves (λ b'. IsValid b' × (b'.cap ≡ b.cap)) send_reply b _ (v, refl)
        (bounded_keeps k b msg t e v).0
  step-IsValid b (recv t e) v =
      after-Leaves (λ b'. IsValid b' × (b'.cap ≡ b.cap)) recv_reply b _ (v, refl)
        (recv_timeout-IsValid k b t e v)

  replies_refine :
      (ops : List (Op T)) (b : Bounded k T)
      → IsValid b
      → replies step b ops ≡ replies (fifo_step k.expired b.cap) (messages b) ops
  unfolding replies
  replies_refine [] b v = refl
  replies_refine (op ∷ ops) b v =
      let (v', c) = step-IsValid b op v in
      rw (step_refines b op v) (ap (λ l. (step b op).0 ∷ l) (rw c at (replies_refine ops _ v')))

-- A channel made by `bounded` with a capacity above zero answers any sequence of calls, from any
-- users, a whole call at a time, just as a first-in first-out queue of that capacity that starts empty; with a capacity of
-- zero `bounded` panics.
pub bounded_refines :
    (k : KQueue) {T : Type 0} (capacity : ℕ) (ops : List (Op T))
    → 0 < capacity
    → (b : Bounded k T) × (bounded k capacity ≡ ret b)
      × (replies (step k) b ops ≡ replies (fifo_step k.expired capacity) [] ops)
      × (bounded k {T = T} 0 ≡ panic)
unfolding bounded bounded_new
bounded_refines k capacity ops h = (
  bounded_new k capacity,
  ground arith,
  rw messages-bounded_new at
      (replies_refine k ops (bounded_new k capacity) (bounded_new-IsValid k capacity)),
  refl,
)

-- On a valid channel `try_send` and `try_recv` never wait: `try_send` takes the message if there is
-- room and gives it back if not, `try_recv` takes the first message and fails if there is none.
-- `send` and `recv` with no timeout never give up: without room, or a message, they wait.
pub fixed_timeouts :
    (k : KQueue) {T : Type 0} (b : Bounded k T) (msg : T) (e : ℕ)
    → IsValid b
    → (map_state messages (try_send k b msg) ≡ (
        if ltb (length (messages b)) b.cap
        then done (ok tt) (messages b ++ msg ∷ [])
        else done (err (send_error msg)) (messages b)))
      × (map_state messages (try_recv k b)
          ≡ elim (messages b) [ [] ↦ done (err recv_error) [] | x ∷ l ↦ done (ok x) l ])
      × (map_state messages (send_forever k b msg e) ≡ (
          if ltb (length (messages b)) b.cap then done (ok tt) (messages b ++ msg ∷ []) else waits))
      × (map_state messages (recv_forever k b e)
          ≡ elim (messages b) [ [] ↦ waits | x ∷ l ↦ done (ok x) l ])
unfolding try_send try_recv send_forever recv_forever
fixed_timeouts k b msg e valid = (
  ground (arith, send_timeout_refines k b msg from_no_wait 0 valid, k.expired_no_wait 0),
  ground (arith, recv_timeout_refines k b from_no_wait 0 valid, k.expired_no_wait 0),
  ground (arith, send_timeout_refines k b msg from_forever e valid, k.expired_forever e),
  ground (arith, recv_timeout_refines k b from_forever e valid, k.expired_forever e),
)
