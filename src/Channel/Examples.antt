-- ===== src/Channel/Examples.antt =====
-- Channels on queues that are lists.
use zephyr_lang_rust.Prelude.{ℕ, ◌<◌, ◌≡◌, refl, Bool, true, List, [], ◌∷◌, ◌++◌, arith}
use zephyr_lang_rust.Prelude.Int.{pos}
use zephyr_lang_rust.Prelude.Outcome.{Outcome, ret, panic, ok, done, map_state}
use zephyr_lang_rust.Time.{Timeout, from_forever, from_no_wait}
use zephyr_lang_rust.Queue.Lists.{list_queue}
use zephyr_lang_rust.Channel.Bounded.{Bounded, bounded_new, bounded}
use zephyr_lang_rust.Channel.Bounded.Fifo.{fifo_recv}
use zephyr_lang_rust.Channel.Bounded.Valid.{IsValid, bounded_new-IsValid}
use zephyr_lang_rust.Channel.Bounded.Runs.{
  Op, send, recv, replies, step, fifo_step, bounded_refines,
}
use zephyr_lang_rust.Channel.Unbounded
use zephyr_lang_rust.Channel.Unbounded.Valid
use zephyr_lang_rust.Channel.Unbounded.Refine.{unbounded_refines}
use zephyr_lang_rust.Channel.Counter.{new}
use zephyr_lang_rust.Channel.Counter.Handles
use zephyr_lang_rust.Channel.Counter.Handles.{
  clone_s, drop_s, drop_r, counts, hold, run, run-new_holds, Side, senders, release_keeps, release,
  handles, other,
}

-- A channel of two slots, and a wait of five ticks.
abbrev two_slots : Bounded list_queue ℕ
two_slots = bounded_new list_queue 2

two_slots-IsValid : IsValid two_slots
two_slots-IsValid = bounded_new-IsValid list_queue 2

abbrev five : Timeout
five = record { ticks = pos 5 }

-- The third send finds no slot, and the first message comes out first.
abbrev calls : List (Op ℕ)
calls =
    send 7 from_no_wait 0
    ∷ send 8 from_no_wait 0
    ∷ send 9 five 5
    ∷ recv from_forever 0
    ∷ send 9 from_forever 3
    ∷ recv five 1
    ∷ []

bounded_refines_example :
    (b : Bounded list_queue ℕ) × (bounded list_queue 2 ≡ ret b)
    × (replies (step list_queue) b calls ≡ replies (fifo_step list_queue.expired 2) [] calls)
    × (bounded list_queue {T = ℕ} 0 ≡ panic)
bounded_refines_example = bounded_refines list_queue 2 calls (omega arith)

-- An unbounded channel, beside 4 boxes that were allocated before.
abbrev boxed : Unbounded.Unbounded list_queue ℕ
boxed = Unbounded.unbounded list_queue 4

boxed-IsValid : Unbounded.Valid.IsValid boxed
boxed-IsValid = Unbounded.Valid.unbounded-IsValid list_queue 4

unbounded_refines_example :
    (map_state Unbounded.Valid.messages (Unbounded.send_timeout list_queue boxed 7 five 0)
      ≡ done (ok tt) (Unbounded.Valid.messages boxed ++ 7 ∷ []))
    × (map_state Unbounded.Valid.messages (Unbounded.recv_timeout list_queue boxed five 0)
        ≡ fifo_recv list_queue.expired (Unbounded.Valid.messages boxed) five 0)
unbounded_refines_example = unbounded_refines list_queue boxed 7 five 0 boxed-IsValid

run-new_holds_example :
    counts {C = ℕ} (run 256 (clone_s ∷ drop_s ∷ drop_r ∷ []) (new 0))
    ≡ hold (clone_s ∷ drop_s ∷ drop_r ∷ []) (1, 1)
run-new_holds_example = run-new_holds 256 0 (clone_s ∷ drop_s ∷ drop_r ∷ []) (omega arith)

-- A `disconnect` that returns.
abbrev quiet : ℕ → Outcome Bool
quiet c = ret true

new_counter-IsValid : Handles.IsValid 256 (new {C = ℕ} 0)
unfolding new
new_counter-IsValid = record { fits = (omega arith, omega arith); destroying = refl; freed = refl }

one_sender : 0 < handles senders (new {C = ℕ} 0)
unfolding new
one_sender = omega arith
