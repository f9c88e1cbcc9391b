-- ===== src/Channel/Bounded/Threads/Examples.antt =====
-- Two senders and a receiver on a channel of two slots: the second sender takes its slot first and
-- fills it last.
use zephyr_lang_rust.Prelude.{ℕ, ◌≡◌, refl, false, List, [], ◌∷◌, ◌++◌}
use zephyr_lang_rust.Time.{from_forever, from_no_wait}
use zephyr_lang_rust.Queue.Lists.{list_queue}
use zephyr_lang_rust.Channel.Bounded.Valid.{payloads}
use zephyr_lang_rust.Channel.Bounded.{bounded_new, send_slots}
use zephyr_lang_rust.Channel.Bounded.Threads.{Act, sends, receives, goes_on, start, run}
use zephyr_lang_rust.Channel.Bounded.Threads.Held.{Returns}
use zephyr_lang_rust.Channel.Bounded.Threads.Order.{run-fifo}

abbrev crossed : List (ℕ × Act ℕ)
crossed =
    (2, sends 8 from_no_wait 0)
    ∷ (1, sends 7 from_forever 0)
    ∷ (1, goes_on)
    ∷ (1, goes_on)
    ∷ (3, receives from_forever 4)
    ∷ (2, goes_on)
    ∷ (3, goes_on)
    ∷ (2, goes_on)
    ∷ []

crossed_sent : (run list_queue ℕ (start list_queue ℕ 2) crossed).sent ≡ 7 ∷ 8 ∷ []
unfolding run bounded_new send_slots
crossed_sent = refl

run-fifo_example :
    let s = run list_queue ℕ (start list_queue ℕ 2) crossed in
    (s.fault ≡ false)
    × (s.got ++ payloads s.chan.slots (list_queue.items s.chan.chan) ≡ s.sent)
    × Returns (s.pc 3)
run-fifo_example = run-fifo list_queue ℕ 2 crossed 3
