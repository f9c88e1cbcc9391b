-- ===== src/Channel/Bounded/Fifo.antt =====
-- What a bounded channel promises: a first-in first-out queue of at most `cap` messages.  The
-- clock, which says whether a timeout has expired, is a parameter.
use zephyr_lang_rust.Prelude.{ℕ, Bool, List, [], ◌∷◌, ◌++◌, length, ltb, if◌then◌else◌}
use zephyr_lang_rust.Prelude.Outcome.{Result, ok, err, Call, done, waits}
use zephyr_lang_rust.Time.{Timeout}
use zephyr_lang_rust.Channel.Message.{SendError, send_error, RecvError, recv_error}

module _ (expired : Timeout → ℕ → Bool) {T : Type 0} where
  -- A send joins the end while there is room; else it waits, and gives the message back when its
  -- timeout has expired.
  abbrev pub fifo_send :
      ℕ → List T → T → Timeout → ℕ → Call (Result (Unit {0}) (SendError T)) (List T)
  fifo_send cap l msg t e =
      if ltb (length l) cap
      then done (ok tt) (l ++ msg ∷ [])
      else if expired t e
      then done (err (send_error msg)) l
      else waits

  -- A receive takes the first message; else it waits, and fails when its timeout has expired.
  abbrev pub fifo_recv : List T → Timeout → ℕ → Call (Result T RecvError) (List T)
  fifo_recv [] t e = if expired t e then done (err recv_error) [] else waits
  fifo_recv (x ∷ l) t e = done (ok x) l
