-- ===== src/Engine/Writer.antt =====
-- The batched writer of crates/engine/src/writer.rs: the loop of `run` over what `select!` picks
-- next. The store is a parameter: its state, and what `insert_check_results` answers (true for `Ok`).
pub mod Batches
mod Tests
use monitra.Base.{ℕ, Bool, List, [], ◌∷◌, ◌++◌, length, leb, if◌then◌else◌}
use monitra.Models.{CheckResult}

-- `closed`: every sender has been dropped. The channel hands out what it still holds before that.
pub data Event : Type 0 where
  received : CheckResult → Event
  tick closed : Event

-- The store, and the batch that waits.
pub record Writer (S : Type 0) : Type 0 where
  pub store : S
  pub batch : List CheckResult

module _ {S : Type 0} (insert_check_results : S → List CheckResult → Bool × S) where
  -- The store is not called for an empty batch.
  unfoldable pub written : S → List CheckResult → S
  written store [] = store
  written store (result ∷ batch) = (insert_check_results store (result ∷ batch)).1

  -- The batch is cleared whether or not the store took it.
  unfoldable pub flush : Writer S → Writer S
  unfolding written
  flush w = record { store = written w.store w.batch; batch = [] }

  unfoldable pub push : ℕ → Writer S → CheckResult → Writer S
  unfolding flush
  push batch_size w result =
      let w' = record w { batch = w.batch ++ result ∷ [] } in
      if leb batch_size (length w'.batch) then flush w' else w'

  -- What comes after `closed` is not read.
  unfoldable pub run : ℕ → Writer S → List Event → Writer S
  unfolding push flush
  run batch_size w [] = w
  run batch_size w (received result ∷ events) = run batch_size (push batch_size w result) events
  run batch_size w (tick ∷ events) = run batch_size (flush w) events
  run batch_size w (closed ∷ events) = flush w
