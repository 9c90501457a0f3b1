-- ===== src/Engine/Pruner.antt =====
-- A pass of crates/engine/src/pruner.rs. The store and the clock are parameters.
pub mod Backlog
pub mod Loop
mod Tests
use monitra.Base.{
  ℕ, zero, suc, ◌+◌, ◌-◌, Bool, true, false, not, ◌&&◌, Option, none, some, List, [], ◌∷◌, ltb, leb,
  ◌==◌, if◌then◌else◌, min,
}
use monitra.Provider.Cache.{Answer, ok, err}

abbrev pub u64_max : ℕ
u64_max = 18446744073709551615

-- `prune_check_results_older_than` and `count_prunable_check_results`.
pub record Store (S : Type 0) : Type 0 where
  pub prune : S → ℕ → ℕ → Answer ℕ × S
  pub count : S → ℕ → ℕ → Answer ℕ × S

pub record PassResult : Type 0 where
  pub rows : ℕ
  pub backlog : ℕ

pub record BehindTracker : Type 0 where
  pub last_pass_behind : Bool

-- Whether to warn, and the tracker afterwards.
unfoldable pub consecutive_backlog : BehindTracker → ℕ → Bool × BehindTracker
consecutive_backlog tracker backlog =
    (ltb 0 backlog && tracker.last_pass_behind, record { last_pass_behind = ltb 0 backlog })

-- What the loop over the batches ends with: the rows so far and whether the last batch was full, or
-- the store's error.
abbrev pub Pruned : Type 0
Pruned = Answer (ℕ × Bool)

module _ {S : Type 0} (store : Store S) (batch_size estimate_cap : ℕ) where
  -- Each reading tells whether `started.elapsed() >= max_time` before a batch.
  unfoldable pub batches : S → ℕ → ℕ → (ℕ → Bool) → ℕ → Bool → Pruned × S
  batches s cutoff zero late rows last_full = (ok (rows, last_full), s)
  batches s cutoff (suc left) late rows last_full =
      let (answer, s') = store.prune s cutoff batch_size in
      if late left then (ok (rows, last_full), s) else elim answer [
        | err error ↦ (err error, s')
        | ok count ↦
            let rows' = min u64_max (rows + count) in
            let rest = batches s' cutoff left late rows' true in
            if count == batch_size then rest else (ok (rows', false), s')
      ]

  unfoldable pub backlog_of : ℕ → Pruned × S → Answer PassResult × S
  backlog_of cutoff (err error, s) = (err error, s)
  backlog_of cutoff (ok (rows, false), s) = (ok (record { rows = rows; backlog = 0 }), s)
  backlog_of cutoff (ok (rows, true), s) =
      let (answer, s') = store.count s cutoff estimate_cap in
      elim answer [
        | err error ↦ (err error, s')
        | ok backlog ↦ (ok (record { rows = rows; backlog = backlog }), s')
      ]

  -- `run_pass`, less the duration that it reports.
  unfoldable pub run_pass : S → ℕ → ℕ → ℕ → (ℕ → Bool) → Answer PassResult × S
  unfolding batches backlog_of
  run_pass s now retention_secs max_batches late =
      let cutoff = now - retention_secs in
      backlog_of cutoff (batches s cutoff max_batches late 0 false)
