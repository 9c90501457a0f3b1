-- ===== src/Storage/Sqlite/Pruning.antt =====
-- The pruner of crates/engine/src/pruner.rs over the SQLite store.
use monitra.Base.{
  ℕ, zero, suc, ◌-◌, ◌*◌, ◌≤◌, ◌≡◌, refl, String, Bool, false, not, none, List, [], ◌∷◌, filter,
  arith,
}
use monitra.Storage.Codec.{ℤ, as_i64}
use monitra.Storage.Records.{CheckResultRow}
use monitra.Storage.Sqlite.{Db, run_blocking, execute}
use monitra.Storage.Sqlite.Results.{
  older, delete_older, count_older, prune_check_results_older_than, count_prunable_check_results,
}
use monitra.Engine.Pruner.{Store, u64_max, run_pass}
use monitra.Engine.Pruner.Backlog.{Documented, Reported, run_pass-Reported}

abbrev pub batch_size : ℕ
batch_size = 10000

abbrev pub backlog_estimate_cap : ℕ
backlog_estimate_cap = 1000000

-- The two calls that the pruner makes, where SQLite meets no error of its own.
unfoldable pub pruned_store : (ℕ → String) → Store Db
pruned_store decimal = record {
  prune = λ db cutoff limit.
      let (answer, db') = prune_check_results_older_than none db cutoff limit in
      (run_blocking decimal answer, db');
  count =
      λ db cutoff cap. (run_blocking decimal (count_prunable_check_results none db cutoff cap), db);
}

-- How many results are older than a cutoff.
unfoldable pub remaining : Db → ℕ → ℕ
remaining db cutoff = count_older (as_i64 cutoff) db.check_results

-- The deletion takes as many as it may of the results that are older, and no other.
count_older-delete_older :
    (limit : ℕ) (cutoff : ℤ) (rows : List CheckResultRow)
    → count_older cutoff (delete_older limit cutoff rows) ≡ count_older cutoff rows - limit
unfolding count_older delete_older
count_older-delete_older zero cutoff rows = omega arith
count_older-delete_older (suc limit) cutoff [] = omega arith
count_older-delete_older (suc limit) cutoff (row ∷ rows) = ground (
  arith,
  count_older-delete_older limit cutoff rows,
  count_older-delete_older (suc limit) cutoff rows,
)

pub young-delete_older :
    (limit : ℕ) (cutoff : ℤ) (rows : List CheckResultRow)
    → filter (λ row. not (older cutoff row)) (delete_older limit cutoff rows)
      ≡ filter (λ row. not (older cutoff row)) rows
unfolding delete_older
young-delete_older zero cutoff rows = refl
young-delete_older (suc limit) cutoff [] = refl
young-delete_older (suc limit) cutoff (row ∷ rows) =
    ground (arith, young-delete_older limit cutoff rows, young-delete_older (suc limit) cutoff rows)

store-Documented :
    (decimal : ℕ → String)
    → Documented (pruned_store decimal) remaining batch_size backlog_estimate_cap
unfolding pruned_store remaining prune_check_results_older_than count_prunable_check_results execute
    run_blocking
store-Documented decimal = record {
  prunes =
      λ db cutoff. (refl, count_older-delete_older batch_size (as_i64 cutoff) db.check_results);
  counts = λ db cutoff. (refl, refl);
}

-- A pass over the SQLite store, where SQLite meets no error of its own and the first batch is in
-- time, reports honestly: the results that it pruned, with those past the retention that are left,
-- are those that were there, if they are a `u64`; it prunes `max_batches` batches at most; and its
-- backlog is what is left, up to the cap.
pub run_pass-sqlite :
    (decimal : ℕ → String) (db : Db) (now retention_secs left : ℕ) (late : ℕ → Bool)
    → remaining db (now - retention_secs) ≤ u64_max
    → late left ≡ false
    → Reported
        (pruned_store decimal)
        remaining
        batch_size
        backlog_estimate_cap
        (now - retention_secs)
        (remaining db (now - retention_secs))
        (suc left * batch_size)
        (run_pass
          (pruned_store decimal)
          batch_size
          backlog_estimate_cap
          db
          now
          retention_secs
          (suc left)
          late)
run_pass-sqlite decimal db now retention_secs left late =
    run_pass-Reported (pruned_store decimal) remaining batch_size backlog_estimate_cap db now
      retention_secs left late (store-Documented decimal)
