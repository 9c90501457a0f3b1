-- ===== src/Engine/Pruner/Backlog.antt =====
-- What a pass reports, where the store prunes and counts as it documents.
use monitra.Base.{
  ℕ, zero, suc, ◌+◌, ◌-◌, ◌*◌, ◌≤◌, ◌≡◌, refl, Bool, true, false, List, [], ◌∷◌, arith, min, leb,
  ltb, ◌&&◌, Bool-cases, inl, inr,
}
use monitra.Provider.Cache.{Answer, ok, err}
use monitra.Engine.Pruner.{
  Store, PassResult, Pruned, u64_max, batches, backlog_of, run_pass, BehindTracker,
  consecutive_backlog,
}

-- What the pruner relies on, for the batch size and the cap that it passes: `remaining` is how many
-- results are older than a cutoff; a call prunes so many of them as the batch size allows and tells
-- how many, and the count stops at the cap.
pub record Documented {S : Type 0} (store : Store S) (remaining : S → ℕ → ℕ) (batch_size cap : ℕ)
    : Type 0 where
  pub prunes :
      (s : S) (cutoff : ℕ)
      → ((store.prune s cutoff batch_size).0 ≡ ok (min batch_size (remaining s cutoff)))
        × (remaining (store.prune s cutoff batch_size).1 cutoff ≡ remaining s cutoff - batch_size)
  pub counts :
      (s : S) (cutoff : ℕ)
      → ((store.count s cutoff cap).0 ≡ ok (min cap (remaining s cutoff)))
        × (remaining (store.count s cutoff cap).1 cutoff ≡ remaining s cutoff)

module _ {S : Type 0} (store : Store S) (remaining : S → ℕ → ℕ)
    (batch_size estimate_cap cutoff : ℕ) where
  -- The loop gives no error, its rows and what remains make the total, it prunes so many batches at
  -- most, and a last batch that was not full leaves nothing.
  abbrev pub Counted : ℕ → ℕ → Pruned × S → Type 0
  Counted total most (err error, s) = ⊥
  Counted total most (ok (rows, full), s) =
      (rows + remaining s cutoff ≡ total) × (rows ≤ most) × (full ≡ false → remaining s cutoff ≡ 0)

  batches-Counted :
      (s : S) (left : ℕ) (late : ℕ → Bool) (rows total most : ℕ)
      → Documented store remaining batch_size estimate_cap
      → rows + remaining s cutoff ≡ total
      → total ≤ u64_max
      → rows + left * batch_size ≤ most
      → Counted total most (batches store batch_size estimate_cap s cutoff left late rows true)
  unfolding batches
  batches-Counted s zero late rows total most doc sum fits le = ground arith
  batches-Counted s (suc left) late rows total most doc sum fits le =
      let s' = (store.prune s cutoff batch_size).1 in
      let (count, after) = doc.prunes s cutoff in
      elim (Bool-cases (leb batch_size (remaining s cutoff))) [
        | inl full ↦
            let enough : batch_size ≤ remaining s cutoff = ground (arith, full) in
            ground (
              arith,
              count,
              after,
              batches-Counted s' left late (rows + batch_size) total most doc (omega (arith, after))
                  fits (omega arith),
            )
        | inr last ↦ ground (arith, count, after)
      ]

  batches_first :
      (s : S) (left : ℕ) (late : ℕ → Bool)
      → late left ≡ false
      → batches store batch_size estimate_cap s cutoff (suc left) late 0 false
        ≡ batches store batch_size estimate_cap s cutoff (suc left) late 0 true
  unfolding batches
  batches_first s left late h = ground arith

  -- A pass gives no error, its rows and what remains make the total, it prunes so many at most, and
  -- its backlog is what remains, up to the cap.
  abbrev pub Reported : ℕ → ℕ → Answer PassResult × S → Type 0
  Reported total most (err error, s) = ⊥
  Reported total most (ok pass, s) =
      (pass.rows + remaining s cutoff ≡ total)
      × (pass.rows ≤ most)
      × (pass.backlog ≡ min estimate_cap (remaining s cutoff))

  backlog_of-Reported :
      (total most : ℕ) (pruned : Pruned × S)
      → Documented store remaining batch_size estimate_cap
      → Counted total most pruned
      → Reported total most (backlog_of store batch_size estimate_cap cutoff pruned)
  unfolding backlog_of
  backlog_of-Reported total most (err error, s) doc h = absurd h
  backlog_of-Reported total most (ok (rows, false), s) doc (sum, le, none_left) =
      ground (arith, sum, le, none_left refl)
  backlog_of-Reported total most (ok (rows, true), s) doc (sum, le, none_left) =
      let (count, after) = doc.counts s cutoff in ground (arith, sum, le, count, after)

module _ {S : Type 0} (store : Store S) (remaining : S → ℕ → ℕ) (batch_size estimate_cap : ℕ) where
  -- A pass that gets to its first batch in time reports honestly, if the store works as documented
  -- for its batch size and cap, and the rows to prune are a `u64`: the rows that it pruned, with those
  -- past the retention that are left, are those that were there; it prunes `max_batches` batches at
  -- most; and its backlog is what is left, up to the cap.
  pub run_pass-Reported :
      (s : S) (now retention_secs left : ℕ) (late : ℕ → Bool)
      → Documented store remaining batch_size estimate_cap
      → remaining s (now - retention_secs) ≤ u64_max
      → late left ≡ false
      → Reported store remaining batch_size estimate_cap
          (now - retention_secs)
          (remaining s (now - retention_secs))
          (suc left * batch_size)
          (run_pass store batch_size estimate_cap s now retention_secs (suc left) late)
  unfolding run_pass
  run_pass-Reported s now retention_secs left late doc fits in_time =
      let cutoff = now - retention_secs in
      rw (batches_first store remaining batch_size estimate_cap cutoff s left late in_time) (
        backlog_of-Reported store remaining batch_size estimate_cap cutoff (remaining s cutoff)
          (suc left * batch_size)
          (batches store batch_size estimate_cap s cutoff (suc left) late 0 true) doc
          (batches-Counted store remaining batch_size estimate_cap cutoff s (suc left) late 0
            (remaining s cutoff) (suc left * batch_size) doc (omega arith) fits (omega arith)))

-- Whether the last two of a list of backlogs, the latest last, are both not 0.
abbrev pub both_behind : Bool → List ℕ → Bool
both_behind before [] = false
both_behind before (backlog ∷ []) = before && ltb 0 backlog
both_behind before (backlog ∷ next ∷ rest) = both_behind (ltb 0 backlog) (next ∷ rest)

-- The warning of the last of the passes.
unfoldable pub passes : BehindTracker → List ℕ → Bool
passes tracker [] = false
passes tracker (backlog ∷ []) = (consecutive_backlog tracker backlog).0
passes tracker (backlog ∷ next ∷ rest) =
    passes (consecutive_backlog tracker backlog).1 (next ∷ rest)

-- The pruner warns exactly after two passes in a row that left a backlog.
pub passes-both_behind :
    (tracker : BehindTracker) (backlogs : List ℕ)
    → passes tracker backlogs ≡ both_behind tracker.last_pass_behind backlogs
unfolding passes consecutive_backlog
passes-both_behind tracker [] = refl
passes-both_behind tracker (backlog ∷ []) = ground arith
passes-both_behind tracker (backlog ∷ next ∷ rest) =
    passes-both_behind (record { last_pass_behind = ltb 0 backlog }) (next ∷ rest)
