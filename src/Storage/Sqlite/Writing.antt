-- ===== src/Storage/Sqlite/Writing.antt =====
-- The batched writer of crates/engine/src/writer.rs over the SQLite store.
use mathlib.Core.List.{map-append}
use monitra.Base.{
  ℕ, ◌≡◌, refl, sym, ap, ◌∙◌, Bool, true, false, ◌&&◌, List, [], ◌∷◌, ◌++◌, map, append-nil,
  append_assoc, arith, leb, length, Bool-cases, inl, inr,
}
use monitra.Models.{CheckResult}
use monitra.Storage.Records.{result_row}
use monitra.Storage.Codec.{MonitorRow}
use monitra.Storage.Error.{Stored, ok, err}
use monitra.Storage.Sqlite.{Db}
use monitra.Storage.Sqlite.Results.{insert_check_results}
use monitra.Storage.Sqlite.Batch.{quiet, all_owned, with_results, insert_check_results-quiet}
use monitra.Engine.Writer.{Event, received, tick, closed, Writer, written, flush, push, run}
use monitra.Engine.Writer.Batches.{accepted}

abbrev pub is_ok : Stored (Unit {0}) → Bool
is_ok (ok _) = true
is_ok (err _) = false

-- The store that the writer is given, where SQLite meets no error of its own.
unfoldable pub taking : Db → List CheckResult → Bool × Db
taking db results = let (answer, db') = insert_check_results quiet db results in (is_ok answer, db')

all_owned-append :
    (monitors : List MonitorRow) (xs ys : List CheckResult)
    → all_owned monitors (xs ++ ys) ≡ all_owned monitors xs && all_owned monitors ys
all_owned-append monitors [] ys = refl
all_owned-append monitors (x ∷ xs) ys = ground (arith, all_owned-append monitors xs ys)

owned_front :
    (monitors : List MonitorRow) (xs ys : List CheckResult)
    → all_owned monitors (xs ++ ys) ≡ true
    → all_owned monitors xs ≡ true
owned_front monitors xs ys h = ground (arith, all_owned-append monitors xs ys)

owned_back :
    (monitors : List MonitorRow) (xs ys : List CheckResult)
    → all_owned monitors (xs ++ ys) ≡ true
    → all_owned monitors ys ≡ true
owned_back monitors xs ys h = ground (arith, all_owned-append monitors xs ys)

with_results-append :
    (db : Db) (xs ys : List CheckResult)
    → with_results (with_results db xs) ys ≡ with_results db (xs ++ ys)
with_results-append db xs ys =
    ap (λ rows. record db { check_results = rows })
      (append_assoc db.check_results (map result_row xs) (map result_row ys)
        ∙ ap (λ rows. db.check_results ++ rows) (sym (map-append result_row xs ys)))

with_results-nil : (db : Db) → with_results db [] ≡ db
with_results-nil db = ap (λ rows. record db { check_results = rows }) (append-nil db.check_results)

written-sqlite :
    (db : Db) (batch : List CheckResult)
    → all_owned db.monitors batch ≡ true
    → written taking db batch ≡ with_results db batch
unfolding written taking
written-sqlite db [] owned = sym (with_results-nil db)
written-sqlite db (result ∷ batch) owned =
    ap (λ ended. ended.1) (insert_check_results-quiet db (result ∷ batch)) ∙ ground (arith, owned)

flush-sqlite :
    (w : Writer Db)
    → all_owned w.store.monitors w.batch ≡ true
    → flush taking w ≡ record { store = with_results w.store w.batch; batch = [] }
unfolding flush
flush-sqlite w owned =
    ap (λ db. record { store = db; batch = [] }) (written-sqlite w.store w.batch owned)

push_full :
    (batch_size : ℕ) (w : Writer Db) (result : CheckResult)
    → leb batch_size (length (w.batch ++ result ∷ [])) ≡ true
    → push taking batch_size w result ≡ flush taking (record w { batch = w.batch ++ result ∷ [] })
unfolding push
push_full batch_size w result full = rw full refl

push_room :
    (batch_size : ℕ) (w : Writer Db) (result : CheckResult)
    → leb batch_size (length (w.batch ++ result ∷ [])) ≡ false
    → push taking batch_size w result ≡ record w { batch = w.batch ++ result ∷ [] }
unfolding push
push_room batch_size w result room = rw room refl

-- The end of a run, which the results still to come are given to.
abbrev pub RunsTo : ℕ → List Event → Writer Db → Type 0
RunsTo batch_size events w =
    (run taking batch_size w (events ++ closed ∷ [])).store
    ≡ with_results w.store (w.batch ++ accepted (events ++ closed ∷ []))

RunsTo-flush :
    (batch_size : ℕ) (w : Writer Db) (events : List Event)
    → all_owned w.store.monitors w.batch ≡ true
    → RunsTo batch_size events (record { store = with_results w.store w.batch; batch = [] })
    → (run taking batch_size (flush taking w) (events ++ closed ∷ [])).store
      ≡ with_results w.store (w.batch ++ accepted (events ++ closed ∷ []))
RunsTo-flush batch_size w events owned later =
    ap (λ v. (run taking batch_size v (events ++ closed ∷ [])).store) (flush-sqlite w owned)
    ∙ later
    ∙ with_results-append w.store w.batch (accepted (events ++ closed ∷ []))

run-RunsTo :
    (batch_size : ℕ) (w : Writer Db) (events : List Event)
    → all_owned w.store.monitors (w.batch ++ accepted (events ++ closed ∷ [])) ≡ true
    → RunsTo batch_size events w
unfolding run
run-RunsTo batch_size w [] owned =
    unfold flush in
    written-sqlite w.store w.batch (owned_front w.store.monitors w.batch [] owned)
    ∙ ap (λ results. with_results w.store results) (sym (append-nil w.batch))
run-RunsTo batch_size w (closed ∷ events) owned =
    unfold flush in
    written-sqlite w.store w.batch (owned_front w.store.monitors w.batch [] owned)
    ∙ ap (λ results. with_results w.store results) (sym (append-nil w.batch))
run-RunsTo batch_size w (tick ∷ events) owned =
    let later = accepted (events ++ closed ∷ []) in
    RunsTo-flush batch_size w events (owned_front w.store.monitors w.batch later owned) (
      run-RunsTo batch_size (record { store = with_results w.store w.batch; batch = [] }) events
        (owned_back w.store.monitors w.batch later owned))
run-RunsTo batch_size w (received result ∷ events) owned =
    let later = accepted (events ++ closed ∷ []) in
    let w' : Writer Db = record w { batch = w.batch ++ result ∷ [] } in
    let longer = append_assoc w.batch (result ∷ []) later in
    let owned' = ap (all_owned w.store.monitors) longer ∙ owned in
    elim (Bool-cases (leb batch_size (length w'.batch))) [
      | inl full ↦
          ap (λ v. (run taking batch_size v (events ++ closed ∷ [])).store)
            (push_full batch_size w result full)
          ∙ (RunsTo-flush batch_size w' events (owned_front w.store.monitors w'.batch later owned')
                (run-RunsTo batch_size
                  (record { store = with_results w.store w'.batch; batch = [] }) events
                  (owned_back w.store.monitors w'.batch later owned'))
              ∙ ap (λ results. with_results w.store results) longer)
      | inr room ↦
          ap (λ v. (run taking batch_size v (events ++ closed ∷ [])).store)
            (push_room batch_size w result room)
          ∙ (run-RunsTo batch_size w' events owned'
              ∙ ap (λ results. with_results w.store results) longer)
    ]

-- Once the channel is closed, the table of check results holds what it held, followed by every
-- result that was received, in order, and nothing else has changed; where the monitor of each of
-- them is there and SQLite meets no error of its own.
pub run-sqlite :
    (batch_size : ℕ) (db : Db) (events : List Event)
    → all_owned db.monitors (accepted (events ++ closed ∷ [])) ≡ true
    → (run taking batch_size (record { store = db; batch = [] }) (events ++ closed ∷ [])).store
      ≡ with_results db (accepted (events ++ closed ∷ []))
run-sqlite batch_size db events = run-RunsTo batch_size (record { store = db; batch = [] }) events
