-- ===== src/Backend/Handlers/OverSqlite.antt =====
-- The handlers over the SQLite store.
use monitra.Base.{
  ℕ, ◌<◌, ◌≡◌, refl, ap, ◌∙◌, String, true, false, Option, none, some, List, [], ◌∷◌, ◌++◌, map,
  arith, Option-cases, inl, inr, is_some,
}
use monitra.Models.{Monitor, MonitorKind, pending, valid_interval_secs}
use monitra.Storage.Codec.{
  ℤ, as_i64, as_u64, MonitorRow, row_to_monitor, inserted_row, ok as decoded,
}
use monitra.Storage.Codec.RoundTrip.{u64_bound, Fits, as-u64-i64, row_to_monitor-inserted}
use monitra.Base.Eq.{same_self}
use monitra.Storage.Rows.{int_Eq, has, select}
use monitra.Storage.Rows.Laws.{select-has}
use monitra.Storage.Rows.Selection.{select-append}
use monitra.Storage.Error.{into, ok as stored_ok}
use monitra.Storage.Sqlite.{Db, execute_on, execute, query_optional, stored, run_blocking}
use monitra.Storage.Sqlite.Monitors.{
  links, insert_monitor, get_monitor, update_monitor, set_monitor_status, delete_monitor,
}
use monitra.Storage.Sqlite.Provider.{sqlite, blocking}
use monitra.Backend.Error.{
  not_found_404, ok, created, Reply, ok_with, reply, from, status_of, into_response,
}
use monitra.Backend.Service.{add_monitor, check_interval, checked}
use monitra.Backend.Service
use monitra.Provider.Store.{Store}
use monitra.Provider.Cache.{ok as answered}
use monitra.Backend.Dto.{MonitorDto, monitor_dto}
use monitra.Backend.Handlers.{
  parse_interval, parse_edit, create, show, remove, pause, resume, edit, or_not_found,
}

-- The monitor that a request creates.
abbrev pub requested : String → String → MonitorKind → ℕ → Option ℕ → Monitor
requested name target kind interval_secs agent_id = record {
  id = 0;
  name = name;
  target = target;
  kind = kind;
  interval_secs = interval_secs;
  status = pending;
  agent_id = agent_id;
}

-- The body that it is answered with.
abbrev pub fresh_body : String → String → MonitorKind → ℕ → Option ℕ → ℕ → MonitorDto
fresh_body name target kind interval_secs agent_id id = record {
  id = id;
  name = name;
  target = target;
  kind = kind;
  interval_secs = interval_secs;
  status = pending;
  status_reason = none;
  agent_id = agent_id;
}

dto-fresh_body :
    (name target : String) (kind : MonitorKind) (interval_secs : ℕ) (agent_id : Option ℕ) (id : ℕ)
    → valid_interval_secs interval_secs ≡ true
    → monitor_dto (record (requested name target kind interval_secs agent_id) { id = id })
      ≡ fresh_body name target kind interval_secs agent_id id
unfolding monitor_dto
dto-fresh_body name target kind interval_secs agent_id id valid = rw valid refl

created_reply :
    {S : Type 0} (ops : Store S) (s : S) (name target : String) (kind : MonitorKind)
    (interval_secs : ℕ) (agent_id : Option ℕ) (m : Monitor) (after : S)
    → valid_interval_secs interval_secs ≡ true
    → ops.insert_monitor s (requested name target kind interval_secs agent_id) ≡ (answered m, after)
    → create {Value = ℕ} some ops s name target kind (some interval_secs) agent_id
      ≡ (ok_with created (monitor_dto m), after)
unfolding create parse_interval add_monitor check_interval checked reply
created_reply ops s name target kind interval_secs agent_id m after valid stored_as =
    ground (arith, valid, stored_as)

insert-sqlite :
    (decimal : ℕ → String) (debug : String → String) (rowid : List ℤ → ℤ) (db : Db) (m : Monitor)
    (id : ℕ)
    → valid_interval_secs m.interval_secs ≡ true
    → links db m.agent_id ≡ true
    → rowid (map MonitorRow.id db.monitors) ≡ as_i64 id
    → (sqlite decimal debug rowid).insert_monitor db m ≡ (
      answered (record m { id = as_u64 (as_i64 id) }),
      record db { monitors = db.monitors ++ inserted_row (as_i64 id) m ∷ [] },
    )
unfolding sqlite blocking run_blocking insert_monitor execute
insert-sqlite decimal debug rowid db m id valid linked row = rw (valid, row, linked) refl

module _ (decimal : ℕ → String) (debug : String → String) (rowid : List ℤ → ℤ) where
  -- A reply of 404, and nothing changed.
  abbrev pub Missing : {A : Type 0} → Db → Reply A × Db → Type 0
  Missing db ended = (status_of decimal ended.0 ≡ not_found_404) × (ended.1 ≡ db)

  gone-select :
      (db : Db) (k : ℤ)
      → has MonitorRow.id k db.monitors ≡ false
      → select MonitorRow.id k db.monitors ≡ none
  gone-select db k gone = elim (Option-cases (select MonitorRow.id k db.monitors)) [
    | inl e ↦ e
    | inr (row, e) ↦
        absurd (ground (arith, gone, ap is_some e, select-has MonitorRow.id k db.monitors))
  ]

  -- Where SQLite meets no error of its own: for an identifier that no monitor has, to show it is
  -- answered with the status 404, and the removal, the pause, the resumption and an edit without an
  -- interval are answered with the status 404 and change nothing.
  pub absent-Missing :
      (db : Db) (id : ℕ) (name target : Option String) (agent_id : Option ℕ)
      → has MonitorRow.id (as_i64 id) db.monitors ≡ false
      → (status_of decimal (show (sqlite decimal debug rowid) db id) ≡ not_found_404)
        × Missing db (remove (sqlite decimal debug rowid) db id)
        × Missing db (pause (sqlite decimal debug rowid) db id)
        × Missing db (resume (sqlite decimal debug rowid) db id)
        × Missing db
            (edit {Value = ℕ} some (sqlite decimal debug rowid) db id name target none agent_id)
  unfolding remove pause resume sqlite blocking run_blocking execute_on delete_monitor
      set_monitor_status into from reply Service.remove_monitor Service.pause_monitor
      Service.resume_monitor edit parse_edit Service.edit_monitor checked update_monitor show
      or_not_found Service.get_monitor get_monitor query_optional status_of into_response
  absent-Missing db id name target agent_id gone =
      rw (gone, gone-select db (as_i64 id) gone)
        (refl, (refl, refl), (refl, refl), (refl, refl), (refl, refl))

  query-found :
      (row : MonitorRow) (m : Monitor)
      → row_to_monitor debug row ≡ decoded m
      → query_optional none (row_to_monitor debug) (some row) ≡ stored_ok (some m)
  unfolding query_optional stored
  query-found row m e = ground (arith, e)

  pub shown :
      (db : Db) (id : ℕ) (row : MonitorRow) (m : Monitor)
      → select MonitorRow.id (as_i64 id) db.monitors ≡ some row
      → row_to_monitor debug row ≡ decoded m
      → show (sqlite decimal debug rowid) db id ≡ ok_with ok (monitor_dto m)
  unfolding show or_not_found Service.get_monitor get_monitor sqlite run_blocking reply
  shown db id row m found e = rw (found, query-found row m e) refl

  -- Where SQLite meets no error of its own, a monitor that is created, under an id that is not in use,
  -- is answered with 201 and a body of just the requested fields, that id, and the status pending,
  -- and a request that shows it right after is answered with 200 and the same body; where its
  -- interval is valid, its agent, if it has one, is registered, and the ids are of 64 bits.
  pub create-show :
      (db : Db) (name target : String) (kind : MonitorKind) (interval_secs : ℕ)
      (agent_id : Option ℕ) (id : ℕ)
      → valid_interval_secs interval_secs ≡ true
      → links db agent_id ≡ true
      → Fits agent_id
      → id < u64_bound
      → rowid (map MonitorRow.id db.monitors) ≡ as_i64 id
      → has MonitorRow.id (as_i64 id) db.monitors ≡ false
      → let body = fresh_body name target kind interval_secs agent_id id in
        let made =
          create {Value = ℕ} some
            (sqlite decimal debug rowid)
            db
            name
            target
            kind
            (some interval_secs)
            agent_id in
        (made.0 ≡ ok_with created body)
        × (show (sqlite decimal debug rowid) made.1 id ≡ ok_with ok body)
  create-show db name target kind interval_secs agent_id id valid linked fits le row fresh =
      rw made (
        ap
              (λ n. ok_with created (
                monitor_dto
                  (record (requested name target kind interval_secs agent_id) { id = n })))
              (as-u64-i64 id le)
            ∙ ap (ok_with created)
                (dto-fresh_body name target kind interval_secs agent_id id valid),
        shown
              (record db {
                monitors =
                    db.monitors
                    ++ inserted_row (as_i64 id) (requested name target kind interval_secs agent_id)
                      ∷ [];
              })
              id (inserted_row (as_i64 id) (requested name target kind interval_secs agent_id))
              (record (requested name target kind interval_secs agent_id) { id = id })
              (unfold inserted_row in
                ground (
                  arith,
                  select-append MonitorRow.id (as_i64 id) db.monitors
                      (inserted_row (as_i64 id) (requested name target kind interval_secs agent_id))
                      fresh,
                  same_self (as_i64 id),
                ))
              (row_to_monitor-inserted debug id (requested name target kind interval_secs agent_id)
                le fits valid)
            ∙ ap (ok_with ok) (dto-fresh_body name target kind interval_secs agent_id id valid),
      )
    where
      made :
          create {Value = ℕ} some
            (sqlite decimal debug rowid)
            db
            name
            target
            kind
            (some interval_secs)
            agent_id
          ≡ (
            ok_with created (
                monitor_dto (record (requested name target kind interval_secs agent_id) {
                  id = as_u64 (as_i64 id);
                })),
            record db {
              monitors =
                  db.monitors
                  ++ inserted_row (as_i64 id) (requested name target kind interval_secs agent_id)
                    ∷ [];
            },
          )
      made =
          created_reply (sqlite decimal debug rowid) db name target kind interval_secs agent_id _ _
            valid
            (insert-sqlite decimal debug rowid db
              (requested name target kind interval_secs agent_id) id valid linked row)
