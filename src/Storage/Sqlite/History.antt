-- ===== src/Storage/Sqlite/History.antt =====
-- The alert task of crates/engine/src/alerts.rs over the SQLite store.
use monitra.Base.{
  ℕ, String, ◌≡◌, refl, sym, ap, ◌∙◌, Bool, true, false, not, ◌&&◌, List, [], ◌∷◌, ◌++◌, append-nil,
  append_assoc, map, is_some, if◌then◌else◌, arith, subst, Bool-cases, Option-cases, inl, inr,
}
use mathlib.Core.List.{map-append}
use monitra.Models.{AlertEvent}
use monitra.Provider.Cache.{Answer}
use monitra.Provider.Notifier.{RetryingNotifier, notify_recording_outcome, drain_retries}
use monitra.Engine.Alerts.{
  AlertRequest, message, outcome_text, Event, received, tick, handle_request, run,
}
use monitra.Storage.Codec.{ℤ, as_i64, MonitorRow, monitor_status_to_str}
use monitra.Storage.Records.{AlertEventRow, alert_event_row}
use monitra.Storage.Rows.{int_Eq, has}
use monitra.Storage.Sqlite.{Db, Fault, execute}
use monitra.Storage.Sqlite.Alerts.{insert_alert_event}
use monitra.Storage.Sqlite.Provider.{blocking}

-- What a row of the history tells: monitor, status, time, sink and outcome.
abbrev pub Told : Type 0
Told = ℤ × String × ℤ × String × String

abbrev pub told : AlertEventRow → Told
told row = (
  row.monitor_id, row.transitioned_to, row.occurred_at, row.sinks_attempted, row.delivery_outcome,
)

-- The history after an insertion that is taken or not.
abbrev with_event : Bool → Db → AlertEventRow → Db
with_event true db row = record db { alert_events = db.alert_events ++ row ∷ [] }
with_event false db row = db

-- `fault` is the error of SQLite's own that an insertion at a time meets, if it meets one.
module _ {S : Type 0} (deliver : S → String → Bool × S) (inner_name : String) (decimal : ℕ → String)
    (rowid : List ℤ → ℤ) (fault : ℕ → Fault) where
  abbrev pub insertion : Db → AlertEvent → Answer AlertEvent × Db
  insertion db event =
      blocking decimal (insert_alert_event rowid (fault event.occurred_at) db event)

  -- Whether the table takes an event of a monitor at a time: the monitor is there, and there is no error.
  abbrev pub is_taken : List MonitorRow → ℕ → ℕ → Bool
  is_taken monitors monitor_id now_secs =
      has MonitorRow.id (as_i64 monitor_id) monitors && not (is_some (fault now_secs))

  abbrev pub entry : AlertRequest → ℕ → Bool → Told
  entry request now_secs delivered = (
    as_i64 request.monitor_id,
    monitor_status_to_str request.transitioned_to,
    as_i64 now_secs,
    inner_name,
    if delivered then "sent" else "queued for retry",
  )

  -- What is to be recorded: an entry for each request whose event is taken, that tells whether the
  -- sink took its message at once.
  unfoldable pub recorded : RetryingNotifier S → List MonitorRow → List Event → List Told
  recorded notifier monitors [] = []
  recorded notifier monitors (received request now_secs ∷ rest) =
      let text = message decimal request in
      let later = recorded (notify_recording_outcome deliver notifier text).1 monitors rest in
      if is_taken monitors request.monitor_id now_secs
      then entry request now_secs (deliver notifier.inner text).0 ∷ later
      else later
  recorded notifier monitors (tick ∷ rest) = recorded (drain_retries deliver notifier) monitors rest

  -- The tables after the events.
  abbrev pub after : RetryingNotifier S → Db → List Event → Db
  after notifier db events = (run deliver inner_name decimal insertion notifier db events).1

  insertion-with_event :
      (db : Db) (event : AlertEvent)
      → (insertion db event).1
        ≡ with_event
            (is_taken db.monitors event.monitor_id event.occurred_at)
            db
            (alert_event_row (rowid (map AlertEventRow.id db.alert_events)) event)
  unfolding insert_alert_event execute blocking
  insertion-with_event db event =
      elim (Bool-cases (has MonitorRow.id (as_i64 event.monitor_id) db.monitors)) [
        | inl there ↦ elim (Option-cases (fault event.occurred_at)) [
          | inl quiet ↦ rw (there, quiet, execute) refl
          | inr (source, met) ↦ rw (there, met, execute) refl
        ]
        | inr gone ↦ elim (Option-cases (fault event.occurred_at)) [
          | inl quiet ↦ rw (gone, quiet, execute) refl
          | inr (source, met) ↦ rw (gone, met, execute) refl
        ]
      ]

  -- The history has grown by these entries, and nothing else has changed.
  abbrev pub GrewBy : List Told → Db → Db → Type 0
  GrewBy entries db db' =
      (map told db'.alert_events ≡ map told db.alert_events ++ entries)
      × (db' ≡ record db { alert_events = db'.alert_events })

  with_event-GrewBy :
      (taken : Bool) (db db' : Db) (row : AlertEventRow) (first : Told) (later : List Told)
      → told row ≡ first
      → GrewBy later (with_event taken db row) db'
      → GrewBy (if taken then first ∷ later else later) db db'
  with_event-GrewBy true db db' row first later same (grown, rest) = (
    grown
        ∙ ap (λ rows. rows ++ later) (map-append told db.alert_events (row ∷ []))
        ∙ append_assoc (map told db.alert_events) (told row ∷ []) later
        ∙ ap (λ entry. map told db.alert_events ++ entry ∷ later) same,
    rest,
  )
  with_event-GrewBy false db db' row first later same h = h

  outcome_honest :
      (notifier : RetryingNotifier S) (text : String)
      → outcome_text (notify_recording_outcome deliver notifier text).0
        ≡ (if (deliver notifier.inner text).0 then "sent" else "queued for retry")
  unfolding notify_recording_outcome
  outcome_honest notifier text = ground arith

  with_event-monitors :
      (taken : Bool) (db : Db) (row : AlertEventRow)
      → (with_event taken db row).monitors ≡ db.monitors
  with_event-monitors true db row = refl
  with_event-monitors false db row = refl

  -- Whatever the sink does, and at whatever times SQLite meets an error of its own: after any requests
  -- and ticks the history is what it was, followed by one entry for each request whose monitor is
  -- there and whose insertion meets no error, in order, with its monitor, status and time, the name of
  -- the sink, and whether the sink took the message at once; and nothing else in the tables has
  -- changed. A request whose event is refused leaves no entry, and the later ones are recorded.
  pub run-recorded :
      (notifier : RetryingNotifier S) (db : Db) (events : List Event)
      → GrewBy (recorded notifier db.monitors events) db (after notifier db events)
  unfolding run handle_request recorded
  run-recorded notifier db [] = (sym (append-nil (map told db.alert_events)), refl)
  run-recorded notifier db (received request now_secs ∷ rest) =
      let text = message decimal request in
      let notified = notify_recording_outcome deliver notifier text in
      let event : AlertEvent = record {
        id = 0;
        monitor_id = request.monitor_id;
        transitioned_to = request.transitioned_to;
        occurred_at = now_secs;
        sinks_attempted = inner_name;
        delivery_outcome = outcome_text notified.0;
      } in
      let row = alert_event_row (rowid (map AlertEventRow.id db.alert_events)) event in
      let taken = is_taken db.monitors request.monitor_id now_secs in
      with_event-GrewBy taken db _ row (entry request now_secs (deliver notifier.inner text).0)
        (recorded notified.1 db.monitors rest)
        (unfold alert_event_row in
          ap
            (λ outcome. (
              as_i64 request.monitor_id,
              monitor_status_to_str request.transitioned_to,
              as_i64 now_secs,
              inner_name,
              outcome,
            ))
            (outcome_honest notifier text))
        (subst
          (λ store.
            GrewBy (recorded notified.1 db.monitors rest) store
              (after notified.1 (insertion db event).1 rest))
          (insertion-with_event db event)
          (subst
            (λ monitors.
              GrewBy (recorded notified.1 monitors rest) (insertion db event).1
                (after notified.1 (insertion db event).1 rest))
            (ap Db.monitors (insertion-with_event db event) ∙ with_event-monitors taken db row)
            (run-recorded notified.1 (insertion db event).1 rest)))
  run-recorded notifier db (tick ∷ rest) = run-recorded (drain_retries deliver notifier) db rest
