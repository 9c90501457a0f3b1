-- ===== src/Engine/Alerts.antt =====
-- crates/engine/src/alerts.rs: each transition is delivered, or queued for it, and recorded. The
-- sink is that of the notifier, the store is a parameter, and `decimal` prints a `u64`.
use monitra.Base.{ℕ, String, ◌<>◌, Bool, List, [], ◌∷◌}
use monitra.Models.{MonitorStatus, pending, up, down, paused, stale, unknown, AlertEvent}
use monitra.Provider.Cache.{Answer}
use monitra.Provider.Notifier.{
  DeliveryOutcome, sent, queued, RetryingNotifier, notify_recording_outcome, drain_retries,
}

pub record AlertRequest : Type 0 where
  pub monitor_id : ℕ
  pub monitor_name : String
  pub transitioned_to : MonitorStatus

-- The derived `{:?}`.
abbrev pub debug : MonitorStatus → String
debug pending = "Pending"
debug up = "Up"
debug down = "Down"
debug paused = "Paused"
debug stale = "Stale"
debug unknown = "Unknown"

unfoldable pub message : (ℕ → String) → AlertRequest → String
message decimal request =
    "monitor '"
    <> request.monitor_name
    <> "' ("
    <> decimal request.monitor_id
    <> ") transitioned to "
    <> debug request.transitioned_to

abbrev pub outcome_text : DeliveryOutcome → String
outcome_text sent = "sent"
outcome_text queued = "queued for retry"

-- What the `select!` picks: a request, with the time at which it is recorded, or a tick.
pub data Event : Type 0 where
  received : AlertRequest → ℕ → Event
  tick : Event

module _ {S D : Type 0} (deliver : S → String → Bool × S) (inner_name : String)
    (decimal : ℕ → String) (insert_alert_event : D → AlertEvent → Answer AlertEvent × D) where
  -- The notifier and the store afterwards. An error of the store is only logged.
  unfoldable pub handle_request : RetryingNotifier S → D → AlertRequest → ℕ → RetryingNotifier S × D
  unfolding message
  handle_request notifier store request now_secs =
      let (outcome, notifier') =
        notify_recording_outcome deliver notifier (message decimal request) in
      let (answer, store') = insert_alert_event store (record {
        id = 0;
        monitor_id = request.monitor_id;
        transitioned_to = request.transitioned_to;
        occurred_at = now_secs;
        sinks_attempted = inner_name;
        delivery_outcome = outcome_text outcome;
      }) in
      (notifier', store')

  -- The notifier and the store after the events.
  unfoldable pub run : RetryingNotifier S → D → List Event → RetryingNotifier S × D
  unfolding handle_request
  run notifier store [] = (notifier, store)
  run notifier store (received request now_secs ∷ rest) =
      let (notifier', store') = handle_request notifier store request now_secs in
      run notifier' store' rest
  run notifier store (tick ∷ rest) = run (drain_retries deliver notifier) store rest
