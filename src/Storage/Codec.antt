-- ===== src/Storage/Codec.antt =====
-- crates/storage/src/codec.rs, and the parameters of the statements on `monitors` in lib.rs. A column
-- of integers holds an `i64`; `debug` prints a text in quotes.
pub mod RoundTrip
mod Tests
use monitra.Base.{
  ℕ, ◌+◌, ◌-◌, String, ◌<>◌, Bool, true, false, Option, none, some, List, [], ◌∷◌, ◌||◌, ltb, leb,
  str_eq as ◌==◌, if◌then◌else◌,
}
use monitra.Models.{
  MonitorKind, http, tcp, icmp, k8s_deployment, k8s_stateful_set, k8s_service, host_agent_check,
  MonitorStatus, pending, up, down, paused, stale, unknown, Monitor, valid_interval_secs,
  min_interval_secs, max_interval_secs,
}

-- `i64`: what is not negative, and -1 less the number.
pub data ℤ : Type 0 where
  pos negsuc : ℕ → ℤ

-- The casts keep the 64 bits.
abbrev pub as_i64 : ℕ → ℤ
as_i64 n = if ltb n 9223372036854775808 then pos n else negsuc (18446744073709551615 - n)

abbrev pub as_u64 : ℤ → ℕ
as_u64 (pos n) = n
as_u64 (negsuc n) = 18446744073709551615 - n

-- `u64::try_from(value).unwrap_or(0)`.
abbrev pub try_u64 : ℤ → ℕ
try_u64 (pos n) = n
try_u64 (negsuc n) = 0

-- `Result<_, StorageError>` with `CorruptRow`.
pub data Decoded {ℓ} (A : Type ℓ) : Type ℓ where
  ok : A → Decoded A
  corrupt_row : String → Decoded A

unfoldable pub monitor_kind_to_str : MonitorKind → String
monitor_kind_to_str http = "http"
monitor_kind_to_str tcp = "tcp"
monitor_kind_to_str icmp = "icmp"
monitor_kind_to_str k8s_deployment = "k8s_deployment"
monitor_kind_to_str k8s_stateful_set = "k8s_stateful_set"
monitor_kind_to_str k8s_service = "k8s_service"
monitor_kind_to_str host_agent_check = "host_agent_check"

unfoldable pub monitor_status_to_str : MonitorStatus → String
monitor_status_to_str pending = "pending"
monitor_status_to_str up = "up"
monitor_status_to_str down = "down"
monitor_status_to_str paused = "paused"
monitor_status_to_str stale = "stale"
monitor_status_to_str unknown = "unknown"

module _ (debug : String → String) where
  unfoldable pub monitor_kind_from_str : String → Decoded MonitorKind
  monitor_kind_from_str s =
      if s == "http"
      then ok http
      else (if s == "tcp"
          then ok tcp
          else (if s == "icmp"
              then ok icmp
              else (if s == "k8s_deployment"
                  then ok k8s_deployment
                  else (if s == "k8s_stateful_set"
                      then ok k8s_stateful_set
                      else (if s == "k8s_service"
                          then ok k8s_service
                          else (if s == "host_agent_check"
                              then ok host_agent_check
                              else corrupt_row
                                  ("monitors.kind holds unrecognized value " <> debug s)))))))

  unfoldable pub monitor_status_from_str : String → Decoded MonitorStatus
  monitor_status_from_str s =
      if s == "pending"
      then ok pending
      else (if s == "up"
          then ok up
          else (if s == "down"
              then ok down
              else (if s == "paused"
                  then ok paused
                  else (if s == "stale"
                      then ok stale
                      else (if s == "unknown"
                          then ok unknown
                          else corrupt_row
                              ("status column holds unrecognized value " <> debug s))))))

pub record MonitorRow : Type 0 where
  pub id : ℤ
  pub name : String
  pub target : String
  pub kind : String
  pub interval_secs : ℤ
  pub status : String
  pub agent_id : Option ℤ

abbrev pub map_u64 : Option ℤ → Option ℕ
map_u64 none = none
map_u64 (some v) = some (as_u64 v)

abbrev pub map_i64 : Option ℕ → Option ℤ
map_i64 none = none
map_i64 (some v) = some (as_i64 v)

-- The monitor once its kind and its status are read: `?` on each.
unfoldable pub assembled :
    MonitorRow → Decoded MonitorKind → Decoded MonitorStatus → Decoded Monitor
assembled row (corrupt_row detail) status = corrupt_row detail
assembled row (ok kind) (corrupt_row detail) = corrupt_row detail
assembled row (ok kind) (ok status) = ok (record {
  id = as_u64 row.id;
  name = row.name;
  target = row.target;
  kind = kind;
  interval_secs = try_u64 row.interval_secs;
  status = status;
  agent_id = map_u64 row.agent_id;
})

unfoldable pub row_to_monitor : (String → String) → MonitorRow → Decoded Monitor
unfolding assembled
row_to_monitor debug row = assembled row (monitor_kind_from_str debug row.kind) (
    if valid_interval_secs (try_u64 row.interval_secs)
    then monitor_status_from_str debug row.status
    else ok unknown)

-- The row of `insert_monitor`, under the row id that it is given.
unfoldable pub inserted_row : ℤ → Monitor → MonitorRow
inserted_row rowid m = record {
  id = rowid;
  name = m.name;
  target = m.target;
  kind = monitor_kind_to_str m.kind;
  interval_secs = as_i64 m.interval_secs;
  status = monitor_status_to_str m.status;
  agent_id = map_i64 m.agent_id;
}

-- `value < 1 OR value > 86400`, on the column.
abbrev pub out_of_range : ℤ → Bool
out_of_range (pos n) = ltb n min_interval_secs || ltb max_interval_secs n
out_of_range (negsuc n) = true

-- `COALESCE`.
abbrev pub coalesce {ℓ} : {A : Type ℓ} → Option A → A → A
coalesce none old = old
coalesce (some new) old = new

abbrev pub coalesce_null : Option ℤ → Option ℤ → Option ℤ
coalesce_null none old = old
coalesce_null (some new) old = some new

abbrev pub status_after : String → ℤ → Option ℤ → String
status_after status interval_secs none = status
status_after status interval_secs (some new) =
    if out_of_range interval_secs then "pending" else status

-- `UPDATE monitors SET …`, on the row of the identifier: every expression reads the old row.
unfoldable pub updated_row :
    MonitorRow → Option String → Option String → Option ℕ → Option ℕ → MonitorRow
updated_row row name target interval_secs agent_id = record {
  id = row.id;
  name = coalesce name row.name;
  target = coalesce target row.target;
  kind = row.kind;
  interval_secs = coalesce (map_i64 interval_secs) row.interval_secs;
  status = status_after row.status row.interval_secs (map_i64 interval_secs);
  agent_id = coalesce_null (map_i64 agent_id) row.agent_id;
}
