-- ===== src/Storage/Codec/RoundTrip.antt =====
-- Reading the rows that are written.
use monitra.Base.{
  ℕ, ◌<◌, String, ◌≡◌, refl, ap, Bool, true, not, Bool-cases, inl, inr, Option, none, some, arith,
  if◌then◌else◌,
}
use monitra.Models.{
  MonitorKind, http, tcp, icmp, k8s_deployment, k8s_stateful_set, k8s_service, host_agent_check,
  MonitorStatus, pending, up, down, paused, stale, unknown, Monitor, valid_interval_secs,
}
use monitra.Storage.Codec.{
  ℤ, pos, negsuc, as_i64, as_u64, try_u64, ok, monitor_kind_to_str, monitor_status_to_str,
  monitor_kind_from_str, monitor_status_from_str, MonitorRow, map_u64, map_i64, assembled,
  row_to_monitor, inserted_row, updated_row, out_of_range, coalesce, coalesce_null,
}

abbrev pub u64_bound : ℕ
u64_bound = 18446744073709551616

pub as-u64-i64 : (n : ℕ) → n < u64_bound → as_u64 (as_i64 n) ≡ n
as-u64-i64 n h = ground arith

-- Whether an agent's identifier, if there is one, is a `u64`.
abbrev pub Fits : Option ℕ → Type 0
Fits none = Unit {0}
Fits (some n) = n < u64_bound

map-u64-i64 : (agent_id : Option ℕ) → Fits agent_id → map_u64 (map_i64 agent_id) ≡ agent_id
map-u64-i64 none h = refl
map-u64-i64 (some n) h = ap some (as-u64-i64 n h)

-- A field that may be null keeps its value where none is given.
abbrev pub or_old : Option ℕ → Option ℕ → Option ℕ
or_old none old = old
or_old (some new) old = some new

module _ (debug : String → String) where
  -- Each kind is read back from its text.
  kind-from-to :
      (kind : MonitorKind) → monitor_kind_from_str debug (monitor_kind_to_str kind) ≡ ok kind
  unfolding monitor_kind_from_str monitor_kind_to_str
  kind-from-to http = refl
  kind-from-to tcp = refl
  kind-from-to icmp = refl
  kind-from-to k8s_deployment = refl
  kind-from-to k8s_stateful_set = refl
  kind-from-to k8s_service = refl
  kind-from-to host_agent_check = refl

  pub status-from-to :
      (status : MonitorStatus)
      → monitor_status_from_str debug (monitor_status_to_str status) ≡ ok status
  unfolding monitor_status_from_str monitor_status_to_str
  status-from-to pending = refl
  status-from-to up = refl
  status-from-to down = refl
  status-from-to paused = refl
  status-from-to stale = refl
  status-from-to unknown = refl

  try-i64 : (n : ℕ) → valid_interval_secs n ≡ true → try_u64 (as_i64 n) ≡ n
  try-i64 n h = ground arith

  -- A monitor of valid interval that is inserted is read back as it was, under its row id, if its
  -- identifiers are of 64 bits.
  pub row_to_monitor-inserted :
      (id : ℕ) (m : Monitor)
      → id < u64_bound
      → Fits m.agent_id
      → valid_interval_secs m.interval_secs ≡ true
      → row_to_monitor debug (inserted_row (as_i64 id) m) ≡ ok (record m { id = id })
  unfolding row_to_monitor inserted_row
  row_to_monitor-inserted id m h agent valid =
      rw
        (
          kind-from-to m.kind,
          try-i64 m.interval_secs valid,
          valid,
          status-from-to m.status,
          as-u64-i64 id h,
          map-u64-i64 m.agent_id agent,
        )
        (unfold assembled in
          ap (λ n. ok (record m { id = id; interval_secs = n })) (try-i64 m.interval_secs valid))

  valid-out_of_range : (i : ℤ) → valid_interval_secs (try_u64 i) ≡ not (out_of_range i)
  valid-out_of_range (pos n) = ground arith
  valid-out_of_range (negsuc n) = refl

  -- What an edit makes of the status: a monitor that was quarantined for its interval starts anew
  -- when it gets another.
  abbrev pub status_edited : MonitorStatus → Bool → Option ℕ → MonitorStatus
  status_edited status valid none = status
  status_edited status valid (some interval_secs) = if valid then status else pending

  -- What an edit makes of a monitor.
  abbrev pub edited : Monitor → Option String → Option String → Option ℕ → Option ℕ → Monitor
  edited m name target interval_secs agent_id = record m {
    name = coalesce name m.name;
    target = coalesce target m.target;
    interval_secs = coalesce interval_secs m.interval_secs;
    status = status_edited m.status (valid_interval_secs m.interval_secs) interval_secs;
    agent_id = or_old agent_id m.agent_id;
  }

  -- The intervals that an edit is let through with.
  abbrev pub may_edit : Option ℕ → Bool
  may_edit none = true
  may_edit (some interval_secs) = valid_interval_secs interval_secs

  map-coalesce :
      (agent_id : Option ℕ) (old : Option ℤ)
      → Fits agent_id
      → map_u64 (coalesce_null (map_i64 agent_id) old) ≡ or_old agent_id (map_u64 old)
  map-coalesce none old h = refl
  map-coalesce (some n) old h = ap some (as-u64-i64 n h)

  pending_read : monitor_status_from_str debug "pending" ≡ ok pending
  unfolding monitor_status_from_str
  pending_read = refl

  -- A row that is read as a monitor is read, after an edit, as the monitor with the given fields
  -- replaced and the others kept; its status is kept too, but for a monitor of invalid interval that
  -- gets a valid one: that one is pending. The given interval is valid, and the agent of 64 bits.
  pub row_to_monitor-updated :
      (row : MonitorRow) (m : Monitor) (name target : Option String)
      (interval_secs agent_id : Option ℕ)
      → row_to_monitor debug row ≡ ok m
      → may_edit interval_secs ≡ true
      → Fits agent_id
      → row_to_monitor debug (updated_row row name target interval_secs agent_id)
        ≡ ok (edited m name target interval_secs agent_id)
  unfolding row_to_monitor assembled updated_row
  row_to_monitor-updated row m name target none agent_id h may agent =
      ground (arith, h, map-coalesce agent_id row.agent_id agent)
  row_to_monitor-updated row m name target (some n) agent_id h may agent =
      let range = valid-out_of_range row.interval_secs in
      let linked = map-coalesce agent_id row.agent_id agent in
      rw (try-i64 n may, may)
        (elim (Bool-cases (out_of_range row.interval_secs)) [
          | inl out ↦ rw (out, pending_read) (ground (arith, h, range, linked))
          | inr within ↦ rw (within) (ground (arith, h, range, linked))
        ])
