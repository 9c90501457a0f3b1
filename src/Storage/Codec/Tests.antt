-- ===== src/Storage/Codec/Tests.antt =====
-- A monitor that is stored, a legacy row that is edited, and an instance of the theorem.
use monitra.Base.{String, ◌<>◌, ◌≡◌, refl, none, some}
use monitra.Models.{Monitor, http, up, pending, unknown}
use monitra.Storage.Codec.{
  pos, negsuc, ok, MonitorRow, row_to_monitor, updated_row, assembled, monitor_kind_from_str,
  monitor_status_from_str,
}
use monitra.Storage.Codec.RoundTrip.{row_to_monitor-updated}

abbrev debug : String → String
debug s = "\"" <> (s <> "\"")

abbrev site : Monitor
site = record {
  id = 4;
  name = "site";
  target = "https://h";
  kind = http;
  interval_secs = 60;
  status = up;
  agent_id = some 9;
}

-- An interval that overflowed.
abbrev legacy : MonitorRow
legacy = record {
  id = pos 4;
  name = "site";
  target = "https://h";
  kind = "http";
  interval_secs = negsuc 5;
  status = "up";
  agent_id = some (pos 9);
}

row_to_monitor-updated_example :
    row_to_monitor debug (updated_row legacy none none (some 30) none)
    ≡ ok (record site { interval_secs = 30; status = pending })
unfolding row_to_monitor assembled monitor_kind_from_str monitor_status_from_str
row_to_monitor-updated_example =
    row_to_monitor-updated debug legacy (record site { interval_secs = 0; status = unknown }) none
      none (some 30) none refl refl tt
