-- ===== src/Engine/Flap.antt =====
-- crates/engine/src/flap.rs: flap damping. The counters are `u32` and wrap, as `+=` does in the
-- release profile, which leaves overflow checks off.
pub mod Damping
mod Tests
use monitra.Base.{
  ℕ, suc, ◌+◌, ◌%◌, Bool, true, false, Option, none, some, List, [], ◌∷◌, leb, if◌then◌else◌,
}
use monitra.Models.{MonitorStatus, pending, up, down, paused, stale, unknown}

abbrev pub down_threshold : ℕ
down_threshold = 2

abbrev pub up_threshold : ℕ
up_threshold = 1

pub record FlapState : Type 0 where
  pub consecutive_success : ℕ
  pub consecutive_failure : ℕ

-- `FlapState::default()`.
abbrev pub fresh : FlapState
fresh = record { consecutive_success = 0; consecutive_failure = 0 }

abbrev u32 : ℕ → ℕ
u32 n = n % 4294967296

-- The counters after one more outcome.
pub count : FlapState → Bool → FlapState
count f true = record {
  consecutive_success = u32 (f.consecutive_success + 1);
  consecutive_failure = 0;
}
count f false = record {
  consecutive_success = 0;
  consecutive_failure = u32 (f.consecutive_failure + 1);
}

-- The `match` of `observe`, over the updated counters.
pub verdict : FlapState → Bool → MonitorStatus → Option MonitorStatus
verdict f true up = none
verdict f true _ = if leb up_threshold f.consecutive_success then some up else none
verdict f false down = none
verdict f false _ = if leb down_threshold f.consecutive_failure then some down else none

-- The new counters beside the transition, if this outcome causes one.
unfoldable pub observe : FlapState → Bool → MonitorStatus → FlapState × Option MonitorStatus
unfolding count verdict
observe f success current = let f' = count f success in (f', verdict f' success current)
