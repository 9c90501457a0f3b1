-- ===== src/Engine/Deadline.antt =====
-- `advance_deadline` of crates/engine/src/scheduler.rs. Instants and durations are nanoseconds of
-- the monotonic clock; `checked_add` fails past the largest instant, `limit`.
pub mod Cadence
mod Tests
use monitra.Base.{ℕ, ◌+◌, ◌*◌, min, Option, none, some, leb, if◌then◌else◌}
use monitra.Models.{max_interval_secs}

abbrev pub from_secs : ℕ → ℕ
from_secs secs = secs * 1000000000

abbrev pub checked_add : ℕ → ℕ → ℕ → Option ℕ
checked_add limit t d = if leb (t + d) limit then some (t + d) else none

abbrev unwrap_or : Option ℕ → ℕ → ℕ
unwrap_or none d = d
unwrap_or (some t) d = t

unfoldable pub advance_deadline : ℕ → ℕ → ℕ → ℕ → ℕ
advance_deadline limit previous_deadline interval now =
    let safe_interval = min interval (from_secs max_interval_secs) in
    let fallback = unwrap_or (checked_add limit now safe_interval) now in
    let candidate = unwrap_or (checked_add limit previous_deadline interval) fallback in
    if leb candidate now then fallback else candidate
