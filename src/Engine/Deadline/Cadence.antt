-- ===== src/Engine/Deadline/Cadence.antt =====
-- The cadence that the deadlines keep.
use monitra.Base.{ℕ, ◌+◌, ◌*◌, ◌≤◌, ◌<◌, ◌≡◌, ◌∙◌, List, [], ◌∷◌, length, All, arith, min}
use monitra.Models.{max_interval_secs}
use monitra.Engine.Deadline.{from_secs, advance_deadline}

-- The next deadline of a due monitor is never more than one interval ahead, and, where the clock
-- can still tell a later time, never in the past, however late the dispatch is.
pub advance_bounds :
    (limit previous interval now : ℕ)
    → previous ≤ now
    → 1 ≤ interval
    → now + min interval (from_secs max_interval_secs) ≤ limit
    → (now < advance_deadline limit previous interval now)
      × (advance_deadline limit previous interval now ≤ now + interval)
unfolding advance_deadline
advance_bounds limit previous interval now due h fits = ground arith

-- A dispatch that is late by less than an interval keeps the schedule.
advance_on_time :
    (limit previous interval now : ℕ)
    → now < previous + interval
    → previous + interval ≤ limit
    → advance_deadline limit previous interval now ≡ previous + interval
unfolding advance_deadline
advance_on_time limit previous interval now h fits = ground arith

-- The deadline after dispatches that were late by these amounts.
unfoldable pub dispatches : ℕ → ℕ → ℕ → List ℕ → ℕ
dispatches limit deadline interval [] = deadline
dispatches limit deadline interval (late ∷ rest) =
    dispatches limit (advance_deadline limit deadline interval (deadline + late)) interval rest

-- Checks do not drift: dispatches that are each late by less than an interval leave the deadline
-- at whole intervals from the first, whatever the single delays were.
pub dispatches_no_drift :
    (limit deadline interval : ℕ) (lates : List ℕ)
    → All (λ late. late < interval) lates
    → deadline + length lates * interval ≤ limit
    → dispatches limit deadline interval lates ≡ deadline + length lates * interval
unfolding dispatches
dispatches_no_drift limit deadline interval [] h fits = omega arith
dispatches_no_drift limit deadline interval (late ∷ rest) h fits =
    rw (advance_on_time limit deadline interval (deadline + late) (omega arith) (omega arith)) (
      dispatches_no_drift limit (deadline + interval) interval rest h.1 (omega arith) ∙ omega arith)
