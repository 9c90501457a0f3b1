-- ===== src/Engine/Deadline/Tests.antt =====
-- A deadline that is missed by far, and an instance of the theorem.
use monitra.Base.{◌≡◌, refl, [], ◌∷◌, arith}
use monitra.Engine.Deadline.{advance_deadline}
use monitra.Engine.Deadline.Cadence.{dispatches, dispatches_no_drift}

missed : advance_deadline 1000 100 10 175 ≡ 185
unfolding advance_deadline
missed = refl

dispatches_no_drift_example : dispatches 1000 100 10 (3 ∷ 9 ∷ 0 ∷ []) ≡ 130
dispatches_no_drift_example =
    dispatches_no_drift 1000 100 10 (3 ∷ 9 ∷ 0 ∷ []) (omega arith, (omega arith, (omega arith, tt)))
      (omega arith)
