-- ===== src/Engine/Assignments/Tests.antt =====
-- A full queue, and an instance of the theorem.
use monitra.Base.{◌≡◌, refl, ℕ, [], ◌∷◌}
use monitra.Base.Dict.{lookup, insert}
use monitra.Models.{tcp}
use monitra.Engine.Assignments.{Assignment, new, enqueue}
use monitra.Engine.Assignments.Queues.{waiting, enqueues, run, run_refines}

abbrev job : ℕ → Assignment
job id = record { monitor_id = id; target = "db:5432"; kind = tcp }

full : waiting (run (new 1) (enqueues 7 (job 1) ∷ enqueues 7 (job 2) ∷ [])) 7 ≡ job 2 ∷ []
unfolding run new enqueue lookup insert
full = refl

run_refines_example :
    waiting (run (new 1) (enqueues 7 (job 1) ∷ enqueues 8 (job 2) ∷ enqueues 7 (job 3) ∷ [])) 7
    ≡ job 3 ∷ []
run_refines_example =
    run_refines 1 7 (enqueues 7 (job 1) ∷ enqueues 8 (job 2) ∷ enqueues 7 (job 3) ∷ [])
