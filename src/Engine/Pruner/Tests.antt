-- ===== src/Engine/Pruner/Tests.antt =====
-- A store of old rows only, and an instance of the theorem.
use monitra.Base.{ℕ, ◌-◌, ◌≡◌, refl, true, false, List, [], ◌∷◌, min}
use monitra.Provider.Cache.{ok, err}
use monitra.Provider.Error.{operation, store}
use monitra.Engine.Pruner.Loop.{Event, ready_changed, shutdown_lost, tick, start, run as run_loop}
use monitra.Engine.Pruner.Loop.Gate.{run-Follows}
use monitra.Engine.Pruner.{Store}
use monitra.Engine.Pruner.Backlog.{Documented}

-- The state is how many rows there are, all of them older than any cutoff.
abbrev rows : Store ℕ
rows = record {
  prune = λ s cutoff limit. (ok (min limit s), s - limit);
  count = λ s cutoff cap. (ok (min cap s), s);
}

rows-Documented : Documented rows (λ s cutoff. s) 10 100
rows-Documented = record { prunes = λ s cutoff. (refl, refl); counts = λ s cutoff. (refl, refl) }

abbrev left : ℕ → Event
left backlog = tick (ok (record { rows = 10; backlog = backlog }))

-- Two passes behind, a failed one, and one behind again.
abbrev ticks : List Event
ticks =
    ready_changed true
    ∷ left 5
    ∷ left 7
    ∷ tick (err (operation store "locked"))
    ∷ left 1
    ∷ shutdown_lost
    ∷ left 1
    ∷ []

run-Follows_example :
    ((run_loop (start false) ticks).passes ≡ 4) × ((run_loop (start false) ticks).warnings ≡ 1)
unfolding start
run-Follows_example = run-Follows false ticks
