-- ===== src/Engine/Pruner/Loop.antt =====
-- `run` of crates/engine/src/pruner.rs: what it does with the changes of its two channels and the
-- ticks of its timer, as `select!` picks them.
pub mod Gate
use monitra.Base.{ℕ, suc, Bool, true, false, List, [], ◌∷◌, ◌++◌, if◌then◌else◌}
use monitra.Provider.Cache.{Answer, ok, err}
use monitra.Engine.Pruner.{PassResult, BehindTracker, consecutive_backlog}

-- A change of a channel to a value, the loss of its sender, and a tick with what the pass comes to.
pub data Event : Type 0 where
  ready_changed shutdown_changed : Bool → Event
  ready_lost shutdown_lost : Event
  tick : Answer PassResult → Event

pub data Phase : Type 0 where
  waiting running stopped : Phase

-- The phase, the tracker, the passes so far and the warnings among them.
pub record Loop : Type 0 where
  pub phase : Phase
  pub behind : BehindTracker
  pub passes : ℕ
  pub warnings : ℕ

abbrev pub fresh : BehindTracker
fresh = record { last_pass_behind = false }

-- `ready` is the channel's value at the start.
unfoldable pub start : Bool → Loop
start ready = record {
  phase = if ready then running else waiting;
  behind = fresh;
  passes = 0;
  warnings = 0;
}

unfoldable pub stop : Loop → Loop
stop loop = record loop { phase = stopped }

unfoldable pub after_pass : Loop → Answer PassResult → Loop
unfolding consecutive_backlog
after_pass loop (ok pass) =
    let (warn, behind) = consecutive_backlog loop.behind pass.backlog in
    record loop {
      behind = behind;
      passes = suc loop.passes;
      warnings = if warn then suc loop.warnings else loop.warnings;
    }
after_pass loop (err error) = record loop { behind = fresh; passes = suc loop.passes }

-- While it waits, and while it runs. A tick comes only while it runs.
unfoldable pub step_waiting : Loop → Event → Loop
unfolding stop
step_waiting loop (ready_changed ready) = record loop { phase = if ready then running else waiting }
step_waiting loop (shutdown_changed shutdown) = if shutdown then stop loop else loop
step_waiting loop ready_lost = stop loop
step_waiting loop shutdown_lost = stop loop
step_waiting loop (tick pass) = loop

unfoldable pub step_running : Loop → Event → Loop
unfolding stop after_pass
step_running loop (ready_changed ready) = loop
step_running loop (shutdown_changed shutdown) = if shutdown then stop loop else loop
step_running loop ready_lost = loop
step_running loop shutdown_lost = stop loop
step_running loop (tick pass) = after_pass loop pass

unfoldable pub step : Phase → Loop → Event → Loop
unfolding step_waiting step_running
step waiting loop event = step_waiting loop event
step running loop event = step_running loop event
step stopped loop event = loop

unfoldable pub run : Loop → List Event → Loop
unfolding step
run loop [] = loop
run loop (event ∷ events) = run (step loop.phase loop event) events
