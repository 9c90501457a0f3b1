-- ===== src/Engine/Shutdown.antt =====
-- `EngineHandle` of crates/engine/src/lib.rs: its tasks, and the shutdown that waits for them. When a
-- task ends is the runtime's: any that may end can be next. The senders of the writer are the
-- scheduler's alone, those of the alert task the scheduler's and the watchdog's.
pub mod Ending
pub mod Returning
mod Tests
use monitra.Base.{
  ℕ, ◌≡◌, refl, Bool, true, false, ◌&&◌, ◌==◌, Option, none, some, List, [], ◌∷◌, ◌++◌, is_some,
  if◌then◌else◌,
}

pub data Task : Type 0 where
  scheduler watchdog writer alerts pruner : Task

pub data Joined : Type 0 where
  finished panicked : Joined

-- What `shutdown` waits for: `running` before it is called, `returned` at its end.
pub data Phase : Type 0 where
  running : Phase
  awaiting : Task → Phase
  returned : Phase

-- How the tasks have ended, if they have; the value that the pruner is told; and the tasks that were
-- warned about.
pub record EngineHandle : Type 0 where
  pub phase : Phase
  pub pruner_ready : Bool
  pub tasks : Task → Option Joined
  pub warnings : List Task

unfoldable pub start : EngineHandle
start = record { phase = running; pruner_ready = false; tasks = λ t. none; warnings = [] }

unfoldable pub mark_ready : EngineHandle → EngineHandle
mark_ready e = record e { pruner_ready = true }

-- The value that the tasks are told.
abbrev pub is_stopping : Phase → Bool
is_stopping running = false
is_stopping (awaiting t) = true
is_stopping returned = true

unfoldable pub shutdown : EngineHandle → EngineHandle
shutdown e = record e { phase = awaiting scheduler }

abbrev pub has_ended : EngineHandle → Task → Bool
has_ended e t = is_some (e.tasks t)

-- Whether a task may return: it is told to stop, or the channel that it reads is closed.
abbrev pub may_finish : EngineHandle → Task → Bool
may_finish e scheduler = is_stopping e.phase
may_finish e watchdog = is_stopping e.phase
may_finish e pruner = is_stopping e.phase
may_finish e writer = has_ended e scheduler
may_finish e alerts = has_ended e scheduler && has_ended e watchdog

abbrev pub code : Task → ℕ
code scheduler = 0
code watchdog = 1
code writer = 2
code alerts = 3
code pruner = 4

unfoldable pub end_task : EngineHandle → Task → Joined → EngineHandle
end_task e t joined = record e { tasks = λ u. if code t == code u then some joined else e.tasks u }

abbrev pub next : Task → Phase
next scheduler = awaiting watchdog
next watchdog = awaiting writer
next writer = awaiting alerts
next alerts = awaiting pruner
next pruner = returned

abbrev pub warned : Joined → Task → List Task → List Task
warned finished t warnings = warnings
warned panicked t warnings = warnings ++ t ∷ []

-- The `await` of a task that has ended.
unfoldable pub join : EngineHandle → Task → Joined → EngineHandle
join e t joined = record e { phase = next t; warnings = warned joined t e.warnings }

-- A task returns, or `shutdown` sees that the one it waits for has ended.
pub data Proceeds : EngineHandle → EngineHandle → Type 0 where
  finishes :
      (e : EngineHandle) (t : Task)
      → e.tasks t ≡ none
      → may_finish e t ≡ true
      → Proceeds e (end_task e t finished)
  joins :
      (e : EngineHandle) (t : Task) (joined : Joined)
      → e.phase ≡ awaiting t
      → e.tasks t ≡ some joined
      → Proceeds e (join e t joined)

-- A task may also panic at any time; and `shutdown` takes the handle, so that it is called once, and
-- `mark_ready` before it.
pub data Step : EngineHandle → EngineHandle → Type 0 where
  proceeds : {e f : EngineHandle} → Proceeds e f → Step e f
  panics : (e : EngineHandle) (t : Task) → e.tasks t ≡ none → Step e (end_task e t panicked)
  readies : (e : EngineHandle) → e.phase ≡ running → Step e (mark_ready e)
  shuts_down : (e : EngineHandle) → e.phase ≡ running → Step e (shutdown e)

pub data Reach (s : EngineHandle) : EngineHandle → Type 0 where
  here : Reach s s
  after : {e f : EngineHandle} → Reach s e → Step e f → Reach s f
