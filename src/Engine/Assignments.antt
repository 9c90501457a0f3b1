-- ===== src/Engine/Assignments.antt =====
-- `AssignmentHandle` of crates/engine/src/scheduler.rs: a bounded queue of due regional probes for
-- each agent. The scheduler fills it, and `GET /agents/{id}/assignments` drains it. The lock makes
-- each call one step.
pub mod Queues
mod Tests
use monitra.Base.{ℕ, String, Option, none, some, List, [], push_bounded, leb, if◌then◌else◌}
use monitra.Base.Dict.{Dict, lookup, insert}
use monitra.Models.{MonitorKind}

pub record Assignment : Type 0 where
  pub monitor_id : ℕ
  pub target : String
  pub kind : MonitorKind

pub record AssignmentHandle : Type 0 where
  pub capacity : ℕ
  pub queues : Dict (List Assignment)
  pub quarantined : ℕ

unfoldable pub new : ℕ → AssignmentHandle
new capacity = record {
  capacity = if leb 1 capacity then capacity else 1;
  queues = [];
  quarantined = 0;
}

abbrev pub or_default {ℓ} : {A : Type ℓ} → Option (List A) → List A
or_default none = []
or_default (some q) = q

unfoldable pub enqueue : AssignmentHandle → ℕ → Assignment → AssignmentHandle
unfolding push_bounded
enqueue h agent_id assignment =
    let queue = or_default (lookup agent_id h.queues) in
    record h { queues = insert agent_id (push_bounded h.capacity queue assignment) h.queues }

-- What is returned, and the handle with the agent's queue emptied if it has one.
drained : AssignmentHandle → ℕ → Option (List Assignment) → List Assignment × AssignmentHandle
drained h agent_id none = ([], h)
drained h agent_id (some queue) = (queue, record h { queues = insert agent_id [] h.queues })

unfoldable pub drain : AssignmentHandle → ℕ → List Assignment × AssignmentHandle
unfolding drained
drain h agent_id = drained h agent_id (lookup agent_id h.queues)

unfoldable pub quarantined_count : AssignmentHandle → ℕ
quarantined_count h = h.quarantined
