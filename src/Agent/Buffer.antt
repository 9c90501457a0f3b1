-- ===== src/Agent/Buffer.antt =====
-- `PushBuffer` of crates/agent/src/buffer.rs: the results that wait for a push that succeeds.
pub mod Laws
use monitra.Base.{
  ℕ, ◌≤◌, ◌≡◌, List, [], ◌∷◌, ◌++◌, length, leb, if◌then◌else◌, push_bounded, push_all_bounded,
}
use monitra.Probe.{ProbeOutcome}

-- client.rs
pub record PendingResult : Type 0 where
  pub monitor_id : ℕ
  pub outcome : ProbeOutcome

pub record PushBuffer : Type 0 where
  pub queue : List PendingResult
  pub capacity : ℕ

unfoldable pub new : ℕ → PushBuffer
new capacity = record { queue = []; capacity = if leb 1 capacity then capacity else 1 }

unfoldable pub len : PushBuffer → ℕ
len b = length b.queue

unfoldable pub push_back_all : PushBuffer → List PendingResult → PushBuffer
push_back_all b results = record b { queue = push_all_bounded b.capacity b.queue results }

-- The buffered results, oldest first, and the buffer emptied.
unfoldable pub drain : PushBuffer → List PendingResult × PushBuffer
drain b = (b.queue, record b { queue = [] })
