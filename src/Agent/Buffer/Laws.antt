-- ===== src/Agent/Buffer/Laws.antt =====
-- What the buffer holds after pushes.
use monitra.Base.{
  ℕ, ◌≤◌, ◌≡◌, List, ◌++◌, length, arith, push_all_bounded-eq-last_of, last_of, length-last_of,
}
use monitra.Agent.Buffer.{PendingResult, PushBuffer, new, len, push_back_all}

-- A buffer as `new` makes it and its operations keep it.
abbrev pub IsBounded : PushBuffer → Type 0
IsBounded b = (1 ≤ b.capacity) × (length b.queue ≤ b.capacity)

pub new-IsBounded : (capacity : ℕ) → IsBounded (new capacity)
unfolding new
new-IsBounded capacity = ground arith

-- After results are put back the buffer holds the newest of what it had and of them, in order, as
-- many as its capacity; it is within its capacity still.
pub push_back_all_lem :
    (b : PushBuffer) (results : List PendingResult)
    → IsBounded b
    → ((push_back_all b results).queue ≡ last_of b.capacity (b.queue ++ results))
      × IsBounded (push_back_all b results)
      × (len (push_back_all b results) ≤ b.capacity)
unfolding push_back_all len
push_back_all_lem b results (one, le) =
    let newest = push_all_bounded-eq-last_of b.capacity b.queue results one le in
    let short = length-last_of b.capacity (b.queue ++ results) in
    (newest, (one, rw newest short), rw newest short)
