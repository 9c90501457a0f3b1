-- ===== src/Engine/Assignments/Queues.antt =====
-- The handle as one queue for each agent, which keeps the newest assignments.
use monitra.Base.{
  last_of-nil, max, ◌∙◌, last_of-append, ℕ, ◌≤◌, ◌≡◌, ap, List, [], ◌∷◌, ◌++◌, length, last_of,
  push_bounded, push_bounded-eq-last_of, length-last_of, arith, ◌==◌, if◌then◌else◌, refl,
}
use monitra.Base.Dict.{lookup, lookup-insert}
use monitra.Engine.Assignments.{Assignment, AssignmentHandle, new, or_default, enqueue, drain}

-- The assignments that an agent would be given.
abbrev pub waiting : AssignmentHandle → ℕ → List Assignment
waiting h agent_id = or_default (lookup agent_id h.queues)

pub record IsBounded (h : AssignmentHandle) : Type 0 where
  pub positive : 1 ≤ h.capacity
  pub within : (agent_id : ℕ) → length (waiting h agent_id) ≤ h.capacity

-- An assignment joins its own agent's queue, of which only the newest `capacity` entries are kept,
-- and no other queue changes.
pub waiting-enqueue :
    (h : AssignmentHandle) (agent_id other : ℕ) (a : Assignment)
    → IsBounded h
    → waiting (enqueue h agent_id a) other ≡ (
        if agent_id == other
        then last_of h.capacity (waiting h agent_id ++ a ∷ [])
        else waiting h other)
unfolding enqueue
waiting-enqueue h agent_id other a v =
    let pushed =
      push_bounded-eq-last_of h.capacity (waiting h agent_id) a v.positive (v.within agent_id) in
    ap or_default
      (lookup-insert agent_id other (push_bounded h.capacity (waiting h agent_id) a) h.queues)
    ∙ ground (arith, pushed)

-- What `drain` returns is the whole queue of the agent, oldest first; it leaves that queue empty
-- and no other one changed.
pub drain_lem :
    (h : AssignmentHandle) (agent_id other : ℕ)
    → ((drain h agent_id).0 ≡ waiting h agent_id)
      × (waiting (drain h agent_id).1 other ≡ (if agent_id == other then [] else waiting h other))
unfolding drain
drain_lem h agent_id other = ground (arith, lookup-insert agent_id other [] h.queues)

pub enqueue-IsBounded :
    (h : AssignmentHandle) (agent_id : ℕ) (a : Assignment)
    → IsBounded h
    → IsBounded (enqueue h agent_id a)
enqueue-IsBounded h agent_id a v = record {
  positive = unfold enqueue in v.positive;
  within = λ other. rw (waiting-enqueue h agent_id other a v) (
      unfold enqueue in
      ground (arith, v.within other, length-last_of h.capacity (waiting h agent_id ++ a ∷ [])));
}

pub drain-IsBounded :
    (h : AssignmentHandle) (agent_id : ℕ) → IsBounded h → IsBounded (drain h agent_id).1
drain-IsBounded h agent_id v = record {
  positive = unfold drain in ground (arith, v.positive);
  within = λ other.
      rw ((drain_lem h agent_id other).1)
        (unfold drain in ground (arith, v.within other, v.positive));
}

pub data Call : Type 0 where
  enqueues : ℕ → Assignment → Call
  drains : ℕ → Call

unfoldable pub call : AssignmentHandle → Call → AssignmentHandle
unfolding enqueue drain
call h (enqueues agent_id a) = enqueue h agent_id a
call h (drains agent_id) = (drain h agent_id).1

unfoldable pub run : AssignmentHandle → List Call → AssignmentHandle
unfolding call
run h [] = h
run h (c ∷ cs) = run (call h c) cs

-- What the calls enqueued for one agent since it last drained, with no bound.
abbrev pub since_drain : ℕ → List Assignment → List Call → List Assignment
since_drain k q [] = q
since_drain k q (enqueues j a ∷ cs) = since_drain k (if j == k then q ++ a ∷ [] else q) cs
since_drain k q (drains j ∷ cs) = since_drain k (if j == k then [] else q) cs

call-IsBounded : (h : AssignmentHandle) (c : Call) → IsBounded h → IsBounded (call h c)
unfolding call
call-IsBounded h (enqueues k a) v = enqueue-IsBounded h k a v
call-IsBounded h (drains k) v = drain-IsBounded h k v

capacity-call : (h : AssignmentHandle) (c : Call) → (call h c).capacity ≡ h.capacity
unfolding call
capacity-call h (enqueues k a) = refl
capacity-call h (drains k) = ground arith

-- The queue of one agent, seen through an unbounded history.
abbrev Shows : ℕ → ℕ → AssignmentHandle → List Assignment → Type 0
Shows n k h q = (h.capacity ≡ n) × (waiting h k ≡ last_of n q)

enqueue-Shows :
    (n k j : ℕ) (h : AssignmentHandle) (a : Assignment) (q : List Assignment)
    → IsBounded h
    → Shows n k h q
    → waiting (enqueue h j a) k ≡ last_of n (if j == k then q ++ a ∷ [] else q)
enqueue-Shows n k j h a q v s =
    rw (waiting-enqueue h j k a v) (ground (arith, last_of-append n q (a ∷ [])))

run-Shows :
    (n k : ℕ) (h : AssignmentHandle) (q : List Assignment) (cs : List Call)
    → IsBounded h
    → Shows n k h q
    → waiting (run h cs) k ≡ last_of n (since_drain k q cs)
unfolding run
run-Shows n k h q [] v s = s.1
run-Shows n k h q (enqueues j a ∷ cs) v s =
    run-Shows n k (call h (enqueues j a)) (if j == k then q ++ a ∷ [] else q) cs
      (call-IsBounded h (enqueues j a) v)
      (capacity-call h (enqueues j a) ∙ s.0, unfold call in enqueue-Shows n k j h a q v s)
run-Shows n k h q (drains j ∷ cs) v s =
    run-Shows n k (call h (drains j)) (if j == k then [] else q) cs (call-IsBounded h (drains j) v)
      (
        capacity-call h (drains j) ∙ s.0,
        unfold call in rw ((drain_lem h j k).1) (ground (arith, last_of-nil {A = Assignment} n)),
      )

pub new-IsBounded : (capacity : ℕ) → IsBounded (new capacity)
unfolding new lookup
new-IsBounded capacity = record { positive = ground arith; within = λ k. ground arith }

-- Whatever is enqueued and drained, for whichever agents, an agent is given the newest `capacity`
-- (or one, if it is 0) of the assignments enqueued for it since it last drained, oldest first.
pub run_refines :
    (capacity k : ℕ) (cs : List Call)
    → waiting (run (new capacity) cs) k ≡ last_of (max capacity 1) (since_drain k [] cs)
unfolding new lookup
run_refines capacity k cs =
    run-Shows (max capacity 1) k (new capacity) [] cs (new-IsBounded capacity)
      (ground arith, ground arith)
