-- ===== src/Agent/Cycle/Delivery.antt =====
-- What reaches the backend over the cycles of an agent.
use monitra.Base.{
  ℕ, String, ◌≡◌, refl, Bool, Option, List, [], ◌∷◌, ◌++◌, arith, last_of, if◌then◌else◌,
  Bool-cases, inl, inr,
}
use monitra.Probe.{ProbeOutcome, NetworkProbeKind}
use monitra.Agent.Buffer.{PendingResult, PushBuffer, push_back_all, drain}
use monitra.Agent.Buffer.Laws.{IsBounded, push_back_all_lem}
use monitra.Agent.Cycle.{AssignmentDto, results_of, run_cycle}

-- The inputs of a cycle.
pub record Inputs (D : Type 0) : Type 0 where
  pub defs : List D
  pub pull_assignments : Bool
  pub fetched : Option (List AssignmentDto)
  pub accepted : Bool

module _ {D : Type 0} (monitor_id_of : D → ℕ) (run_check : D → ProbeOutcome)
    (probe : NetworkProbeKind → String → ProbeOutcome) where
  -- The fresh results of a cycle, and of cycles.
  abbrev pub fresh : Inputs D → List PendingResult
  fresh i = results_of monitor_id_of run_check probe i.defs i.pull_assignments i.fetched

  unfoldable pub produced : List (Inputs D) → List PendingResult
  produced [] = []
  produced (i ∷ cycles) = fresh i ++ produced cycles

  abbrev pub cycle : PushBuffer → Inputs D → List PendingResult × PushBuffer
  cycle b i =
      run_cycle monitor_id_of run_check probe i.defs b i.pull_assignments i.fetched i.accepted

  -- What the backend has accepted over cycles, and the buffer after them.
  unfoldable pub run : PushBuffer → List (Inputs D) → List PendingResult × PushBuffer
  run b [] = ([], b)
  run b (i ∷ cycles) =
      let (batch, b') = cycle b i in
      let (delivered, last) = run b' cycles in
      (if i.accepted then batch ++ delivered else delivered, last)

  -- A cycle pushes what was buffered and then what is fresh. If the push is accepted the buffer is
  -- empty; if not, it holds the newest of the batch, in order, as many as its capacity. It is
  -- within its capacity still.
  pub run_cycle_lem :
      (b : PushBuffer) (i : Inputs D)
      → IsBounded b
      → let (batch, b') = cycle b i in
        (batch ≡ b.queue ++ fresh i)
        × (b'.queue ≡ (if i.accepted then [] else last_of b.capacity (b.queue ++ fresh i)))
        × (b'.capacity ≡ b.capacity)
        × IsBounded b'
  unfolding run_cycle drain
  run_cycle_lem b i (one, le) =
      let batch = b.queue ++ fresh i in
      let emptied : PushBuffer = record b { queue = [] } in
      let (newest, bounded, short) = push_back_all_lem emptied batch (one, omega arith) in
      elim (Bool-cases i.accepted) [
        | inl taken ↦ rw (taken) (refl, refl, refl, (one, omega arith))
        | inr refused ↦ rw (refused) (refl, newest, (unfold push_back_all in refl), bounded)
      ]
