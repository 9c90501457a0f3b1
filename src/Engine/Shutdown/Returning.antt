-- ===== src/Engine/Shutdown/Returning.antt =====
-- Every shutdown returns: a measure of what is left, and that something can always proceed.
use monitra.Base.{
  ℕ, zero, suc, ◌+◌, ◌<◌, ◌≡◌, refl, ap, true, Option, none, some, All, arith, Option-cases, ◌⊎◌,
  inl, inr, subst,
}
use monitra.Engine.Shutdown.{
  Task, scheduler, watchdog, writer, alerts, pruner, Joined, finished, panicked, Phase, running,
  awaiting, returned, EngineHandle, start, is_stopping, shutdown, has_ended, may_finish, end_task,
  next, join, Proceeds, finishes, joins, Step, proceeds, panics, readies, shuts_down, Reach, after,
}
use monitra.Engine.Shutdown.Ending.{IsOrderly, before, reach-IsOrderly}

-- Under every choice of what happens next the shutdown returns; and until then something can proceed
-- without a panic.
pub data Returns : EngineHandle → Type 0 where
  done : (e : EngineHandle) → e.phase ≡ returned → Returns e
  goes_on :
      (e f : EngineHandle) → Proceeds e f → ((g : EngineHandle) → Step e g → Returns g) → Returns e

awaits : Phase → ℕ
awaits running = 6
awaits (awaiting scheduler) = 5
awaits (awaiting watchdog) = 4
awaits (awaiting writer) = 3
awaits (awaiting alerts) = 2
awaits (awaiting pruner) = 1
awaits returned = 0

one_if_running : Option Joined → ℕ
one_if_running none = 1
one_if_running (some joined) = 0

tasks_left : (Task → Option Joined) → ℕ
tasks_left tasks =
    one_if_running (tasks scheduler)
    + one_if_running (tasks watchdog)
    + one_if_running (tasks writer)
    + one_if_running (tasks alerts)
    + one_if_running (tasks pruner)

left : EngineHandle → ℕ
left e = awaits e.phase + tasks_left e.tasks

awaits-next : (t : Task) → suc (awaits (next t)) ≡ awaits (awaiting t)
unfolding awaits
awaits-next scheduler = refl
awaits-next watchdog = refl
awaits-next writer = refl
awaits-next alerts = refl
awaits-next pruner = refl

-- The task that ends is one fewer.
left-end_task :
    (e : EngineHandle) (t : Task) (joined : Joined)
    → e.tasks t ≡ none
    → left (end_task e t joined) < left e
unfolding left end_task tasks_left one_if_running
left-end_task e scheduler joined h = rw h (omega arith)
left-end_task e watchdog joined h = rw h (omega arith)
left-end_task e writer joined h = rw h (omega arith)
left-end_task e alerts joined h = rw h (omega arith)
left-end_task e pruner joined h = rw h (omega arith)

-- Once it has been called, every step takes away from what is left.
left-Step : {e g : EngineHandle} → Step e g → is_stopping e.phase ≡ true → left g < left e
unfolding left join
left-Step (proceeds (finishes e t none_yet may)) stopping = left-end_task e t finished none_yet
left-Step (proceeds (joins e t joined waits ended)) stopping =
    rw waits (ground (arith, awaits-next t))
left-Step (panics e t none_yet) stopping = left-end_task e t panicked none_yet
left-Step (readies e idle) stopping = absurd (cc)
left-Step (shuts_down e idle) stopping = absurd (cc)

Step-stopping :
    {e g : EngineHandle} → Step e g → is_stopping e.phase ≡ true → is_stopping g.phase ≡ true
unfolding end_task join
Step-stopping (proceeds (finishes e t none_yet may)) stopping = stopping
Step-stopping (proceeds (joins e t joined waits ended)) stopping = next_stopping t
  where
    next_stopping : (t : Task) → is_stopping (next t) ≡ true
    next_stopping scheduler = refl
    next_stopping watchdog = refl
    next_stopping writer = refl
    next_stopping alerts = refl
    next_stopping pruner = refl
Step-stopping (panics e t none_yet) stopping = stopping
Step-stopping (readies e idle) stopping = absurd (cc)
Step-stopping (shuts_down e idle) stopping = absurd (cc)

-- The task that is waited for may finish, as those before it have ended.
awaited-may_finish :
    (e : EngineHandle) (t : Task) → IsOrderly e → e.phase ≡ awaiting t → may_finish e t ≡ true
awaited-may_finish e scheduler o waits = ap is_stopping waits
awaited-may_finish e watchdog o waits = ap is_stopping waits
awaited-may_finish e pruner o waits = ap is_stopping waits
awaited-may_finish e writer o waits =
    (subst (λ phase. All (λ u. has_ended e u ≡ true) (before phase)) waits o.waited).0
awaited-may_finish e alerts o waits =
    let ended = subst (λ phase. All (λ u. has_ended e u ≡ true) (before phase)) waits o.waited in
    rw (ended.0, ended.1.0) refl

can_proceed :
    (e : EngineHandle) (t : Task)
    → IsOrderly e
    → e.phase ≡ awaiting t
    → (f : EngineHandle) × Proceeds e f
can_proceed e t o waits = elim (Option-cases (e.tasks t)) [
  | inl none_yet ↦ (end_task e t finished, finishes e t none_yet (awaited-may_finish e t o waits))
  | inr (joined, ended) ↦ (join e t joined, joins e t joined waits ended)
]

within-Returns :
    (n : ℕ) (e : EngineHandle) → Reach start e → is_stopping e.phase ≡ true → left e < n → Returns e
within-Returns zero e r stopping h = absurd (omega arith)
within-Returns (suc n) e r stopping h = elim (Phase-cases e.phase stopping) [
  | inl end ↦ done e end
  | inr (t, waits) ↦
      let (f, p) = can_proceed e t (reach-IsOrderly r) waits in
      goes_on e f p λ g s.
        within-Returns n g (after r s) (Step-stopping s stopping)
          (omega (arith, left-Step s stopping))
]
  where
    Phase-cases :
        (p : Phase) → is_stopping p ≡ true → (p ≡ returned) ⊎ ((t : Task) × (p ≡ awaiting t))
    Phase-cases running h = absurd (cc)
    Phase-cases (awaiting t) h = inr (t, refl)
    Phase-cases returned h = inl refl

-- A shutdown that is called at any time after the start returns, whatever the tasks do and in
-- whatever order they end; and until it returns there is always a task that can end without a
-- panic, or an ended one that it waits for.
pub shutdown-Returns : (e : EngineHandle) → Reach start e → e.phase ≡ running → Returns (shutdown e)
unfolding shutdown
shutdown-Returns e r idle =
    within-Returns (suc (left (shutdown e))) (shutdown e) (after r (shuts_down e idle)) refl
      (omega arith)
