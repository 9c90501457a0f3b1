-- ===== src/Engine/Shutdown/Ending.antt =====
-- What a shutdown has waited for and warned of.
use monitra.Base.{
  ℕ, zero, suc, ◌≡◌, refl, sym, ap, ◌∙◌, true, ◌==◌, Option, none, some, List, [], ◌∷◌, ◌++◌, All,
  All-append, subst, is_some, arith, Bool-cases, inl, inr,
}
use monitra.Engine.Shutdown.{
  Task, scheduler, watchdog, writer, alerts, pruner, Joined, finished, panicked, Phase, running,
  awaiting, returned, EngineHandle, start, mark_ready, shutdown, has_ended, code, end_task, next,
  warned, join, Proceeds, finishes, joins, Step, proceeds, panics, readies, shuts_down, Reach, here,
  after,
}

-- The tasks that `shutdown` has waited for.
abbrev pub before : Phase → List Task
before running = []
before (awaiting scheduler) = []
before (awaiting watchdog) = scheduler ∷ []
before (awaiting writer) = scheduler ∷ watchdog ∷ []
before (awaiting alerts) = scheduler ∷ watchdog ∷ writer ∷ []
before (awaiting pruner) = scheduler ∷ watchdog ∷ writer ∷ alerts ∷ []
before returned = scheduler ∷ watchdog ∷ writer ∷ alerts ∷ pruner ∷ []

abbrev pub warned_of : Option Joined → Task → List Task → List Task
warned_of (some panicked) t later = t ∷ later
warned_of (some finished) t later = later
warned_of none t later = later

-- Those among them that panicked.
abbrev pub panicked_of : EngineHandle → List Task → List Task
panicked_of e [] = []
panicked_of e (t ∷ ts) = warned_of (e.tasks t) t (panicked_of e ts)

-- All that was waited for has ended, and those that panicked were told of.
pub record IsOrderly (e : EngineHandle) : Type 0 where
  pub waited : All (λ t. has_ended e t ≡ true) (before e.phase)
  pub told : e.warnings ≡ panicked_of e (before e.phase)

task_at : ℕ → Task
task_at zero = scheduler
task_at (suc zero) = watchdog
task_at (suc (suc zero)) = writer
task_at (suc (suc (suc zero))) = alerts
task_at _ = pruner

task_at-code : (t : Task) → task_at (code t) ≡ t
unfolding task_at
task_at-code scheduler = refl
task_at-code watchdog = refl
task_at-code writer = refl
task_at-code alerts = refl
task_at-code pruner = refl

code_injective : (t u : Task) → (code t == code u) ≡ true → t ≡ u
code_injective t u h = sym (task_at-code t) ∙ ap task_at (ground (arith, h)) ∙ task_at-code u

-- What had ended stays as it ended.
end_task_kept :
    (e : EngineHandle) (t u : Task) (joined : Joined)
    → e.tasks t ≡ none
    → has_ended e u ≡ true
    → (end_task e t joined).tasks u ≡ e.tasks u
unfolding end_task
end_task_kept e t u joined none_yet ended = elim (Bool-cases (code t == code u)) [
  | inl same ↦
      absurd
        (ground (arith, ended, ap is_some (sym (ap e.tasks (code_injective t u same)) ∙ none_yet)))
  | inr other ↦ rw other refl
]

end_task_ended :
    (e : EngineHandle) (t u : Task) (joined : Joined)
    → e.tasks t ≡ none
    → has_ended e u ≡ true
    → has_ended (end_task e t joined) u ≡ true
end_task_ended e t u joined none_yet ended =
    ap is_some (end_task_kept e t u joined none_yet ended) ∙ ended

end_task_all :
    (e : EngineHandle) (t : Task) (joined : Joined) (us : List Task)
    → e.tasks t ≡ none
    → All (λ u. has_ended e u ≡ true) us
    → All (λ u. has_ended (end_task e t joined) u ≡ true) us
      × (panicked_of (end_task e t joined) us ≡ panicked_of e us)
end_task_all e t joined [] none_yet h = (tt, refl)
end_task_all e t joined (u ∷ us) none_yet (ended, all_ended) =
    let later = end_task_all e t joined us none_yet all_ended in
    (
      (end_task_ended e t u joined none_yet ended, later.0),
      rw (end_task_kept e t u joined none_yet ended, later.1) refl,
    )

end_task-IsOrderly :
    (e : EngineHandle) (t : Task) (joined : Joined)
    → IsOrderly e
    → e.tasks t ≡ none
    → IsOrderly (end_task e t joined)
unfolding end_task
end_task-IsOrderly e t joined o none_yet =
    let waited = end_task_all e t joined (before e.phase) none_yet o.waited in
    record { waited = waited.0; told = o.told ∙ sym waited.1 }

before-next : (t : Task) → before (next t) ≡ before (awaiting t) ++ t ∷ []
before-next scheduler = refl
before-next watchdog = refl
before-next writer = refl
before-next alerts = refl
before-next pruner = refl

warned_of-append :
    (how : Option Joined) (u : Task) (us : List Task) (t : Task)
    → warned_of how u (us ++ t ∷ []) ≡ warned_of how u us ++ t ∷ []
warned_of-append (some panicked) u us t = refl
warned_of-append (some finished) u us t = refl
warned_of-append none u us t = refl

panicked_of-append :
    (e : EngineHandle) (ts : List Task) (t : Task) (joined : Joined)
    → e.tasks t ≡ some joined
    → panicked_of e (ts ++ t ∷ []) ≡ warned joined t (panicked_of e ts)
panicked_of-append e [] t finished h = rw h refl
panicked_of-append e [] t panicked h = rw h refl
panicked_of-append e (u ∷ us) t finished h =
    ap (warned_of (e.tasks u) u) (panicked_of-append e us t finished h)
panicked_of-append e (u ∷ us) t panicked h =
    ap (warned_of (e.tasks u) u) (panicked_of-append e us t panicked h)
    ∙ warned_of-append (e.tasks u) u (panicked_of e us) t

join-IsOrderly :
    (e : EngineHandle) (t : Task) (joined : Joined)
    → IsOrderly e
    → e.phase ≡ awaiting t
    → e.tasks t ≡ some joined
    → IsOrderly (join e t joined)
unfolding join
join-IsOrderly e t joined o waits ended = record {
  waited = subst (All (λ u. has_ended e u ≡ true)) (sym (before-next t)) (
      All-append _ (before (awaiting t)) (t ∷ [])
        (subst (λ phase. All (λ u. has_ended e u ≡ true) (before phase)) waits o.waited)
        (ap is_some ended, tt));
  told =
      ap (warned joined t) (o.told ∙ ap (λ phase. panicked_of e (before phase)) waits)
      ∙ sym (panicked_of-append e (before (awaiting t)) t joined ended)
      ∙ ap (panicked_of e) (sym (before-next t));
}

Proceeds-IsOrderly : {e f : EngineHandle} → Proceeds e f → IsOrderly e → IsOrderly f
Proceeds-IsOrderly (finishes e t none_yet may) o = end_task-IsOrderly e t finished o none_yet
Proceeds-IsOrderly (joins e t joined waits ended) o = join-IsOrderly e t joined o waits ended

Step-IsOrderly : {e f : EngineHandle} → Step e f → IsOrderly e → IsOrderly f
unfolding mark_ready shutdown
Step-IsOrderly (proceeds p) o = Proceeds-IsOrderly p o
Step-IsOrderly (panics e t none_yet) o = end_task-IsOrderly e t panicked o none_yet
Step-IsOrderly (readies e _) o = record { waited = o.waited; told = o.told }
Step-IsOrderly (shuts_down e idle) o = record {
  waited = tt;
  told = o.told ∙ ap (λ phase. panicked_of e (before phase)) idle;
}

-- Whatever the tasks do from the start, panics included, in every state that is reached: each task
-- that `shutdown` has gone past, in the order scheduler, watchdog, writer, alert task, pruner, has
-- ended, all five once it returns; and it has warned of exactly those among them that panicked, in
-- that order.
pub reach-IsOrderly : {e : EngineHandle} → Reach start e → IsOrderly e
unfolding start
reach-IsOrderly here = record { waited = tt; told = refl }
reach-IsOrderly (after r s) = Step-IsOrderly s (reach-IsOrderly r)
