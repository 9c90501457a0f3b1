-- ===== src/Engine/Watchdog/Sweep.antt =====
-- Which monitors a sweep marks.
use monitra.Base.{
  ℕ, ◌≡◌, refl, sym, ◌∙◌, Bool, false, not, ◌&&◌, Option, none, some, List, [], ◌∷◌, ◌++◌, map,
  filter, elem, arith, if◌then◌else◌, ◌==◌, ◌||◌,
}
use monitra.Models.{Agent, Monitor, MonitorStatus, stale}
use monitra.Engine.Alerts.{AlertRequest}
use monitra.Engine.Watchdog.{
  is_held, is_silent, silent_ids, demote, visit, visit_all, sweep_silent, sweep,
}

-- Whether an agent with an identifier is silent, and whether a monitor waits for such a one while
-- its status may change.
abbrev pub any_silent : ℕ → ℕ → List Agent → ℕ → Bool
any_silent timeout now [] k = false
any_silent timeout now (a ∷ agents) k =
    (is_silent timeout now a && a.id == k) || any_silent timeout now agents k

abbrev pub fed_by_silent : ℕ → ℕ → List Agent → Option ℕ → Bool
fed_by_silent timeout now agents none = false
fed_by_silent timeout now agents (some k) = any_silent timeout now agents k

abbrev pub is_orphan : ℕ → ℕ → List Agent → Monitor → Bool
is_orphan timeout now agents m =
    fed_by_silent timeout now agents m.agent_id && not (is_held m.status)

elem-silent_ids :
    (timeout now : ℕ) (agents : List Agent) (k : ℕ)
    → elem k (silent_ids timeout now agents) ≡ any_silent timeout now agents k
elem-silent_ids timeout now [] k = refl
elem-silent_ids timeout now (a ∷ agents) k = ground (arith, elem-silent_ids timeout now agents k)

module _ {S : Type 0} (set_monitor_status : S → ℕ → MonitorStatus → Bool × S) where
  -- Marking each of the given monitors, one after another.
  unfoldable pub demote_all : S → List Monitor → S × List AlertRequest
  demote_all s [] = (s, [])
  demote_all s (m ∷ ms) =
      let (s', here) = demote set_monitor_status s m in
      let (last, later) = demote_all s' ms in (last, here ++ later)

  visit_lem :
      (timeout now : ℕ) (agents : List Agent) (s : S) (m : Monitor) (agent : Option ℕ)
      → visit set_monitor_status (silent_ids timeout now agents) s m agent ≡ (
          if fed_by_silent timeout now agents agent && not (is_held m.status)
          then demote set_monitor_status s m
          else (s, []))
  unfolding visit
  visit_lem timeout now agents s m none = refl
  visit_lem timeout now agents s m (some k) = ground (arith, elem-silent_ids timeout now agents k)

  visit_all_lem :
      (timeout now : ℕ) (agents : List Agent) (s : S) (ms : List Monitor)
      → visit_all set_monitor_status (silent_ids timeout now agents) s ms
        ≡ demote_all s (filter (is_orphan timeout now agents) ms)
  unfolding visit_all demote_all
  visit_all_lem timeout now agents s [] = refl
  visit_all_lem timeout now agents s (m ∷ ms) = ground (
    arith,
    visit_lem timeout now agents s m m.agent_id,
    visit_all_lem timeout now agents s ms,
    visit_all_lem timeout now agents (demote set_monitor_status s m).0 ms,
  )

  visit_all_none : (s : S) (ms : List Monitor) → visit_all set_monitor_status [] s ms ≡ (s, [])
  unfolding visit_all visit
  visit_all_none s [] = refl
  visit_all_none s (m ∷ ms) = ground (arith, visit_all_none s ms)

  sweep_silent-eq :
      (s : S) (ids : List ℕ) (ms : List Monitor)
      → sweep_silent set_monitor_status ids s (some ms) ≡ visit_all set_monitor_status ids s ms
  unfolding sweep_silent
  sweep_silent-eq s [] ms = sym (visit_all_none s ms)
  sweep_silent-eq s (id ∷ ids) ms = refl

  pub sweep-eq-demote_all :
      (timeout now : ℕ) (s : S) (agents : List Agent) (ms : List Monitor)
      → sweep set_monitor_status timeout now s (some agents) (some ms)
        ≡ demote_all s (filter (is_orphan timeout now agents) ms)
  unfolding sweep sweep_silent
  sweep-eq-demote_all timeout now s agents ms =
      sweep_silent-eq s (silent_ids timeout now agents) ms ∙ visit_all_lem timeout now agents s ms

-- The monitor as the store holds it once it is marked.
abbrev pub demoted : ℕ → ℕ → List Agent → Monitor → Monitor
demoted timeout now agents m =
    if is_orphan timeout now agents m then record m { status = stale } else m

no_orphan :
    (timeout now : ℕ) (agents : List Agent) (ms : List Monitor)
    → filter (is_orphan timeout now agents) (map (demoted timeout now agents) ms) ≡ []
no_orphan timeout now agents [] = refl
no_orphan timeout now agents (m ∷ ms) = ground (arith, no_orphan timeout now agents ms)

-- Once a sweep's marks are stored, the next sweep of the same agents changes nothing and asks for
-- no alert, so a silence is announced once.
pub sweep_twice :
    {S : Type 0} (set_monitor_status : S → ℕ → MonitorStatus → Bool × S) (timeout now : ℕ) (s : S)
    (agents : List Agent) (ms : List Monitor)
    → sweep set_monitor_status timeout now s
        (some agents)
        (some (map (demoted timeout now agents) ms))
      ≡ (s, [])
sweep_twice set_monitor_status timeout now s agents ms =
    sweep-eq-demote_all set_monitor_status timeout now s agents
      (map (demoted timeout now agents) ms)
    ∙ rw (no_orphan timeout now agents ms) (unfold demote_all in refl)
