-- ===== src/Engine/Flap/Damping.antt =====
-- What damping does over a whole history of outcomes.
use monitra.Base.{
  ℕ, ◌≤◌, ◌≡◌, ◌≢◌, ◌⊎◌, Bool, true, false, Option, none, some, List, [], ◌∷◌, arith,
}
use monitra.Models.{MonitorStatus, up, down}
use monitra.Engine.Flap.{FlapState, observe}

-- A status with its counters, fed by the outcomes in the order in which they arrive: what the
-- scheduler does with the result of `observe`.
abbrev pub applied : MonitorStatus → Option MonitorStatus → MonitorStatus
applied current none = current
applied current (some new) = new

unfoldable pub feed : FlapState → MonitorStatus → List Bool → FlapState × MonitorStatus
feed f current [] = (f, current)
feed f current (success ∷ rest) =
    let (f', new) = observe f success current in feed f' (applied current new) rest

-- The outcomes of a history, newest first, put before `older`.
abbrev pub newest_first : List Bool → List Bool → List Bool
newest_first [] older = older
newest_first (success ∷ rest) older = newest_first rest (success ∷ older)

-- The status by the last two outcomes alone, newest first: one success is up, two failures in a
-- row are down, and one failure leaves what was settled before it.
abbrev pub settled : MonitorStatus → List Bool → MonitorStatus
settled start [] = start
settled start (true ∷ older) = up
settled start (false ∷ []) = start
settled start (false ∷ false ∷ older) = down
settled start (false ∷ true ∷ older) = up

-- What the counters know of the history.
abbrev Counted : FlapState → List Bool → Type 0
Counted f [] = (f.consecutive_success ≡ 0) × (f.consecutive_failure ≡ 0)
Counted f (true ∷ older) = f.consecutive_failure ≡ 0
Counted f (false ∷ []) = (f.consecutive_success ≡ 0) × (f.consecutive_failure ≡ 1)
Counted f (false ∷ true ∷ older) = (f.consecutive_success ≡ 0) × (f.consecutive_failure ≡ 1)
Counted f (false ∷ false ∷ older) = f.consecutive_success ≡ 0

abbrev Agrees : MonitorStatus → FlapState → MonitorStatus → List Bool → Type 0
Agrees start f current h = Counted f h × (current ≡ settled start h)

-- A transition always changes the status, and is to up or to down: up after a success, down only
-- after a failure that is at least the second in a row.
pub observe_transition :
    (f : FlapState) (success : Bool) (current new : MonitorStatus)
    → (observe f success current).1 ≡ some new
    → (new ≢ current)
      × (((success ≡ true) × (new ≡ up))
          ⊎ ((success ≡ false) × (new ≡ down) × (1 ≤ f.consecutive_failure)))
unfolding observe
observe_transition f true current new h = ground arith
observe_transition f false current new h = ground arith

-- The first failure changes no status, pending and stale included: it needs a second one.
pub first_failure_holds :
    (s : ℕ) (current : MonitorStatus)
    → (observe (record { consecutive_success = s; consecutive_failure = 0 }) false current).1 ≡ none
unfolding observe
first_failure_holds s current = ground arith
