-- ===== src/Provider/Store.antt =====
-- The contract of a store, the trait `Store` of crates/provider/src/traits.rs, as the backend's
-- services use it: a call that changes the store gives its answer and the store afterwards. And
-- `resolve_store` of policy.rs, which checks a configured store at the start.
use monitra.Base.{ℕ, String, ◌<>◌, Option, none, some, List}
use monitra.Models.{Monitor, MonitorStatus, Agent, AlertEvent, CheckResult}
use monitra.Provider.Error.{store as store_category, unavailable, to_string}
use monitra.Provider.Cache.{Answer, ok, err}

pub record Store (S : Type 0) : Type 0 where
  pub name : String
  pub health_check : S → Answer (Unit {0})
  pub insert_monitor : S → Monitor → Answer Monitor × S
  pub get_monitor : S → ℕ → Answer (Option Monitor)
  pub list_monitors : S → Answer (List Monitor)
  pub update_monitor :
      S → ℕ → Option String → Option String → Option ℕ → Option ℕ → Answer (Unit {0}) × S
  pub set_monitor_status : S → ℕ → MonitorStatus → Answer (Unit {0}) × S
  pub delete_monitor : S → ℕ → Answer (Unit {0}) × S
  pub list_check_results : S → ℕ → Option ℕ → Answer (List CheckResult)
  pub upsert_agent : S → Agent → Answer Agent × S
  pub list_agents : S → Answer (List Agent)
  pub delete_agent : S → ℕ → Answer (Unit {0}) × S
  pub list_all_alert_events : S → Answer (List AlertEvent)

-- What becomes of the answer of the configured store.
unfoldable pub refuse_unreachable : (ℕ → String) → String → Answer (Unit {0}) → Answer (Unit {0})
refuse_unreachable decimal name (ok done) = ok done
refuse_unreachable decimal name (err source) = err (
    unavailable store_category
      ("configured store '" <> name <> "' is unreachable: " <> to_string decimal source))

module _ {S : Type 0} (ops : Store S) (decimal : ℕ → String) where
  unfoldable pub resolve_store : Option S → Answer (Unit {0})
  unfolding refuse_unreachable
  resolve_store none = ok tt
  resolve_store (some store) = refuse_unreachable decimal ops.name (ops.health_check store)
