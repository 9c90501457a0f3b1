-- ===== src/Startup/Commands.antt =====
-- `service attach`, `service detach`, `k8s attach` and `k8s detach` of src/main.rs: what each does to
-- the configuration file. The file is read and written elsewhere; `decimal` prints a number.
pub mod Effects
mod Tests
use monitra.Base.{
  ℕ, String, ◌<>◌, Bool, true, false, not, Option, none, some, List, [], ◌∷◌, ◌++◌, ◌==◌, filter,
  length, str_eq, if◌then◌else◌, is_some,
}
use monitra.Provider.Error.{
  ProviderCategory, store, cache, notifier, collector, ProviderError, to_string,
}
use monitra.Provider.Config.{ConfigFile, K8sClusterConfig}
use monitra.Provider.Registry.{Category, ok, err, category_for_scheme}

-- What a command ends with: a file to write, nothing to do, or an error.
pub data Edited : Type 0 where
  save : ConfigFile → Edited
  nothing : Edited
  failed : String → Edited

abbrev pub collector_error : String
collector_error =
    "service attach: Kubernetes clusters use `monitra k8s attach`, not `service attach` (§11.8)"

unfoldable pub attach_to : ConfigFile → String → ProviderCategory → Edited
attach_to config url store = save (record config { store = some url })
attach_to config url cache = save (record config { cache = some url })
attach_to config url notifier = save (record config { notifier = some url })
attach_to config url collector = failed collector_error

unfoldable pub attach_as : (ℕ → String) → ConfigFile → String → Category → Edited
unfolding attach_to
attach_as decimal config url (err error) = failed (to_string decimal error)
attach_as decimal config url (ok category) = attach_to config url category

unfoldable pub service_attach : (ℕ → String) → ConfigFile → String → Edited
unfolding attach_as
service_attach decimal config url = attach_as decimal config url (category_for_scheme url)

-- `std::mem::take(…).is_some()` of the field, and the file without it.
unfoldable pub cleared : Option String → ConfigFile → Edited
cleared none config = nothing
cleared (some url) config = save config

unfoldable pub service_detach : ConfigFile → String → Edited
unfolding cleared
service_detach config name =
    if str_eq name "store"
    then cleared config.store (record config { store = none })
    else (if str_eq name "cache"
        then cleared config.cache (record config { cache = none })
        else (if str_eq name "notifier"
            then cleared config.notifier (record config { notifier = none })
            else failed (
                "service detach: unknown category '" <> name
                <> "' (expected store, cache, or notifier)")))

-- `.retain(|cluster| cluster.name != name)`.
unfoldable pub without : String → List K8sClusterConfig → List K8sClusterConfig
without name [] = []
without name (cluster ∷ clusters) =
    let rest = without name clusters in if str_eq cluster.name name then rest else cluster ∷ rest

unfoldable pub k8s_attach : ConfigFile → K8sClusterConfig → Edited
unfolding without
k8s_attach config cluster =
    save (record config { k8s = without cluster.name config.k8s ++ cluster ∷ [] })

unfoldable pub k8s_detach : ConfigFile → String → Edited
unfolding without
k8s_detach config name =
    let k8s = without name config.k8s in
    if length k8s == length config.k8s then nothing else save (record config { k8s = k8s })
