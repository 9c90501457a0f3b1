-- ===== src/Startup/Commands/Effects.antt =====
-- What an attached service or cluster is at the next start.
use monitra.Base.{
  ℕ, ◌≡◌, refl, sym, ap, ◌∙◌, String, Bool, true, false, Option, none, some, List, [], ◌∷◌, arith,
  str_eq, if◌then◌else◌, subst,
}
use monitra.Base.Eq.{string_Eq, same_self}
use monitra.Storage.Rows.{has, select, delete}
use monitra.Storage.Rows.Laws.{has-delete, UniqueKeys, append-UniqueKeys, delete-UniqueKeys}
use monitra.Storage.Rows.Selection.{select-append, select-delete}
use monitra.Provider.Error.{ProviderCategory, store, cache, notifier, collector}
use monitra.Provider.Config.{
  ConfigFile, K8sClusterConfig, ConfigSources, ConfigSource, ResolvedField, ResolvedConfig,
  default_value, env, flag, project, xdg, resolve, layer_files, layer, and_then, overridden,
}
use monitra.Provider.Registry.{Category, ok, err, category_for_scheme}
use monitra.Startup.Commands.{
  Edited, save, nothing, failed, service_attach, attach_as, attach_to, without, k8s_attach,
  collector_error,
}

-- The clusters of a name go as the rows of a key do.
without-eq-delete :
    (name : String) (clusters : List K8sClusterConfig)
    → without name clusters ≡ delete K8sClusterConfig.name name clusters
unfolding without delete
without-eq-delete name [] = refl
without-eq-delete name (cluster ∷ clusters) = ground (arith, without-eq-delete name clusters)

abbrev pub Attached : ConfigFile → K8sClusterConfig → Edited → Type 0
Attached before cluster (save after) =
    UniqueKeys K8sClusterConfig.name after.k8s
    × ((name : String)
        → select K8sClusterConfig.name name after.k8s ≡ (
            if str_eq cluster.name name
            then some cluster
            else select K8sClusterConfig.name name before.k8s))
Attached before cluster nothing = ⊥
Attached before cluster (failed message) = ⊥

gone :
    (name : String) (clusters : List K8sClusterConfig)
    → has K8sClusterConfig.name name (without name clusters) ≡ false
gone name clusters =
    ap (has K8sClusterConfig.name name) (without-eq-delete name clusters)
    ∙ ground (arith, has-delete K8sClusterConfig.name name name clusters, same_self name)

found_without :
    (name other : String) (clusters : List K8sClusterConfig)
    → select K8sClusterConfig.name other (without name clusters)
      ≡ (if str_eq name other then none else select K8sClusterConfig.name other clusters)
found_without name other clusters =
    ap (select K8sClusterConfig.name other) (without-eq-delete name clusters)
    ∙ select-delete K8sClusterConfig.name name other clusters

instead :
    (here : Bool) (cluster : K8sClusterConfig) (left before : Option K8sClusterConfig)
    → left ≡ (if here then none else before)
    → (if here then some cluster else left) ≡ (if here then some cluster else before)
instead true cluster left before h = refl
instead false cluster left before h = h

-- A cluster that is attached is the only one of its name, in place of what had that name; the other
-- clusters are as they were; where no two of them had one name.
pub k8s_attach-Attached :
    (config : ConfigFile) (cluster : K8sClusterConfig)
    → UniqueKeys K8sClusterConfig.name config.k8s
    → Attached config cluster (k8s_attach config cluster)
unfolding k8s_attach
k8s_attach-Attached config cluster unique = (
  append-UniqueKeys K8sClusterConfig.name _ cluster (gone cluster.name config.k8s) (
      subst (UniqueKeys K8sClusterConfig.name) (sym (without-eq-delete cluster.name config.k8s)) (
        delete-UniqueKeys K8sClusterConfig.name K8sClusterConfig.name cluster.name config.k8s
          unique)),
  λ name.
      select-append K8sClusterConfig.name name _ cluster (gone cluster.name config.k8s)
      ∙ instead (str_eq cluster.name name) cluster _ _ (found_without cluster.name name config.k8s),
)

-- A value, or else what comes after it.
abbrev pub or_else : Option String → Option String → Option String
or_else (some value) later = some value
or_else none later = later

-- What the project's file says, if there is one.
abbrev pub stated : Option ConfigFile → (ConfigFile → Option String) → Option String
stated none pick = none
stated (some file) pick = pick file

-- What the configuration resolves to, where the user's file is this one and all else is given.
abbrev pub resolved_with : (ℕ → String) → ConfigSources → ConfigFile → ResolvedConfig
resolved_with decimal sources file = resolve decimal (record sources { xdg = some file })

-- The fields that are no services.
abbrev pub others : ResolvedConfig → ResolvedField × ResolvedField × List K8sClusterConfig
others c = (c.api_token, c.retention_days, c.k8s)

-- Of a category: its value by the layers, the flag before the variable, the project's file and the
-- URL; and the other fields as they were resolved before.
abbrev pub Takes :
    ConfigSources → String → ProviderCategory → ResolvedConfig → ResolvedConfig → Type 0
Takes sources url store before after =
    (after.store.value
      ≡ or_else sources.flags.store (
          or_else (sources.env "MONITRA_STORE")
            (or_else (stated sources.project ConfigFile.store) (some url))))
    × (after.cache ≡ before.cache)
    × (after.notifier ≡ before.notifier)
    × (others after ≡ others before)
Takes sources url cache before after =
    (after.cache.value
      ≡ or_else sources.flags.cache (
          or_else (sources.env "MONITRA_CACHE")
            (or_else (stated sources.project ConfigFile.cache) (some url))))
    × (after.store ≡ before.store)
    × (after.notifier ≡ before.notifier)
    × (others after ≡ others before)
Takes sources url notifier before after =
    (after.notifier.value
      ≡ or_else sources.flags.notifier (
          or_else (sources.env "MONITRA_NOTIFIER")
            (or_else (stated sources.project ConfigFile.notifier) (some url))))
    × (after.store ≡ before.store)
    × (after.cache ≡ before.cache)
    × (others after ≡ others before)
Takes sources url collector before after = ⊥

abbrev pub TakesEffect :
    (ℕ → String) → ConfigSources → ConfigFile → String → Category → Edited → Type 0
TakesEffect decimal sources config url (ok collector) edited = edited ≡ failed collector_error
TakesEffect decimal sources config url (ok category) (save file) =
    Takes sources url category (resolved_with decimal sources config)
      (resolved_with decimal sources file)
TakesEffect decimal sources config url (err error) (failed message) = Unit
TakesEffect decimal sources config url category edited = ⊥

value-overridden :
    (current : ResolvedField) (v : Option String) (source : ConfigSource)
    → (overridden current v source).value ≡ or_else v current.value
unfolding overridden
value-overridden current none source = refl
value-overridden current (some value) source = refl

and_then-stated :
    (file : Option ConfigFile) (pick : ConfigFile → Option String)
    → and_then file pick ≡ stated file pick
unfolding and_then
and_then-stated none pick = refl
and_then-stated (some file) pick = refl

-- The value of a field, where the user's file says the URL.
layered :
    (sources : ConfigSources) (file : ConfigFile) (pick : ConfigFile → Option String) (url : String)
    (variable flag_value : Option String)
    → pick file ≡ some url
    → (overridden
        (overridden (layer_files (record sources { xdg = some file }) pick) variable env)
        flag_value
        flag).value
      ≡ or_else flag_value (or_else variable (or_else (stated sources.project pick) (some url)))
layered sources file pick url variable flag_value said =
    value-overridden _ flag_value flag
    ∙ ap (or_else flag_value) (
        value-overridden _ variable env
        ∙ ap (or_else variable) (
            unfold layer_files layer in
            (value-overridden _ (and_then sources.project pick) project
              ∙ rw (and_then-stated sources.project pick) (
                  ap (or_else (stated sources.project pick)) (
                    value-overridden default_value (and_then (some file) pick) xdg
                    ∙ rw (and_then-stated (some file) pick, said) refl)))))

attach_as-TakesEffect :
    (decimal : ℕ → String) (sources : ConfigSources) (config : ConfigFile) (url : String)
    (category : Category)
    → TakesEffect decimal sources config url category (attach_as decimal config url category)
unfolding attach_as attach_to resolve layer_files layer and_then
attach_as-TakesEffect decimal sources config url (ok store) = (
  layered sources (record config { store = some url }) ConfigFile.store url _ _ refl,
  refl,
  refl,
  refl,
)
attach_as-TakesEffect decimal sources config url (ok cache) = (
  layered sources (record config { cache = some url }) ConfigFile.cache url _ _ refl,
  refl,
  refl,
  refl,
)
attach_as-TakesEffect decimal sources config url (ok notifier) = (
  layered sources (record config { notifier = some url }) ConfigFile.notifier url _ _ refl,
  refl,
  refl,
  refl,
)
attach_as-TakesEffect decimal sources config url (ok collector) = refl
attach_as-TakesEffect decimal sources config url (err error) = tt

-- Whatever the other layers say: a service whose scheme is known, and is not a collector's, is
-- written to the user's file, and from that file its category resolves to the flag, or else the
-- variable, or else the project's file, or else the URL, and every other field to what it resolved to
-- before; for another URL nothing is written.
pub service_attach-TakesEffect :
    (decimal : ℕ → String) (sources : ConfigSources) (config : ConfigFile) (url : String)
    → TakesEffect decimal sources config url
        (category_for_scheme url)
        (service_attach decimal config url)
unfolding service_attach
service_attach-TakesEffect decimal sources config url =
    attach_as-TakesEffect decimal sources config url (category_for_scheme url)
