-- ===== src/Startup/Commands/Tests.antt =====
-- Commands on a configuration, and an instance of the theorem.
use monitra.Base.{String, ◌≡◌, refl, none, some, [], ◌∷◌}
use monitra.Base.Text.{strip_prefix, split_once}
use monitra.Provider.Error.{notifier}
use monitra.Provider.Config.{ConfigFile, K8sClusterConfig, ConfigSources}
use monitra.Provider.Registry.{ok, category_for_scheme, category_of, scheme_of}
use monitra.Startup.Commands.{service_attach, service_detach, cleared, save}
use monitra.Startup.Commands.Effects.{TakesEffect, service_attach-TakesEffect}

abbrev cluster : String → String → K8sClusterConfig
cluster name kubeconfig = record {
  name = name;
  kubeconfig = kubeconfig;
  context = none;
  namespace = none;
}

abbrev file : ConfigFile
file = record {
  store = none;
  cache = none;
  notifier = some "webhook://h";
  api_token = none;
  retention_days = some 7;
  k8s = cluster "a" "/a" ∷ cluster "b" "/b" ∷ [];
}

detached : service_detach file "notifier" ≡ save (record file { notifier = none })
unfolding service_detach cleared
detached = refl

-- A project's file that says nothing of services, and a flag for the cache.
abbrev sources : ConfigSources
sources = record {
  xdg = none;
  project = some (record file { notifier = none });
  env = λ name. none;
  flags = record { store = none; cache = some "c"; notifier = none; retention_days = none };
}

service_attach-TakesEffect_example :
    TakesEffect
      (λ n. "n")
      sources
      file
      "slack://hooks/x"
      (ok notifier)
      (service_attach (λ n. "n") file "slack://hooks/x")
unfolding category_for_scheme category_of scheme_of split_once strip_prefix
service_attach-TakesEffect_example =
    service_attach-TakesEffect (λ n. "n") sources file "slack://hooks/x"
