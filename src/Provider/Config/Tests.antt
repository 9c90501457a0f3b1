-- ===== src/Provider/Config/Tests.antt =====
-- Four layers that disagree.
use monitra.Base.{ℕ, ◌≡◌, refl, String, Option, none, some, [], str_eq, if◌then◌else◌}
use monitra.Provider.Config.{
  ConfigFile, ConfigSources, flag, env, xdg, project, resolve, layer, layer_files, overridden,
}

abbrev file : String → ConfigFile
file store = record {
  store = some store;
  cache = none;
  notifier = some "webhook://user";
  api_token = some "secret";
  retention_days = some 7;
  k8s = [];
}

abbrev variables : String → Option String
variables name = if str_eq name "MONITRA_NOTIFIER" then some "slack://env" else none

abbrev sources : ConfigSources
sources = record {
  xdg = some (file "user.db");
  project = some (record (file "project.db") { api_token = none; notifier = none });
  env = variables;
  flags = record { store = some "flag.db"; cache = none; notifier = none; retention_days = none };
}

abbrev decimal : ℕ → String
decimal n = "7"

disagreeing :
    let config = resolve decimal sources in
    (config.store ≡ record { value = some "flag.db"; source = flag })
    × (config.notifier ≡ record { value = some "slack://env"; source = env })
    × (config.api_token ≡ record { value = some "secret"; source = xdg })
    × (config.retention_days ≡ record { value = some "7"; source = project })
unfolding resolve layer layer_files overridden
disagreeing = (refl, refl, refl, refl)
