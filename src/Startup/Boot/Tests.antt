-- ===== src/Startup/Boot/Tests.antt =====
-- A start, a configured notifier that no start takes, and an instance of the theorem.
use monitra.Base.{ℕ, ◌≡◌, ◌↔◌, refl, true, none, some, []}
use monitra.Base.Text.{strip_prefix, split_once}
use monitra.Provider.Config.{ResolvedConfig, ConfigFile, default_value, xdg}
use monitra.Provider.Registry.{category_for_scheme, category_of, scheme_of}
use monitra.Startup.Boot.{ok, err, Given, Settings, boot_daemon, build_notifier, slack, to_endpoint}
use monitra.Startup.Boot.Guards.{IsReady, boot_daemon_iff}
use monitra.Startup.Commands.{save, service_attach, attach_as, attach_to}

abbrev resolved : ResolvedConfig
resolved = record {
  store = default_value;
  cache = default_value;
  notifier = record { value = some "slack://hooks/x"; source = xdg };
  api_token = default_value;
  retention_days = default_value;
  k8s = [];
}

abbrev given : Given ℕ
given = record { opened = ok 1; parse = λ days. ok 7; generated = ok "t"; healthy = λ store. ok tt }

abbrev settings : Settings ℕ
settings = record {
  store = 1;
  retention_secs = 604800;
  token = "t";
  sink = slack "https://hooks/x";
  k8s_clusters = [];
}

it_starts : boot_daemon true resolved resolved given ≡ ok settings
unfolding boot_daemon to_endpoint strip_prefix
it_starts = refl

boot_daemon_iff_example :
    (boot_daemon true resolved resolved given ≡ ok settings)
    ↔ IsReady true resolved resolved given settings
boot_daemon_iff_example = boot_daemon_iff true resolved resolved given settings

abbrev file : ConfigFile
file = record {
  store = none;
  cache = none;
  notifier = none;
  api_token = none;
  retention_days = none;
  k8s = [];
}

-- `service attach slack` is taken, and no daemon starts with what it writes.
attached_but_refused :
    (service_attach (λ n. "n") file "slack" ≡ save (record file { notifier = some "slack" }))
    × (build_notifier true (some "slack")
        ≡ err
            "notifier: 'slack' is not a recognized notifier URL (expected webhook:// or slack://)")
unfolding service_attach attach_as attach_to category_for_scheme category_of scheme_of split_once
    strip_prefix build_notifier
attached_but_refused = (refl, refl)
