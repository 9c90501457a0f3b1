-- ===== src/Startup/Boot/Guards.antt =====
-- Exactly when a daemon starts, and with which settings.
use monitra.Base.{
  ℕ, ◌*◌, ◌≤◌, ◌≡◌, refl, sym, ap, ◌∙◌, ◌↔◌, String, Bool, Option, none, some, map, arith, subst,
}
use monitra.Provider.Config.{ResolvedConfig, K8sClusterConfig}
use monitra.Startup.Boot.{
  Outcome, ok, err, and_then, open_store, build_cache, build_notifier, retention_of,
  resolve_or_generate_token, Settings, Given, boot_daemon, unwrap_or_seven,
}
use monitra.Startup.Boot.Sinks.{Sinks, build_notifier-Sinks, build-Sinks}

abbrev pub WhenOk {ℓ κ} : {A : Type ℓ} → (A → Type κ) → Outcome A → Type κ
WhenOk P (err error) = Unit
WhenOk P (ok value) = P value

and_then-WhenOk {ℓ κ ι} :
    {A : Type ℓ} {B : Type κ} (P : B → Type ι) (o : Outcome A) (next : A → Outcome B)
    → ((a : A) → o ≡ ok a → WhenOk P (next a))
    → WhenOk P (and_then o next)
unfolding and_then
and_then-WhenOk P (err error) next step = tt
and_then-WhenOk P (ok value) next step = step value refl

-- The configured token, or else the one that is generated.
abbrev pub Tokens : Option String → Outcome String → String → Type 0
Tokens (some configured) generated token = token ≡ configured
Tokens none generated token = generated ≡ ok token

-- The text of the days, or else 7.
abbrev pub days_text : Option String → String
days_text none = "7"
days_text (some text) = text

-- What has to hold for a daemon to start with these settings.
pub record IsReady {D : Type 0} (has_slack : Bool) (at_first resolved : ResolvedConfig)
    (given : Given D) (settings : Settings D) : Type 0 where
  pub no_store : at_first.store.value ≡ none
  pub opened : given.opened ≡ ok settings.store
  pub no_cache : resolved.cache.value ≡ none
  pub days : ℕ
  pub read : given.parse (days_text resolved.retention_days.value) ≡ ok days
  pub at_least : 1 ≤ days
  pub at_most : days ≤ 3650
  pub kept : settings.retention_secs ≡ days * 86400
  pub authorised : Tokens resolved.api_token.value given.generated settings.token
  pub delivers : Sinks has_slack resolved.notifier.value settings.sink
  pub answers : given.healthy settings.store ≡ ok tt
  pub attached : settings.k8s_clusters ≡ map K8sClusterConfig.name resolved.k8s

retention_days_of :
    (parsed : Outcome ℕ) (secs : ℕ)
    → retention_of parsed ≡ ok secs
    → (days : ℕ) × (parsed ≡ ok days) × (1 ≤ days) × (days ≤ 3650) × (secs ≡ days * 86400)
unfolding retention_of
retention_days_of (err error) secs e = absurd (cc)
retention_days_of (ok days) secs e =
    (days, refl, ground (arith, e), ground (arith, e), ground (arith, e))

retention_accepts : (days : ℕ) → 1 ≤ days → days ≤ 3650 → retention_of (ok days) ≡ ok (days * 86400)
unfolding retention_of
retention_accepts days low high = ground arith

opened_alone :
    {D : Type 0} (url : Option String) (opened : Outcome D) (store : D)
    → open_store url opened ≡ ok store
    → (url ≡ none) × (opened ≡ ok store)
unfolding open_store
opened_alone none opened store e = (refl, e)
opened_alone (some url) opened store e = absurd (cc)

only_in_process : (url : Option String) (done : Unit {0}) → build_cache url ≡ ok done → url ≡ none
unfolding build_cache
only_in_process none done e = refl
only_in_process (some url) done e = absurd (cc)

token-Tokens :
    (configured : Option String) (generated : Outcome String) (token : String)
    → (resolve_or_generate_token configured generated ≡ ok token)
      ↔ Tokens configured generated token
unfolding resolve_or_generate_token
token-Tokens none generated token = (λ e. e, λ e. e)
token-Tokens (some configured) generated token = (λ e. cc, λ e. cc)

text-days_text : (days : Option String) → unwrap_or_seven days ≡ days_text days
text-days_text none = refl
text-days_text (some days) = refl

boot_daemon-IsReady :
    {D : Type 0} (has_slack : Bool) (at_first resolved : ResolvedConfig) (given : Given D)
    → WhenOk
        (IsReady has_slack at_first resolved given)
        (boot_daemon has_slack at_first resolved given)
unfolding boot_daemon
boot_daemon-IsReady has_slack at_first resolved given =
    let text = unwrap_or_seven resolved.retention_days.value in
    and_then-WhenOk _ (open_store at_first.store.value given.opened) _ λ store opened.
      and_then-WhenOk _ (retention_of (given.parse text)) _ λ secs kept.
        and_then-WhenOk _ (build_cache resolved.cache.value) _ λ done cached.
          and_then-WhenOk _ (resolve_or_generate_token resolved.api_token.value given.generated) _
            λ token given_token.
              and_then-WhenOk _ (build_notifier has_slack resolved.notifier.value) _ λ sink built.
                and_then-WhenOk _ (given.healthy store) _ λ well healthy.
                  let alone = opened_alone at_first.store.value given.opened store opened in
                  let (days, parsed, low, high, same) =
                    retention_days_of (given.parse text) secs kept in
                  record {
                    no_store = alone.0;
                    opened = alone.1;
                    no_cache = only_in_process resolved.cache.value done cached;
                    days = days;
                    read =
                        ap given.parse (sym (text-days_text resolved.retention_days.value))
                        ∙ parsed;
                    at_least = low;
                    at_most = high;
                    kept = same;
                    authorised = (token-Tokens _ _ token).0 given_token;
                    delivers = build_notifier-Sinks has_slack _ sink built;
                    answers = healthy;
                    attached = refl;
                  }

retained :
    (parse : String → Outcome ℕ) (text : Option String) (days secs : ℕ)
    → parse (days_text text) ≡ ok days
    → 1 ≤ days
    → days ≤ 3650
    → secs ≡ days * 86400
    → retention_of (parse (unwrap_or_seven text)) ≡ ok secs
retained parse text days secs read low high kept =
    ap (λ s. retention_of (parse s)) (text-days_text text)
    ∙ ap retention_of read
    ∙ retention_accepts days low high
    ∙ ap ok (sym kept)

-- A daemon starts with some settings exactly if no other store and cache are configured, the store
-- can be opened and answers, the configured number of days, or 7, is read and from 1 to 3650, the
-- notifier is none, a `webhook://` URL, or a `slack://` one in a build with Slack, and there is a
-- token, configured or else generated; the settings being that store, those days in seconds, that
-- token, the log or the `https://` URL of that webhook or Slack hook, and the names of the clusters.
pub boot_daemon_iff :
    {D : Type 0} (has_slack : Bool) (at_first resolved : ResolvedConfig) (given : Given D)
    (settings : Settings D)
    → (boot_daemon has_slack at_first resolved given ≡ ok settings)
      ↔ IsReady has_slack at_first resolved given settings
boot_daemon_iff has_slack at_first resolved given settings = (
  λ e.
      subst (WhenOk (IsReady has_slack at_first resolved given)) e
        (boot_daemon-IsReady has_slack at_first resolved given),
  λ h.
      unfold boot_daemon and_then open_store build_cache in
      rw
        (
          h.no_store,
          h.opened,
          retained given.parse resolved.retention_days.value h.days settings.retention_secs h.read
              h.at_least h.at_most h.kept,
          h.no_cache,
          (token-Tokens resolved.api_token.value given.generated settings.token).1 h.authorised,
          build-Sinks has_slack resolved.notifier.value settings.sink h.delivers,
          h.answers,
          sym h.attached,
        )
        refl,
)
