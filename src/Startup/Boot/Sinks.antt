-- ===== src/Startup/Boot/Sinks.antt =====
-- Which notifier is built from a URL.
use Prim.Native.Char.{Char, code}
use text.Mathlib.TextLemmas.{cons-append}
use monitra.Base.{
  ◌≡◌, refl, sym, ap, ◌∙◌, String, ◌<>◌, Bool, true, false, Option, none, some, arith, subst,
  Option-cases, inl, inr, ◌==◌,
}
use monitra.Base.Text.{strip_prefix}
use monitra.Base.Text.Laws.{strip_prefix-append, strip_prefix_sound}
use monitra.Startup.Boot.{
  ok, build_notifier, build_slack_notifier, to_endpoint, Sink, log, webhook, slack,
}

-- Which sink a notifier's URL asks for: none the log, `webhook://rest` the webhook at `https://rest`,
-- and `slack://rest`, if the build has Slack, the Slack hook at `https://rest`.
pub data Sinks (has_slack : Bool) : Option String → Sink → Type 0 where
  to_log : Sinks has_slack none log
  to_webhook :
      (url rest : String)
      → url ≡ "webhook://" <> rest
      → Sinks has_slack (some url) (webhook ("https://" <> rest))
  to_slack :
      (url rest : String)
      → has_slack ≡ true
      → url ≡ "slack://" <> rest
      → Sinks has_slack (some url) (slack ("https://" <> rest))

slack_rest :
    (has_slack : Bool) (url rest : String) (sink : Sink)
    → strip_prefix "slack://" url ≡ some rest
    → build_slack_notifier has_slack url ≡ ok sink
    → (has_slack ≡ true) × (sink ≡ slack ("https://" <> rest))
unfolding build_slack_notifier to_endpoint
slack_rest true url rest sink found e = (refl, ground (arith, found, e))
slack_rest false url rest sink found e = absurd (cc)

pub build_notifier-Sinks :
    (has_slack : Bool) (url : Option String) (sink : Sink)
    → build_notifier has_slack url ≡ ok sink
    → Sinks has_slack url sink
unfolding build_notifier to_endpoint
build_notifier-Sinks has_slack none sink e = subst (Sinks has_slack none) (cc) to_log
build_notifier-Sinks has_slack (some url) sink e =
    elim (Option-cases (strip_prefix "webhook://" url)) [
      | inr (rest, found) ↦
          subst (Sinks has_slack (some url)) (ground (arith, found, e))
            (to_webhook url rest (strip_prefix_sound "webhook://" url found))
      | inl no_webhook ↦ elim (Option-cases (strip_prefix "slack://" url)) [
        | inr (rest, found) ↦
            let (has, same) =
              slack_rest has_slack url rest sink found (rw (no_webhook, found) at e) in
            subst (Sinks has_slack (some url)) (sym same)
              (to_slack url rest has (strip_prefix_sound "slack://" url found))
        | inl no_slack ↦ absurd (ground (arith, no_webhook, no_slack, e))
      ]
    ]

-- A text that starts with another character does not have a prefix.
prefix_differs :
    (c d : Char) (p q rest : String)
    → (code c == code d) ≡ false
    → strip_prefix (String.◌∷◌ c p) (String.◌∷◌ d q <> rest) ≡ none
unfolding strip_prefix
prefix_differs c d p q rest differs = rw (cons-append d q rest, differs) refl

pub build-Sinks :
    (has_slack : Bool) (url : Option String) (sink : Sink)
    → Sinks has_slack url sink
    → build_notifier has_slack url ≡ ok sink
unfolding build_notifier build_slack_notifier to_endpoint
build-Sinks has_slack none sink to_log = refl
build-Sinks has_slack (some url) sink (to_webhook _ rest p) =
    ground (arith, ap (strip_prefix "webhook://") p ∙ strip_prefix-append "webhook://" rest)
build-Sinks has_slack (some url) sink (to_slack _ rest has p) = ground (
  arith,
  has,
  ap (strip_prefix "webhook://") p ∙ prefix_differs "w" "s" "ebhook://" "lack://" rest refl,
  ap (strip_prefix "slack://") p ∙ strip_prefix-append "slack://" rest,
)
