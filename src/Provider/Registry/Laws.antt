-- ===== src/Provider/Registry/Laws.antt =====
-- Which URLs attach a service.
use monitra.Base.{String, ◌<>◌, ◌≡◌, ◌∙◌, ◌⊎◌, arith, Option-cases, inl, inr, str_eq_iff}
use monitra.Base.Text.{split_once}
use monitra.Base.Text.Laws.{split_once_sound}
use monitra.Provider.Error.{ProviderCategory, notifier}
use monitra.Provider.Registry.{ok, scheme_of, category_of, category_for_scheme}

-- A text that is a scheme, or begins with it and `://`.
abbrev pub HasScheme : String → String → Type 0
HasScheme scheme url = (url ≡ scheme) ⊎ ((rest : String) × (url ≡ scheme <> ("://" <> rest)))

scheme-HasScheme :
    (url scheme : String) → scheme_of url (split_once "://" url) ≡ scheme → HasScheme scheme url
unfolding scheme_of
scheme-HasScheme url scheme h = elim (Option-cases (split_once "://" url)) [
  | inl e ↦ inl (ground (arith, e, h))
  | inr ((a, rest), e) ↦ inr (rest, split_once_sound "://" url a rest e ∙ ground (arith, e, h))
]

category_of_sound :
    (scheme : String) (c : ProviderCategory)
    → category_of scheme ≡ ok c
    → (c ≡ notifier) × ((scheme ≡ "slack") ⊎ (scheme ≡ "webhook"))
unfolding category_of
category_of_sound scheme c h =
    ground (arith, h, str_eq_iff scheme "slack", str_eq_iff scheme "webhook")

-- Only a notifier is ever attached by a URL, and only by one that is, or begins with, `slack` or
-- `webhook`.
pub category_for_scheme_sound :
    (url : String) (c : ProviderCategory)
    → category_for_scheme url ≡ ok c
    → (c ≡ notifier) × (HasScheme "slack" url ⊎ HasScheme "webhook" url)
unfolding category_for_scheme
category_for_scheme_sound url c h =
    let (same, which) = category_of_sound (scheme_of url (split_once "://" url)) c h in
    (
      same,
      elim which [
        | inl e ↦ inl (scheme-HasScheme url "slack" e)
        | inr e ↦ inr (scheme-HasScheme url "webhook" e)
      ],
    )
