-- ===== src/Provider/Registry/Tests.antt =====
-- Two URLs, and an instance of the theorem.
use monitra.Base.{◌≡◌, refl, ◌⊎◌}
use monitra.Base.Text.{split_once}
use monitra.Provider.Error.{notifier, unsupported_scheme}
use monitra.Provider.Registry.{err, category_for_scheme}
use monitra.Provider.Registry.Laws.{HasScheme, category_for_scheme_sound}

redis_is_unsupported : category_for_scheme "redis://cache:6379" ≡ err (unsupported_scheme "redis")
unfolding category_for_scheme split_once
redis_is_unsupported = refl

two_urls :
    (notifier ≡ notifier)
    × (HasScheme "slack" "slack://hooks/T1" ⊎ HasScheme "webhook" "slack://hooks/T1")
unfolding category_for_scheme split_once
two_urls = category_for_scheme_sound "slack://hooks/T1" notifier refl
