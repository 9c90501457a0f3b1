-- ===== src/Engine/Target/Tests.antt =====
-- Targets as the unit tests of scheduler.rs have them.
use monitra.Base.{◌≡◌, refl, none, some}
use monitra.Engine.Target.{parse_k8s_target}

no_name : parse_k8s_target "prod/web" ≡ none
unfolding parse_k8s_target
no_name = refl

deep_name : parse_k8s_target "prod/web/api/v2" ≡ some ("prod", "web", "api/v2")
unfolding parse_k8s_target
deep_name = refl
