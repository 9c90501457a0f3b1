-- ===== src/Engine/Target.antt =====
-- `parse_k8s_target` of crates/engine/src/scheduler.rs.
pub mod Laws
mod Tests
use monitra.Base.{String, Option, none, some, List, [], ◌∷◌, ◌||◌, if◌then◌else◌}
use monitra.Base.Text.{splitn, is_empty}

abbrev pub K8sTarget : Type 0
K8sTarget = String × String × String

-- Three calls of `parts.next()?`, and the test for empty parts.
parts_of : List String → Option K8sTarget
parts_of (cluster ∷ namespace ∷ name ∷ rest) =
    if is_empty cluster || is_empty namespace || is_empty name
    then none
    else some (cluster, namespace, name)
parts_of _ = none

unfoldable pub parse_k8s_target : String → Option K8sTarget
unfolding parts_of splitn
parse_k8s_target target = parts_of (splitn 3 "/" target)
