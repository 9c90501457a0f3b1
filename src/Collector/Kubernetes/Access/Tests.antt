-- ===== src/Collector/Kubernetes/Access/Tests.antt =====
-- A kubeconfig with two contexts, and an instance of the theorem.
use monitra.Base.{String, ◌≡◌, refl, ◌↔◌, some, none, [], ◌∷◌}
use monitra.Collector.Kubernetes.Access.{
  RawKubeConfig, ClusterAuth, Read, got, ok, from_config, find, or_error, with_ca_cert, ca_cert_of,
}
use monitra.Collector.Kubernetes.Access.Resolution.{Leads, from_config_iff}

abbrev config : RawKubeConfig
config = record {
  clusters =
      ("a", record { server = "https://a"; certificate_authority_data = none })
      ∷ ("b", record { server = "https://b"; certificate_authority_data = some "aGk=" })
      ∷ [];
  contexts =
      ("dev", record { cluster = "a"; user = "me" })
      ∷ ("prod", record { cluster = "b"; user = "ops" })
      ∷ [];
  users = ("me", none) ∷ ("ops", some "deadbeef") ∷ [];
  current_context = some "dev";
}

abbrev decode : String → Read String
decode encoded = got "hi"

prod_is_resolved :
    from_config decode "k" (some "prod") config
    ≡ ok (record { server = "https://b"; ca_cert_pem = some "hi"; token = "deadbeef" })
unfolding from_config find or_error with_ca_cert ca_cert_of
prod_is_resolved = refl

abbrev prod : ClusterAuth String
prod = record { server = "https://b"; ca_cert_pem = some "hi"; token = "deadbeef" }

from_config_iff_example :
    (from_config decode "k" (some "prod") config ≡ ok prod) ↔ Leads decode (some "prod") config prod
from_config_iff_example = from_config_iff decode "k" (some "prod") config prod
