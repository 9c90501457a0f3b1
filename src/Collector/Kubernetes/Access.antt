-- ===== src/Collector/Kubernetes/Access.antt =====
-- `ClusterAuth` of crates/collector-kubernetes/src/kubeconfig.rs. A file is its contents, or the
-- error of reading it, as text; a parsed kubeconfig is its fields; and the decoder of base64 is a
-- parameter.
pub mod Resolution
mod Tests
use monitra.Base.{ℕ, String, ◌<>◌, Bool, Option, none, some, List, [], ◌∷◌, str_eq, if◌then◌else◌}
use monitra.Base.Text.{trim}

pub record ContextDetail : Type 0 where
  pub cluster : String
  pub user : String

pub record ClusterDetail : Type 0 where
  pub server : String
  pub certificate_authority_data : Option String

-- The entries with their names; a user is its token.
pub record RawKubeConfig : Type 0 where
  pub clusters : List (String × ClusterDetail)
  pub contexts : List (String × ContextDetail)
  pub users : List (String × Option String)
  pub current_context : Option String

pub data Error : Type 0 where
  kubeconfig_read : String → String → Error
  kubeconfig_parse : String → String → Error
  context_not_found : String → String → Error
  cluster_not_found : String → String → Error
  user_not_found : String → String → Error
  unsupported_auth : String → String → Error
  invalid_ca_data : String → String → Error
  not_in_cluster : String → Error
  service_account_read : String → String → Error

-- What a call of a library, or of the operating system, gives.
pub data Read {ℓ} (A : Type ℓ) : Type ℓ where
  got : A → Read A
  failed : String → Read A

pub data Resolved {ℓ} (A : Type ℓ) : Type ℓ where
  ok : A → Resolved A
  err : Error → Resolved A

abbrev pub in_cluster_sentinel : String
in_cluster_sentinel = "in-cluster"

-- `.iter().find(|e| e.name == name)`.
unfoldable pub find {ℓ} : {A : Type ℓ} → String → List (String × A) → Option A
find name [] = none
find name ((key, entry) ∷ entries) =
    let rest = find name entries in if str_eq key name then some entry else rest

-- `.ok_or_else(…)?`.
unfoldable pub or_error {ℓ κ} :
    {A : Type ℓ} {B : Type κ} → Option A → Error → (A → Resolved B) → Resolved B
or_error none error next = err error
or_error (some a) error next = next a

pub record ClusterAuth (Bytes : Type 0) : Type 0 where
  pub server : String
  pub ca_cert_pem : Option Bytes
  pub token : String

-- `context_override.or(config.current_context)`.
abbrev pub context_name : Option String → RawKubeConfig → Option String
context_name none config = config.current_context
context_name (some name) config = some name

module _ {Bytes : Type 0} (decode : String → Read Bytes) where
  -- The decoded certificate, if the cluster has one.
  unfoldable pub ca_cert_of : String → Option String → Resolved (Option Bytes)
  ca_cert_of path none = ok none
  ca_cert_of path (some encoded) = elim (decode encoded) [
    | failed source ↦ err (invalid_ca_data path source)
    | got pem ↦ ok (some pem)
  ]

  unfoldable pub with_ca_cert :
      ClusterDetail → String → Resolved (Option Bytes) → Resolved (ClusterAuth Bytes)
  with_ca_cert cluster token (err error) = err error
  with_ca_cert cluster token (ok pem) =
      ok (record { server = cluster.server; ca_cert_pem = pem; token = token })

  unfoldable pub from_config : String → Option String → RawKubeConfig → Resolved (ClusterAuth Bytes)
  unfolding find or_error ca_cert_of with_ca_cert
  from_config path context_override config =
      or_error (context_name context_override config) (context_not_found path "") λ name.
        or_error (find name config.contexts) (context_not_found path name) λ context.
          or_error (find context.cluster config.clusters) (cluster_not_found path context.cluster)
            λ cluster.
              or_error (find context.user config.users) (user_not_found path context.user) λ user.
                or_error user (unsupported_auth path context.user) λ token.
                  with_ca_cert cluster token (ca_cert_of path cluster.certificate_authority_data)

  -- The file as it is read, and then as it is parsed.
  unfoldable pub from_kubeconfig_file :
      String → Option String → Read (Read RawKubeConfig) → Resolved (ClusterAuth Bytes)
  unfolding from_config
  from_kubeconfig_file path context_override (failed source) = err (kubeconfig_read path source)
  from_kubeconfig_file path context_override (got (failed source)) =
      err (kubeconfig_parse path source)
  from_kubeconfig_file path context_override (got (got config)) =
      from_config path context_override config

abbrev pub service_account : String
service_account = "/var/run/secrets/kubernetes.io/serviceaccount"

module _ {Bytes : Type 0} where
  unfoldable pub in_cluster :
      Option String → Option String → Read String → Read Bytes → Resolved (ClusterAuth Bytes)
  in_cluster none port token ca = err (not_in_cluster "KUBERNETES_SERVICE_HOST")
  in_cluster (some host) none token ca = err (not_in_cluster "KUBERNETES_SERVICE_PORT")
  in_cluster (some host) (some port) (failed source) ca =
      err (service_account_read (service_account <> "/token") source)
  in_cluster (some host) (some port) (got token) (failed source) =
      err (service_account_read (service_account <> "/ca.crt") source)
  in_cluster (some host) (some port) (got token) (got ca) = ok (record {
    server = "https://" <> host <> ":" <> port;
    ca_cert_pem = some ca;
    token = trim token;
  })

-- What the process finds around it.
pub record Around (Bytes : Type 0) : Type 0 where
  pub host : Option String
  pub port : Option String
  pub token : Read String
  pub ca : Read Bytes
  pub file : String → Read (Read RawKubeConfig)

unfoldable pub resolve :
    {Bytes : Type 0}
    → (String → Read Bytes)
    → Around Bytes
    → String
    → Option String
    → Resolved (ClusterAuth Bytes)
unfolding in_cluster from_kubeconfig_file
resolve decode around kubeconfig context_override =
    if str_eq kubeconfig in_cluster_sentinel
    then in_cluster around.host around.port around.token around.ca
    else from_kubeconfig_file decode kubeconfig context_override (around.file kubeconfig)
