-- ===== src/Collector/Kubernetes/Access/Resolution.antt =====
-- Whose server, token and certificate are used.
use monitra.Base.{
  String, ◌≡◌, ◌≢◌, refl, sym, ap, ◌∙◌, ◌↔◌, ◌⊎◌, inl, inr, Option, none, some, List, ◌∷◌, [],
  Bool-cases, str_eq, str_eq_iff, subst, arith,
}
use monitra.Collector.Kubernetes.Access.{
  ContextDetail, ClusterDetail, RawKubeConfig, Error, Read, got, failed, Resolved, ok, err, find,
  or_error, ClusterAuth, context_name, ca_cert_of, with_ca_cert, from_config,
}

-- The first entry of a name.
pub data IsFirst {A : Type 0} (name : String) (entry : A) : List (String × A) → Type 0 where
  this :
      (key : String) (rest : List (String × A))
      → key ≡ name
      → IsFirst name entry ((key, entry) ∷ rest)
  later :
      (key : String) (other : A) (rest : List (String × A))
      → key ≢ name
      → IsFirst name entry rest
      → IsFirst name entry ((key, other) ∷ rest)

-- The context that is asked for, or else the current one.
abbrev pub Named : Option String → Option String → String → Type 0
Named (some asked) current name = name ≡ asked
Named none current name = current ≡ some name

-- The certificate is the cluster's, decoded, if the cluster has one.
abbrev pub Certified :
    {Bytes : Type 0} → (String → Read Bytes) → Option String → Option Bytes → Type 0
Certified decode none pem = pem ≡ none
Certified decode (some encoded) (some pem) = decode encoded ≡ got pem
Certified decode (some encoded) none = ⊥

-- The names that lead to an access: of the context, and in it of the cluster and the user.
pub record Leads {Bytes : Type 0} (decode : String → Read Bytes) (context_override : Option String)
    (config : RawKubeConfig) (auth : ClusterAuth Bytes) : Type 0 where
  pub name : String
  pub context : ContextDetail
  pub cluster : ClusterDetail
  pub named : Named context_override config.current_context name
  pub in_contexts : IsFirst name context config.contexts
  pub in_clusters : IsFirst context.cluster cluster config.clusters
  pub in_users : IsFirst context.user (some auth.token) config.users
  pub served : auth.server ≡ cluster.server
  pub certified : Certified decode cluster.certificate_authority_data auth.ca_cert_pem

found-IsFirst :
    {A : Type 0} (name : String) (entry : A) (entries : List (String × A))
    → find name entries ≡ some entry
    → IsFirst name entry entries
unfolding find
found-IsFirst name entry [] e = absurd (cc)
found-IsFirst name entry ((key, other) ∷ rest) e = elim (Bool-cases (str_eq key name)) [
  | inl same ↦
      subst (λ a. IsFirst name entry ((key, a) ∷ rest)) (sym (ground (arith, same, e)))
        (this key rest ((str_eq_iff key name).0 same))
  | inr differs ↦
      later key other rest (λ p. absurd (ground (arith, differs, (str_eq_iff key name).1 p)))
        (found-IsFirst name entry rest (ground (arith, differs, e)))
]

find-IsFirst :
    {A : Type 0} (name : String) (entry : A) (entries : List (String × A))
    → IsFirst name entry entries
    → find name entries ≡ some entry
unfolding find
find-IsFirst name entry [] h = elim h [ ]
find-IsFirst name entry ((key, same) ∷ rest) (this _ _ p) = rw ((str_eq_iff key name).1 p) refl
find-IsFirst name entry ((key, other) ∷ rest) (later _ _ _ differs h) =
    elim (Bool-cases (str_eq key name)) [
      | inl same ↦ absurd (differs ((str_eq_iff key name).0 same))
      | inr other_key ↦ rw other_key (find-IsFirst name entry rest h)
    ]

context_name-Named :
    (context_override : Option String) (config : RawKubeConfig) (name : String)
    → (context_name context_override config ≡ some name)
      ↔ Named context_override config.current_context name
context_name-Named none config name = (λ e. e, λ e. e)
context_name-Named (some asked) config name = (λ e. cc, λ e. cc)

abbrev pub LeadsTo {κ} :
    {Bytes : Type 0} → (ClusterAuth Bytes → Type κ) → Resolved (ClusterAuth Bytes) → Type κ
LeadsTo P (err error) = Unit
LeadsTo P (ok auth) = P auth

or_error-LeadsTo {ℓ κ} :
    {A : Type ℓ} {Bytes : Type 0} (P : ClusterAuth Bytes → Type κ) (o : Option A) (error : Error)
    (next : A → Resolved (ClusterAuth Bytes))
    → ((a : A) → o ≡ some a → LeadsTo P (next a))
    → LeadsTo P (or_error o error next)
unfolding or_error
or_error-LeadsTo P none error next step = tt
or_error-LeadsTo P (some a) error next step = step a refl

with_ca_cert-LeadsTo {κ} :
    {Bytes : Type 0} (P : ClusterAuth Bytes → Type κ) (decode : String → Read Bytes) (path : String)
    (cluster : ClusterDetail) (token : String) (encoded_ca : Option String)
    → ((p : Option Bytes)
        → Certified decode encoded_ca p
        → P (record { server = cluster.server; ca_cert_pem = p; token = token }))
    → LeadsTo P (with_ca_cert decode cluster token (ca_cert_of decode path encoded_ca))
unfolding with_ca_cert ca_cert_of
with_ca_cert-LeadsTo P decode path cluster token none step = step none refl
with_ca_cert-LeadsTo P decode path cluster token (some encoded) step =
    elim (Read-cases (decode encoded)) [
      | inl (pem, e) ↦ rw (e, with_ca_cert, ca_cert_of) (step (some pem) e)
      | inr (source, e) ↦ rw (e, with_ca_cert, ca_cert_of) tt
    ]
  where
    Read-cases :
        {A : Type 0} (r : Read A)
        → ((a : A) × (r ≡ got a)) ⊎ ((source : String) × (r ≡ failed source))
    Read-cases (got a) = inl (a, refl)
    Read-cases (failed source) = inr (source, refl)

from_config-Leads :
    {Bytes : Type 0} (decode : String → Read Bytes) (path : String)
    (context_override : Option String) (config : RawKubeConfig)
    → LeadsTo
        (Leads decode context_override config)
        (from_config decode path context_override config)
unfolding from_config
from_config-Leads decode path context_override config =
    or_error-LeadsTo _ (context_name context_override config) _ _ λ name named.
      or_error-LeadsTo _ (find name config.contexts) _ _ λ context in_contexts.
        or_error-LeadsTo _ (find context.cluster config.clusters) _ _ λ cluster in_clusters.
          or_error-LeadsTo _ (find context.user config.users) _ _ λ user in_users.
            or_error-LeadsTo _ user _ _ λ token given.
              with_ca_cert-LeadsTo (Leads decode context_override config) decode path cluster token
                cluster.certificate_authority_data
                λ p certified. record {
                  name = name;
                  context = context;
                  cluster = cluster;
                  named = (context_name-Named context_override config name).0 named;
                  in_contexts = found-IsFirst name context config.contexts in_contexts;
                  in_clusters = found-IsFirst context.cluster cluster config.clusters in_clusters;
                  in_users =
                      found-IsFirst context.user (some token) config.users
                        (in_users ∙ ap some given);
                  served = refl;
                  certified = certified;
                }

ca_cert-Certified :
    {Bytes : Type 0} (decode : String → Read Bytes) (path : String) (encoded_ca : Option String)
    (pem : Option Bytes)
    → Certified decode encoded_ca pem
    → ca_cert_of decode path encoded_ca ≡ ok pem
unfolding ca_cert_of
ca_cert-Certified decode path none pem e = rw e refl
ca_cert-Certified decode path (some encoded) (some pem) e = ground (arith, e)
ca_cert-Certified decode path (some encoded) none e = absurd e

-- A kubeconfig gives an access exactly if the names in it lead there: the context that is asked for,
-- or else the current one, its cluster, and its user, each the first entry of its name. The server is
-- then that cluster's, the token that user's, and the certificate that cluster's, decoded, or none
-- where it has none.
pub from_config_iff :
    {Bytes : Type 0} (decode : String → Read Bytes) (path : String)
    (context_override : Option String) (config : RawKubeConfig) (auth : ClusterAuth Bytes)
    → (from_config decode path context_override config ≡ ok auth)
      ↔ Leads decode context_override config auth
from_config_iff decode path context_override config auth = (
  λ e.
      subst (LeadsTo (Leads decode context_override config)) e
        (from_config-Leads decode path context_override config),
  λ h.
      unfold from_config or_error with_ca_cert in
      rw
        (
          (context_name-Named context_override config h.name).1 h.named,
          find-IsFirst h.name h.context config.contexts h.in_contexts,
          find-IsFirst h.context.cluster h.cluster config.clusters h.in_clusters,
          find-IsFirst h.context.user (some auth.token) config.users h.in_users,
          ca_cert-Certified decode path h.cluster.certificate_authority_data auth.ca_cert_pem
              h.certified,
          sym h.served,
        )
        refl,
)
