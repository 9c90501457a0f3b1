-- ===== src/Backend/Regions/Keys.antt =====
-- The keys of the groups are told apart by their test.
use monitra.Base.{
  ℕ, zero, suc, ◌≡◌, refl, sym, ap, ◌∙◌, true, arith, ==_iff, ◌↔◌, subst, str_eq_iff,
}
use monitra.Base.Eq.{Eq}
use monitra.Models.{
  MonitorKind, http, tcp, icmp, k8s_deployment, k8s_stateful_set, k8s_service, host_agent_check,
}
use monitra.Backend.Regions.{Key, same_key, kind_code}

of_code : ℕ → MonitorKind
of_code zero = http
of_code (suc zero) = tcp
of_code (suc (suc zero)) = icmp
of_code (suc (suc (suc zero))) = k8s_deployment
of_code (suc (suc (suc (suc zero)))) = k8s_stateful_set
of_code (suc (suc (suc (suc (suc zero))))) = k8s_service
of_code (suc (suc (suc (suc (suc (suc n)))))) = host_agent_check

of-kind_code : (kind : MonitorKind) → of_code (kind_code kind) ≡ kind
unfolding of_code
of-kind_code http = refl
of-kind_code tcp = refl
of-kind_code icmp = refl
of-kind_code k8s_deployment = refl
of-kind_code k8s_stateful_set = refl
of-kind_code k8s_service = refl
of-kind_code host_agent_check = refl

kind_code_injective : (a b : MonitorKind) → kind_code a ≡ kind_code b → a ≡ b
kind_code_injective a b h = sym (of-kind_code a) ∙ ap of_code h ∙ of-kind_code b

same_key_sound : (a b : Key) → same_key a b ≡ true → a ≡ b
unfolding same_key
same_key_sound (t, k, r) (t', k', r') h =
    ap (λ u. (u, k, r)) ((str_eq_iff t t').0 (ground arith))
    ∙ ap (λ u. (t', u, r)) (kind_code_injective k k' ((==_iff _ _).0 (ground arith)))
    ∙ ap (λ u. (t', k', u)) ((str_eq_iff r r').0 (ground arith))

same_key_self : (key : Key) → same_key key key ≡ true
unfolding same_key
same_key_self (t, k, r) = ground (arith, (str_eq_iff t t).1 refl, (str_eq_iff r r).1 refl)

pub same_key_iff : (a b : Key) → (same_key a b ≡ true) ↔ (a ≡ b)
same_key_iff a b = (same_key_sound a b, λ e. subst (λ k. same_key a k ≡ true) e (same_key_self a))

instance abbrev pub key_Eq : Eq Key
key_Eq = record { same = same_key; same_iff = same_key_iff }
