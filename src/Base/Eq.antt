-- ===== src/Base/Eq.antt =====
-- Types whose equality is a Boolean test, as the keys of tables and maps.
use monitra.Base.{
  String, ◌≡◌, refl, sym, ap, ◌∙◌, ◌↔◌, Bool, true, Bool-cases, inl, inr, str_eq, str_eq_iff,
}

pub record Eq (K : Type 0) : Type 0 where
  pub same : K → K → Bool
  pub same_iff : (a b : K) → (same a b ≡ true) ↔ (a ≡ b)

instance abbrev pub string_Eq : Eq String
string_Eq = record { same = str_eq; same_iff = str_eq_iff }

module _ {K : Type 0} ⦃e : Eq K⦄ where
  pub same_left : (a b c : K) → e.same a b ≡ true → e.same a c ≡ e.same b c
  same_left a b c p = ap (λ k. e.same k c) ((e.same_iff a b).0 p)

  pub same_sym : (a b : K) → e.same a b ≡ e.same b a
  same_sym a b = elim (Bool-cases (e.same a b)) [
    | inl p ↦ p ∙ sym ((e.same_iff b a).1 (sym ((e.same_iff a b).0 p)))
    | inr p ↦ elim (Bool-cases (e.same b a)) [
      | inl q ↦ (e.same_iff a b).1 (sym ((e.same_iff b a).0 q)) ∙ sym q
      | inr q ↦ p ∙ sym q
    ]
  ]

  pub same_self : (a : K) → e.same a a ≡ true
  same_self a = (e.same_iff a a).1 refl
