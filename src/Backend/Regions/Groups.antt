-- ===== src/Backend/Regions/Groups.antt =====
-- What the groups hold: what the monitors of each key contribute.
use monitra.Base.{
  ℕ, suc, ◌+◌, ◌≡◌, refl, sym, ap, ◌∙◌, String, Bool, true, false, Option, none, some, List, [],
  ◌∷◌, ◌++◌, ◌&&◌, ◌==◌, str_eq, arith, if◌then◌else◌, append_assoc, Bool-cases, inl, inr,
}
use monitra.Base.Dict.{Dict, lookup}
use monitra.Base.Eq.{same_left, same_sym}
use monitra.Models.{
  Monitor, CheckResult, MonitorKind, http, tcp, icmp, k8s_deployment, k8s_stateful_set, k8s_service,
  host_agent_check,
}
use monitra.Provider.Cache.{Answer, ok}
use monitra.Backend.Regions.{
  Key, same_key, Group, add_to, key_of, group_monitor, and_then, group_monitors, kind_code,
}
use monitra.Backend.Regions.Keys.{key_Eq}

-- What the groups of a key hold, each: how many monitors, and their results.
abbrev pub held : Key → List Group → List (ℕ × List CheckResult)
held key [] = []
held key (group ∷ groups) =
    let rest = held key groups in
    if same_key group.key key then (group.monitor_count, group.results) ∷ rest else rest

abbrev pub is_probe : MonitorKind → Bool
is_probe http = true
is_probe tcp = true
is_probe icmp = true
is_probe k8s_deployment = false
is_probe k8s_stateful_set = false
is_probe k8s_service = false
is_probe host_agent_check = false

-- Whether a monitor is linked to an agent of a region.
abbrev pub is_in : Dict String → Option ℕ → String → Bool
is_in regions none region = false
is_in regions (some agent_id) region = elim (lookup agent_id regions) [
  | none ↦ false
  | some own ↦ str_eq own region
]

-- Whether a monitor is a network probe with this target and kind, and its agent has this region.
unfoldable pub belongs : Dict String → Key → Monitor → Bool
belongs regions (target, kind, region) monitor =
    is_probe monitor.kind
    && (str_eq monitor.target target
        && kind_code monitor.kind == kind_code kind
        && is_in regions monitor.agent_id region)

-- The results of one more monitor before those of the later ones.
abbrev pub one_more :
    List CheckResult → Option (ℕ × List CheckResult) → Option (ℕ × List CheckResult)
one_more results none = some (1, results)
one_more results (some (count, later)) = some (suc count, results ++ later)

-- What the monitors that belong to a key are together, if there is one: how many, and their results
-- in their order.
unfoldable pub contributed :
    (ℕ → List CheckResult) → Dict String → Key → List Monitor → Option (ℕ × List CheckResult)
unfolding belongs
contributed results_of regions key [] = none
contributed results_of regions key (monitor ∷ monitors) =
    let later = contributed results_of regions key monitors in
    if belongs regions key monitor then one_more (results_of monitor.id) later else later

abbrev pub as_list {ℓ} : {A : Type ℓ} → Option A → List A
as_list none = []
as_list (some a) = a ∷ []

-- What a key holds after results are added to it, or to another key.
abbrev added :
    Bool → Option (ℕ × List CheckResult) → List CheckResult → Option (ℕ × List CheckResult)
added false before more = before
added true none more = some (1, more)
added true (some (count, results)) more = some (count + 1, results ++ more)

held_other :
    (key k : Key) (more : List CheckResult) (groups : List Group)
    → same_key k key ≡ false
    → held key (add_to k more groups) ≡ held key groups
unfolding add_to
held_other key k more [] other = rw other refl
held_other key k more (group ∷ groups) other = elim (Bool-cases (same_key group.key k)) [
  | inl p ↦ rw (p, same_left group.key k key p ∙ other) refl
  | inr p ↦ rw p (elim (Bool-cases (same_key group.key key)) [
    | inl q ↦ rw q (
        ap (λ rest. (group.monitor_count, group.results) ∷ rest)
          (held_other key k more groups other))
    | inr q ↦ rw q (held_other key k more groups other)
  ])
]

one_held :
    (n : ℕ) (results more : List CheckResult) (rest : List (ℕ × List CheckResult))
    (before : Option (ℕ × List CheckResult))
    → (n, results) ∷ rest ≡ as_list before
    → (n + 1, results ++ more) ∷ rest ≡ as_list (added true before more)
one_held n results more rest none h = absurd (cc)
one_held n results more rest (some (count, old)) h = ground (arith, h)

held_same :
    (key k : Key) (more : List CheckResult) (groups : List Group)
    (before : Option (ℕ × List CheckResult))
    → same_key k key ≡ true
    → held key groups ≡ as_list before
    → held key (add_to k more groups) ≡ as_list (added true before more)
unfolding add_to
held_same key k more [] none same h = rw same refl
held_same key k more [] (some x) same h = absurd (cc)
held_same key k more (group ∷ groups) before same h = elim (Bool-cases (same_key group.key k)) [
  | inl p ↦
      let own : same_key group.key key ≡ true = same_left group.key k key p ∙ same in
      rw (p, own)
        (one_held group.monitor_count group.results more (held key groups) before (rw own at h))
  | inr p ↦
      let other : same_key group.key key ≡ false =
        same_sym group.key key ∙ sym (same_left k key group.key same) ∙ same_sym k group.key ∙ p in
      rw (p, other) (held_same key k more groups before same (rw other at h))
]

held-add_to :
    (key k : Key) (more : List CheckResult) (groups : List Group)
    (before : Option (ℕ × List CheckResult))
    → held key groups ≡ as_list before
    → held key (add_to k more groups) ≡ as_list (added (same_key k key) before more)
held-add_to key k more groups before h = elim (Bool-cases (same_key k key)) [
  | inl same ↦ rw same (held_same key k more groups before same h)
  | inr other ↦ rw other (held_other key k more groups other ∙ h)
]

-- What a key held, and what the monitors contribute to it.
abbrev joined :
    Option (ℕ × List CheckResult) → Option (ℕ × List CheckResult) → Option (ℕ × List CheckResult)
joined none later = later
joined (some before) none = some before
joined (some (n, results)) (some (m, more)) = some (n + m, results ++ more)

joined-added :
    (same : Bool) (before later : Option (ℕ × List CheckResult)) (more : List CheckResult)
    → joined (added same before more) later
      ≡ joined before (if same then one_more more later else later)
joined-added false before later more = refl
joined-added true none none more = refl
joined-added true none (some (m, rest)) more = ap (λ c. some (c, more ++ rest)) (omega arith)
joined-added true (some (n, results)) none more = refl
joined-added true (some (n, results)) (some (m, rest)) more =
    ap (λ rs. some (n + 1 + m, rs)) (append_assoc results more rest)
    ∙ ap (λ c. some (c, results ++ (more ++ rest))) (omega arith)

joined-none : (before : Option (ℕ × List CheckResult)) → before ≡ joined before none
joined-none none = refl
joined-none (some before) = refl

-- The key under which a monitor is grouped is that to which it belongs.
is_keyed : Option Key → Key → Bool
is_keyed none key = false
is_keyed (some k) key = same_key k key

keyed-belongs :
    (regions : Dict String) (key : Key) (monitor : Monitor)
    → is_keyed (key_of regions monitor) key ≡ belongs regions key monitor
unfolding is_keyed key_of belongs same_key
keyed-belongs regions (target, kind, region) monitor = ground arith

-- The grouping succeeds, and for each key there is one group that holds this, or no group.
abbrev pub IsGrouped : (Key → Option (ℕ × List CheckResult)) → Answer (List Group) → Type 0
IsGrouped expected answer =
    (groups : List Group) × (answer ≡ ok groups)
    × ((key : Key) → held key groups ≡ as_list (expected key))

group_monitor-IsGrouped :
    (expected before : Key → Option (ℕ × List CheckResult)) (own : Option Key)
    (more : List CheckResult) (groups : List Group) (next : List Group → Answer (List Group))
    → ((key : Key) → held key groups ≡ as_list (before key))
    → ((gs : List Group)
        → ((key : Key) → held key gs ≡ as_list (added (is_keyed own key) (before key) more))
        → IsGrouped expected (next gs))
    → IsGrouped expected (and_then (group_monitor own (ok more) groups) next)
unfolding group_monitor and_then is_keyed
group_monitor-IsGrouped expected before none more groups next h rest = rest groups h
group_monitor-IsGrouped expected before (some k) more groups next h rest =
    rest (add_to k more groups) (λ key. held-add_to key k more groups (before key) (h key))

group_from-IsGrouped :
    (results_of : ℕ → List CheckResult) (regions : Dict String) (monitors : List Monitor)
    (groups : List Group) (before : Key → Option (ℕ × List CheckResult))
    → ((key : Key) → held key groups ≡ as_list (before key))
    → IsGrouped
        (λ key. joined (before key) (contributed results_of regions key monitors))
        (group_monitors (λ id. ok (results_of id)) regions monitors groups)
unfolding group_monitors contributed
group_from-IsGrouped results_of regions [] groups before h =
    (groups, refl, λ key. h key ∙ ap as_list (joined-none (before key)))
group_from-IsGrouped results_of regions (monitor ∷ monitors) groups before h =
    let own = key_of regions monitor in
    let more = results_of monitor.id in
    group_monitor-IsGrouped _ before own more groups
      (group_monitors (λ id. ok (results_of id)) regions monitors) h
      λ gs hs.
        let (last, e, held_last) =
          group_from-IsGrouped results_of regions monitors gs
            (λ key. added (is_keyed own key) (before key) more) hs in
        (
          last,
          e,
          λ key.
              let later = contributed results_of regions key monitors in
              held_last key
              ∙ ap as_list (
                  joined-added (is_keyed own key) (before key) later more
                  ∙ ap (λ b. joined (before key) (if b then one_more more later else later))
                      (keyed-belongs regions key monitor)),
        )

-- Where the store answers for every monitor, the grouping succeeds, and for every target, kind and
-- region there is exactly one group if some monitor is a network probe with this target and kind
-- whose agent has this region, and no group otherwise; the group holds how many such monitors there
-- are and all their results, in the order of the monitors.
pub group_monitors-IsGrouped :
    (results_of : ℕ → List CheckResult) (regions : Dict String) (monitors : List Monitor)
    → IsGrouped
        (λ key. contributed results_of regions key monitors)
        (group_monitors (λ id. ok (results_of id)) regions monitors [])
group_monitors-IsGrouped results_of regions monitors =
    group_from-IsGrouped results_of regions monitors [] (λ key. none) (λ key. refl)
