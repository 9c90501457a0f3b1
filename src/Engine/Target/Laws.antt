-- ===== src/Engine/Target/Laws.antt =====
-- Which targets parse, and to what.
use Prim.Native.Char.{Char}
use monitra.Base.{String, ◌<>◌, ◌≡◌, true, false, some, arith, Option-cases, inl, inr}
use monitra.Base.Text.{splitn, is_empty, split_once}
use monitra.Base.Text.Laws.{lacks, split_once_sound, split_once-append}
use monitra.Engine.Target.{parse_k8s_target}
use text.Mathlib.TextLemmas.{cons-append, nil-append}

abbrev pub slash : Char
slash = "/"

-- The text of a target.
abbrev pub format : String → String → String → String
format cluster namespace name = cluster <> ("/" <> (namespace <> ("/" <> name)))

split_at :
    (c : Char) (a b : String)
    → lacks c a ≡ true
    → split_once (String.◌∷◌ c String.[]) (a <> (String.◌∷◌ c String.[] <> b)) ≡ some (a, b)
split_at c a b h = rw (cons-append c String.[] b, nil-append b) (split_once-append c a b h)

-- A cluster, a namespace and a name, none empty and the first two without a slash, are read back
-- from their text; the name keeps the slashes that it has.
pub parse-format :
    (cluster namespace name : String)
    → is_empty cluster ≡ false
    → is_empty namespace ≡ false
    → is_empty name ≡ false
    → lacks slash cluster ≡ true
    → lacks slash namespace ≡ true
    → parse_k8s_target (format cluster namespace name) ≡ some (cluster, namespace, name)
unfolding parse_k8s_target
parse-format cluster namespace name c n m lc ln =
    let first = split_at slash cluster (namespace <> ("/" <> name)) lc in
    let second = split_at slash namespace name ln in
    rw (first, splitn) (rw (second, splitn) (ground arith))

-- A target that parses is the text of what it parsed to, and no part of it is empty.
pub parse_sound :
    (target cluster namespace name : String)
    → parse_k8s_target target ≡ some (cluster, namespace, name)
    → (target ≡ format cluster namespace name)
      × (is_empty cluster ≡ false)
      × (is_empty namespace ≡ false)
      × (is_empty name ≡ false)
unfolding parse_k8s_target
parse_sound target cluster namespace name h = elim (Option-cases (split_once "/" target)) [
  | inl e ↦ ground arith
  | inr ((a, b), e) ↦ elim (Option-cases (split_once "/" b)) [
    | inl f ↦ ground arith
    | inr ((a', b'), f) ↦
        let whole = split_once_sound "/" target a b e in
        let rest = split_once_sound "/" b a' b' f in ground (arith, whole, rest)
  ]
]
