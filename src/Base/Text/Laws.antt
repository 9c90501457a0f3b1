-- ===== src/Base/Text/Laws.antt =====
-- What the splits give back.
use Prim.Native.Char.{Char, code}
use text.Mathlib.TextEquality.{Char-path}
use text.Mathlib.TextLemmas.{nil-append, cons-append}
use monitra.Base.{
  String, ◌<>◌, ◌≡◌, refl, sym, ap, subst, ◌∙◌, Bool, true, ◌&&◌, Option, none, some, arith, ◌==◌,
  ==_iff, not, Bool-cases, inl, inr,
}
use monitra.Base.Text.{strip_prefix, split_once, before, first_split}

pub strip_prefix-append : (p s : String) → strip_prefix p (p <> s) ≡ some s
unfolding strip_prefix
strip_prefix-append String.[] s = rw (nil-append s)
strip_prefix-append (String.◌∷◌ c p) s =
    rw (cons-append c p s) (ground (arith, strip_prefix-append p s))

pub strip_prefix_sound : (p s : String) {r : String} → strip_prefix p s ≡ some r → s ≡ p <> r
unfolding strip_prefix
strip_prefix_sound String.[] s h = ground (arith, nil-append s)
strip_prefix_sound (String.◌∷◌ c p) String.[] h = cc
strip_prefix_sound (String.◌∷◌ c p) (String.◌∷◌ d s) {r} h = elim (Bool-cases (code c == code d)) [
  | inl same ↦
      rw (cons-append c p r, Char-path c d ((==_iff _ _).0 same))
        (ap (String.◌∷◌ d) (strip_prefix_sound p s (ground arith)))
  | inr other ↦ ground arith
]

abbrev Joined : String → String → Option (String × String) → Type 0
Joined sep s none = Unit {0}
Joined sep s (some (a, b)) = s ≡ a <> (sep <> b)

first_split-Joined :
    (sep s : String) (o : Option String) (later : Option (String × String))
    → ((r : String) → o ≡ some r → s ≡ sep <> r)
    → Joined sep s later
    → Joined sep s (first_split o later)
unfolding first_split
first_split-Joined sep s none later found rest = rest
first_split-Joined sep s (some r) later found rest = found r refl ∙ sym (nil-append (sep <> r))

before-Joined :
    (sep s : String) (c : Char) (o : Option (String × String))
    → Joined sep s o
    → Joined sep (String.◌∷◌ c s) (before c o)
unfolding before
before-Joined sep s c none h = tt
before-Joined sep s c (some (a, b)) h = ap (String.◌∷◌ c) h ∙ sym (cons-append c a (sep <> b))

split_once-Joined : (sep s : String) → Joined sep s (split_once sep s)
unfolding split_once
split_once-Joined sep String.[] =
    first_split-Joined sep String.[] (strip_prefix sep String.[]) none
      (λ r e. strip_prefix_sound sep String.[] e) tt
split_once-Joined sep (String.◌∷◌ c s) =
    first_split-Joined sep (String.◌∷◌ c s) (strip_prefix sep (String.◌∷◌ c s))
      (before c (split_once sep s)) (λ r e. strip_prefix_sound sep (String.◌∷◌ c s) e)
      (before-Joined sep s c (split_once sep s) (split_once-Joined sep s))

-- A split loses nothing: the separator stood between its halves.
pub split_once_sound : (sep s a b : String) → split_once sep s ≡ some (a, b) → s ≡ a <> (sep <> b)
split_once_sound sep s a b h = subst (Joined sep s) h (split_once-Joined sep s)

-- Whether the first character of `sep` stands nowhere in a text.
abbrev pub lacks : Char → String → Bool
lacks c String.[] = true
lacks c (String.◌∷◌ d s) = not (code c == code d) && lacks c s

-- A one-character separator splits behind a text that lacks it.
pub split_once-append :
    (c : Char) (a b : String)
    → lacks c a ≡ true
    → split_once (String.◌∷◌ c String.[]) (a <> (String.◌∷◌ c b)) ≡ some (a, b)
unfolding split_once
split_once-append c String.[] b h = rw (nil-append (String.◌∷◌ c b)) (ground arith)
split_once-append c (String.◌∷◌ d a) b h =
    rw (cons-append d a (String.◌∷◌ c b)) (ground (arith, split_once-append c a b))

-- Without the separator there is no split.
pub split_once_lacking :
    (c : Char) (s : String) → lacks c s ≡ true → split_once (String.◌∷◌ c String.[]) s ≡ none
unfolding split_once
split_once_lacking c String.[] h = refl
split_once_lacking c (String.◌∷◌ d s) h = ground (arith, split_once_lacking c s)
