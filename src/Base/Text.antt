-- ===== src/Base/Text.antt =====
-- The string methods that the program uses. A `str` is its characters; `trim` takes off what
-- `char::is_whitespace` accepts, the Unicode property White_Space.
pub mod Laws
use Prim.Native.Char.{Char, code}
use monitra.Base.{
  ℕ, zero, suc, String, ◌<>◌, ◌≡◌, refl, sym, ap, ◌∙◌, Bool, true, false, ◌&&◌, ◌||◌, Option, none,
  some, List, [], ◌∷◌, arith, leb, ◌==◌, if◌then◌else◌,
}
use text.Mathlib.TextLemmas.{nil-append, cons-append}

abbrev pub is_empty : String → Bool
is_empty String.[] = true
is_empty (String.◌∷◌ c s) = false

is_whitespace : Char → Bool
is_whitespace c =
    let n = code c in
    (leb 9 n && leb n 13)
    || n == 32
    || n == 0x85
    || n == 0xa0
    || n == 0x1680
    || (leb 0x2000 n && leb n 0x200a)
    || n == 0x2028
    || n == 0x2029
    || n == 0x202f
    || n == 0x205f
    || n == 0x3000

unfoldable pub trim_start : String → String
unfolding is_whitespace
trim_start String.[] = String.[]
trim_start (String.◌∷◌ c s) =
    let rest = trim_start s in if is_whitespace c then rest else String.◌∷◌ c s

unfoldable pub trim_end : String → String
unfolding is_whitespace
trim_end String.[] = String.[]
trim_end (String.◌∷◌ c s) =
    let rest = trim_end s in
    if is_whitespace c && is_empty rest then String.[] else String.◌∷◌ c rest

unfoldable pub trim : String → String
unfolding trim_start trim_end
trim s = trim_end (trim_start s)

-- `s.strip_prefix(p)`.
unfoldable pub strip_prefix : String → String → Option String
strip_prefix String.[] s = some s
strip_prefix (String.◌∷◌ p ps) String.[] = none
strip_prefix (String.◌∷◌ p ps) (String.◌∷◌ c s) =
    let rest = strip_prefix ps s in if code p == code c then rest else none

before : Char → Option (String × String) → Option (String × String)
before c none = none
before c (some (a, b)) = some (String.◌∷◌ c a, b)

first_split : Option String → Option (String × String) → Option (String × String)
first_split none later = later
first_split (some rest) later = some ("", rest)

-- `s.split_once(sep)`: at the first occurrence.
unfoldable pub split_once : String → String → Option (String × String)
unfolding before first_split strip_prefix
split_once sep String.[] = first_split (strip_prefix sep String.[]) none
split_once sep (String.◌∷◌ c s) =
    first_split (strip_prefix sep (String.◌∷◌ c s)) (before c (split_once sep s))

-- `s.splitn(n, sep)`, as the list of its pieces.
unfoldable pub splitn : ℕ → String → String → List String
unfolding split_once
splitn zero sep s = []
splitn (suc zero) sep s = s ∷ []
splitn (suc (suc n)) sep s = elim (split_once sep s) [
  | none ↦ s ∷ []
  | some (a, b) ↦ a ∷ splitn (suc n) sep b
]
