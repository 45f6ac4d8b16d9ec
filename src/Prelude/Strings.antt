-- ===== src/Prelude/Strings.antt =====
-- Functions of Go's `strings` on one-character separators, and prefixes.
use Prim.Native.Char.{Char, code}
use Prim.Native.String.{String, [], ◌∷◌, ◌++◌}
use mathlib.Core.Path.{◌≡◌, refl}
use mathlib.Core.Bool.{Bool, false, ◌||◌}
use mathlib.Core.List.{List}
use mathlib.Core.Option.{Option, none, some}
use native.Mathlib.Omega.{arith}
use text.Mathlib.TextLemmas.{nil-append, cons-append}
use skills.Prelude.Tests.{◌==◌, if◌then◌else◌}

abbrev pub same_char : Char → Char → Bool
same_char c d = code c == code d

-- `strings.ReplaceAll(s, old, new)`.
unfoldable pub replace_all : String → Char → Char → String
replace_all [] old new = []
replace_all (c ∷ s) old new = (if same_char c old then new else c) ∷ replace_all s old new

-- `strings.ContainsRune`.
unfoldable pub has_char : String → Char → Bool
has_char [] d = false
has_char (c ∷ s) d = same_char c d || has_char s d

-- What follows a prefix.
unfoldable pub cut_prefix : String → String → Option String
cut_prefix s [] = some s
cut_prefix [] (d ∷ p) = none
cut_prefix (c ∷ s) (d ∷ p) = let rest = cut_prefix s p in if same_char c d then rest else none

-- `strings.TrimPrefix`.
unfoldable pub trim_prefix : String → String → String
unfolding cut_prefix
trim_prefix s p = elim (cut_prefix s p) [ none ↦ s | some rest ↦ rest ]

-- A piece's first character, put before the first of the pieces.
abbrev push : Char → List String → List String
push c List.[] = List.◌∷◌ (c ∷ []) List.[]
push c (List.◌∷◌ p ps) = List.◌∷◌ (c ∷ p) ps

-- `strings.Split(s, sep)`.
unfoldable pub split : String → Char → List String
split [] sep = List.◌∷◌ [] List.[]
split (c ∷ s) sep =
    let pieces = split s sep in if same_char c sep then List.◌∷◌ [] pieces else push c pieces

pub replace_all-has_char :
    (s : String) (old new : Char)
    → same_char new old ≡ false
    → has_char (replace_all s old new) old ≡ false
unfolding replace_all has_char
replace_all-has_char [] old new h = refl
replace_all-has_char (c ∷ s) old new h = ground (arith, replace_all-has_char s old new h)

-- Two replacements in a row, where the middle character does not stand in the text.
pub replace_all-replace_all :
    (s : String) (a b c : Char)
    → has_char s b ≡ false
    → replace_all (replace_all s a b) b c ≡ replace_all s a c
unfolding replace_all has_char
replace_all-replace_all [] a b c h = refl
replace_all-replace_all (d ∷ s) a b c h = ground (arith, replace_all-replace_all s a b c)

pub cut_prefix-append : (p s : String) → cut_prefix (p ++ s) p ≡ some s
unfolding cut_prefix
cut_prefix-append [] s = rw (nil-append s)
cut_prefix-append (c ∷ p) s = rw (cons-append c p s) (ground (arith, cut_prefix-append p s))

pub trim_prefix-append : (p s : String) → trim_prefix (p ++ s) p ≡ s
unfolding trim_prefix
trim_prefix-append p s = ground (arith, cut_prefix-append p s)
