-- ===== src/Prelude/Suffix.antt =====
-- `strings.HasSuffix`.
use Prim.Native.String.{String, [], ◌∷◌}
use mathlib.Core.Path.{◌≡◌, subst}
use mathlib.Core.Logic.{◌⊎◌, inl, inr}
use mathlib.Core.Bool.{Bool, true}
use skills.Prelude.Tests.{same, same_iff, if◌then◌else◌, Bool-cases}

unfoldable pub has_suffix : String → String → Bool
has_suffix [] part = same [] part
has_suffix (c ∷ s) part = if same (c ∷ s) part then true else has_suffix s part

-- Of two endings of one text, one is an ending of the other.
pub has_suffix-both :
    (s p q : String)
    → has_suffix s p ≡ true
    → has_suffix s q ≡ true
    → (has_suffix p q ≡ true) ⊎ (has_suffix q p ≡ true)
unfolding has_suffix
has_suffix-both [] p q h k = inl (subst (λ t. has_suffix t q ≡ true) ((same_iff [] p).0 h) k)
has_suffix-both (c ∷ s) p q h k = elim (Bool-cases (same (c ∷ s) p)) [
  | inl e ↦ inl (subst (λ t. has_suffix t q ≡ true) ((same_iff (c ∷ s) p).0 e) k)
  | inr d ↦ elim (Bool-cases (same (c ∷ s) q)) [
    | inl e ↦ inr (subst (λ t. has_suffix t p ≡ true) ((same_iff (c ∷ s) q).0 e) h)
    | inr e ↦ has_suffix-both s p q (rw d at h) (rw e at k)
  ]
]
