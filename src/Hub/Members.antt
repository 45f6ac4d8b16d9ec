-- ===== src/Hub/Members.antt =====
-- The client set: membership, insertion and deletion on lists of numbers without repetition.
use skills.Prelude.{
  ℕ, ◌≤◌, Bool, false, ◌&&◌, ◌||◌, not, ◌≡◌, refl, List, [], ◌∷◌, length, ◌==◌, if◌then◌else◌,
  arith, Bool-cases, inl, inr,
}

unfoldable pub member : ℕ → List ℕ → Bool
member c [] = false
member c (d ∷ ds) = d == c || member c ds

unfoldable pub insert : ℕ → List ℕ → List ℕ
insert c cs = if member c cs then cs else c ∷ cs

unfoldable pub delete : ℕ → List ℕ → List ℕ
delete c [] = []
delete c (d ∷ ds) = let rest = delete c ds in if d == c then rest else d ∷ rest

abbrev pub Distinct : List ℕ → Type 0
Distinct [] = Unit
Distinct (c ∷ cs) = (member c cs ≡ false) × Distinct cs

pub member-delete : (c d : ℕ) (cs : List ℕ) → member d (delete c cs) ≡ (member d cs && not (d == c))
unfolding member delete
member-delete c d [] = refl
member-delete c d (e ∷ cs) = let h = member-delete c d cs in ground arith

pub length-delete : (c : ℕ) (cs : List ℕ) → length (delete c cs) ≤ length cs
unfolding delete
length-delete c [] = omega arith
length-delete c (d ∷ cs) = let h = length-delete c cs in ground arith

pub delete-Distinct : (c : ℕ) (cs : List ℕ) → Distinct cs → Distinct (delete c cs)
unfolding delete
delete-Distinct c [] h = tt
delete-Distinct c (d ∷ cs) (fresh, h) = elim (Bool-cases (d == c)) [
  | inl p ↦ rw p (delete-Distinct c cs h)
  | inr p ↦ rw p ((let m = member-delete c d cs in ground arith), delete-Distinct c cs h)
]
