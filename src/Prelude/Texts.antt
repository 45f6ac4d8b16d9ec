-- ===== src/Prelude/Texts.antt =====
-- The order of texts, which compares their characters from the first on, and their endings.
use Prim.Native.Nat.{Ordering}
use Prim.Native.String
use Prim.Native.String.{String, [], ◌∷◌, compare}
use mathlib.Core.Path.{◌≡◌}
use native.Mathlib.Omega.{arith}

pub compare_trans :
    (s t u : String)
    → compare s t ≡ Ordering.lt
    → compare t u ≡ Ordering.lt
    → compare s u ≡ Ordering.lt
compare_trans s [] [] h k = absurd (ground arith)
compare_trans [] [] (e ∷ u) h k = k
compare_trans (c ∷ s) [] (e ∷ u) h k =
    absurd (let h' = rw (String.compare.cons-nil c s) at h in ground arith)
compare_trans s (d ∷ t) [] h k =
    absurd (let k' = rw (String.compare.cons-nil d t) at k in ground arith)
compare_trans [] (d ∷ t) (e ∷ u) h k = String.compare.nil-cons e u
compare_trans (c ∷ s) (d ∷ t) (e ∷ u) h k =
    let h' = rw (String.compare.cons-cons c d s t) at h in
    let k' = rw (String.compare.cons-cons d e t u) at k in
    rw (String.compare.cons-cons c e s u) (ground (arith, compare_trans s t u))

pub compare_swap : (s t : String) → compare s t ≡ Ordering.gt → compare t s ≡ Ordering.lt
compare_swap [] [] h = absurd (ground arith)
compare_swap [] (d ∷ t) h = absurd (let h' = rw (String.compare.nil-cons d t) at h in ground arith)
compare_swap (c ∷ s) [] h = String.compare.nil-cons c s
compare_swap (c ∷ s) (d ∷ t) h =
    let h' = rw (String.compare.cons-cons c d s t) at h in
    rw (String.compare.cons-cons d c t s) (ground (arith, compare_swap s t))
