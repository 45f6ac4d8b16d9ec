-- ===== src/Database/Order.antt =====
-- `ORDER BY created_at, id`: the order of rows, and that the rows after a row of the ordered list
-- are the rest of it.
use text.Mathlib.TextEquality.{path_by_compare}
use text.Mathlib.TextPositions.{compare_refl}
use skills.Prelude.{
  ℕ, zero, suc, true, false, ◌≡◌, refl, ◌∙◌, ap, subst, some, List, [], ◌∷◌, All, length, drop,
  get_elem?, same, same_iff, same_refl, if◌then◌else◌, Bool-cases, inl, inr, arith,
}
use mathlib.Core.List.{Perm}
use mathlib.Core.List.Perm
use skills.Prelude.Texts.{compare_trans, compare_swap}
use skills.World.{Row}
use skills.Database.{by_id, conflicts, row_lt, insert_sorted, order_rows, rows_after}
use skills.Database.Table.{IsTable}

pub row_lt_trans : (a b c : Row) → row_lt a b ≡ true → row_lt b c ≡ true → row_lt a c ≡ true
unfolding row_lt
row_lt_trans a b c h k = ground (arith, compare_trans a.id b.id c.id)

pub row_lt_irrefl : (a : Row) → row_lt a a ≡ false
unfolding row_lt
row_lt_irrefl a = ground (arith, compare_refl a.id)

-- Rows of different ids are ordered one way or the other.
pub row_lt_total : (a b : Row) → same a.id b.id ≡ false → row_lt a b ≡ false → row_lt b a ≡ true
unfolding row_lt
row_lt_total a b d h =
    ground (arith, compare_swap a.id b.id, path_by_compare a.id b.id, same_iff a.id b.id)

-- Each row is before all that follow it.
abbrev pub IsOrdered : List Row → Type 0
IsOrdered [] = Unit
IsOrdered (r ∷ rs) = All (λ s. row_lt r s ≡ true) rs × IsOrdered rs

abbrev Differs : Row → Row → Type 0
Differs r s = same s.id r.id ≡ false

module _ (P : Row → Type 0) where
  All-insert_sorted : (r : Row) (rows : List Row) → P r → All P rows → All P (insert_sorted r rows)
  unfolding insert_sorted
  All-insert_sorted r [] p h = (p, tt)
  All-insert_sorted r (s ∷ rows) p (q, h) = elim (Bool-cases (row_lt s r)) [
    | inl l ↦ rw l (q, All-insert_sorted r rows p h)
    | inr l ↦ rw l (p, (q, h))
  ]

  pub All-order_rows : (rows : List Row) → All P rows → All P (order_rows rows)
  unfolding order_rows
  All-order_rows [] h = tt
  All-order_rows (r ∷ rows) (p, h) = All-insert_sorted r (order_rows rows) p (All-order_rows rows h)

All-mono :
    {P Q : Row → Type 0} (rows : List Row) → ((r : Row) → P r → Q r) → All P rows → All Q rows
All-mono [] f h = tt
All-mono (r ∷ rows) f (p, h) = (f r p, All-mono rows f h)

All-both :
    {P Q R : Row → Type 0} (rows : List Row)
    → All P rows
    → All Q rows
    → ((r : Row) → P r → Q r → R r)
    → All R rows
All-both [] h k f = tt
All-both (r ∷ rows) (p, h) (q, k) f = (f r p q, All-both rows h k f)

fresh-Differs : (r : Row) (rows : List Row) → conflicts r rows ≡ false → All (Differs r) rows
unfolding conflicts
fresh-Differs r [] h = tt
fresh-Differs r (s ∷ rows) h = (ground arith, fresh-Differs r rows (ground arith))

insert_sorted-IsOrdered :
    (r : Row) (rows : List Row)
    → All (Differs r) rows
    → IsOrdered rows
    → IsOrdered (insert_sorted r rows)
unfolding insert_sorted
insert_sorted-IsOrdered r [] d o = (tt, tt)
insert_sorted-IsOrdered r (s ∷ rows) (d, ds) (below, o) = elim (Bool-cases (row_lt s r)) [
  | inl l ↦ rw l (
    All-insert_sorted (λ t. row_lt s t ≡ true) r rows l below,
    insert_sorted-IsOrdered r rows ds o,
  )
  | inr l ↦
      let r_s : row_lt r s ≡ true = row_lt_total s r d l in
      rw l ((r_s, All-mono rows (λ t h. row_lt_trans r s t r_s h) below), (below, o))
]

pub order_rows-IsOrdered : (rows : List Row) → IsTable rows → IsOrdered (order_rows rows)
unfolding order_rows
order_rows-IsOrdered [] h = tt
order_rows-IsOrdered (r ∷ rows) (fresh, h) =
    insert_sorted-IsOrdered r (order_rows rows)
      (All-order_rows (Differs r) rows (fresh-Differs r rows fresh)) (order_rows-IsOrdered rows h)

-- Leaving out rows and putting rows in order can be exchanged.
rows_after-insert_sorted :
    (c r : Row) (rows : List Row)
    → All (Differs r) rows
    → rows_after c (insert_sorted r rows)
      ≡ (if row_lt c r then insert_sorted r (rows_after c rows) else rows_after c rows)
unfolding insert_sorted rows_after
rows_after-insert_sorted c r [] d = refl
rows_after-insert_sorted c r (s ∷ rows) (d, ds) = ground (
  arith,
  rows_after-insert_sorted c r rows ds,
  row_lt_trans c s r,
  row_lt_trans c r s,
  row_lt_total s r d,
)

pub order_rows-rows_after :
    (c : Row) (rows : List Row)
    → IsTable rows
    → order_rows (rows_after c rows) ≡ rows_after c (order_rows rows)
unfolding order_rows rows_after
order_rows-rows_after c [] h = refl
order_rows-rows_after c (r ∷ rows) (fresh, h) =
    let step =
      rows_after-insert_sorted c r (order_rows rows)
        (All-order_rows (Differs r) rows (fresh-Differs r rows fresh)) in
    let ih = order_rows-rows_after c rows h in
    elim (Bool-cases (row_lt c r)) [ inl l ↦ rw (step, l, ← ih) | inr l ↦ rw (step, l, ← ih) ]

rows_after_all :
    (c : Row) (rows : List Row) → All (λ r. row_lt c r ≡ true) rows → rows_after c rows ≡ rows
unfolding rows_after
rows_after_all c [] h = refl
rows_after_all c (r ∷ rows) (l, h) = rw (l, rows_after_all c rows h)

pub get_elem?-All :
    (P : Row → Type 0) (rows : List Row) (n : ℕ) (r : Row)
    → All P rows
    → get_elem? rows n ≡ some r
    → P r
get_elem?-All P (s ∷ rows) zero r (p, h) e = let here : s ≡ r = ground arith in subst P here p
get_elem?-All P (s ∷ rows) (suc n) r (p, h) e = get_elem?-All P rows n r h e
get_elem?-All P [] n r h e = absurd (ground arith)

row_lt_asym : (a b : Row) → row_lt a b ≡ true → row_lt b a ≡ false
row_lt_asym a b l = ground (arith, row_lt_trans a b a l, row_lt_irrefl a)

-- In an ordered list the rows after the n-th are those that follow it.
pub rows_after-get_elem? :
    (rows : List Row) (n : ℕ) (c : Row)
    → IsOrdered rows
    → get_elem? rows n ≡ some c
    → rows_after c rows ≡ drop (suc n) rows
unfolding rows_after
rows_after-get_elem? [] n c o e = absurd (ground arith)
rows_after-get_elem? (r ∷ rows) zero c (below, o) e =
    let here : r ≡ c = ground arith in
    subst (λ d. rows_after d (r ∷ rows) ≡ rows) here
      (rw (row_lt_irrefl r) (rows_after_all r rows below))
rows_after-get_elem? (r ∷ rows) (suc n) c (below, o) e =
    let before : row_lt r c ≡ true = get_elem?-All (λ s. row_lt r s ≡ true) rows n c below e in
    rw (row_lt_asym r c before) (rows_after-get_elem? rows n c o e)

by_id_all : (rows : List Row) → IsTable rows → All (λ r. by_id r.id rows ≡ some r) rows
unfolding by_id
by_id_all [] h = tt
by_id_all (r ∷ rows) (fresh, h) = (
  rw (same_refl r.id),
  All-both rows (fresh-Differs r rows fresh) (by_id_all rows h)
      (λ s d e. ground (arith, same_iff r.id s.id, same_iff s.id r.id)),
)

-- Every row of the ordered list is found by its id.
pub by_id-get_elem? :
    (rows : List Row) (n : ℕ) (c : Row)
    → IsTable rows
    → get_elem? (order_rows rows) n ≡ some c
    → by_id c.id rows ≡ some c
by_id-get_elem? rows n c h e =
    get_elem?-All (λ r. by_id r.id rows ≡ some r) (order_rows rows) n c
      (All-order_rows (λ r. by_id r.id rows ≡ some r) rows (by_id_all rows h)) e

insert_sorted-perm : (r : Row) (rows : List Row) → Perm (insert_sorted r rows) (r ∷ rows)
unfolding insert_sorted
insert_sorted-perm r [] = Perm.refl (r ∷ [])
insert_sorted-perm r (s ∷ rows) = elim (Bool-cases (row_lt s r)) [
  | inl l ↦ rw l (Perm.trans (Perm.cons s (insert_sorted-perm r rows)) (Perm.swap r s rows))
  | inr l ↦ rw l (Perm.refl (r ∷ s ∷ rows))
]

-- Putting rows in order keeps each of them, once.
pub order_rows-perm : (rows : List Row) → Perm (order_rows rows) rows
unfolding order_rows
order_rows-perm [] = Perm.refl []
order_rows-perm (r ∷ rows) =
    Perm.trans (insert_sorted-perm r (order_rows rows)) (Perm.cons r (order_rows-perm rows))

length-insert_sorted :
    (r : Row) (rows : List Row) → length (insert_sorted r rows) ≡ suc (length rows)
unfolding insert_sorted
length-insert_sorted r [] = refl
length-insert_sorted r (s ∷ rows) = ground (arith, length-insert_sorted r rows)

pub length-order_rows : (rows : List Row) → length (order_rows rows) ≡ length rows
unfolding order_rows
length-order_rows [] = refl
length-order_rows (r ∷ rows) =
    length-insert_sorted r (order_rows rows) ∙ ap suc (length-order_rows rows)
