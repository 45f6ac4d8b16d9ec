-- ===== src/Database/Table.antt =====
-- The lookups under an UPDATE and an INSERT, and the two uniqueness constraints of the table.
use mathlib.Core.Option
use skills.Prelude.{
  String, ◌≡◌, ◌∙◌, refl, false, true, some, List, [], ◌∷◌, arith, same, same_iff, same_refl,
  if◌then◌else◌,
}
use skills.World.{Row}
use skills.Database.{by_email, by_id, update_row, conflicts}

-- Every row differs from those below it in its id and in its email.
abbrev pub IsTable : List Row → Type 0
IsTable [] = Unit
IsTable (r ∷ rs) = (conflicts r rs ≡ false) × IsTable rs

-- An update that leaves the id and the email alone.
abbrev pub Keeps : (Row → Row) → Type 0
Keeps f = (r : Row) → ((f r).id ≡ r.id) × ((f r).email ≡ r.email)

abbrev pub touch : String → (Row → Row) → Row → Row
touch i f r = if same r.id i then f r else r

module _ (i : String) (f : Row → Row) (keeps : Keeps f) where
  touch-Keeps : Keeps (touch i f)
  touch-Keeps r = ground (arith, keeps r)

  pub by_id-update_row :
      (j : String) (rows : List Row)
      → by_id j (update_row i f rows) ≡ Option.map (touch i f) (by_id j rows)
  unfolding by_id update_row
  by_id-update_row j [] = refl
  by_id-update_row j (r ∷ rs) = rw ((touch-Keeps r).0) (ground (arith, by_id-update_row j rs))

  pub by_email-update_row :
      (e : String) (rows : List Row)
      → by_email e (update_row i f rows) ≡ Option.map (touch i f) (by_email e rows)
  unfolding by_email update_row
  by_email-update_row e [] = refl
  by_email-update_row e (r ∷ rs) = rw ((touch-Keeps r).1) (ground (arith, by_email-update_row e rs))

  conflicts-update_row :
      (row : Row) (rows : List Row) → conflicts row (update_row i f rows) ≡ conflicts row rows
  unfolding conflicts update_row
  conflicts-update_row row [] = refl
  conflicts-update_row row (r ∷ rs) =
      rw ((touch-Keeps r).0, (touch-Keeps r).1, conflicts-update_row row rs)

  conflicts-touch :
      (row : Row) (rows : List Row) → conflicts (touch i f row) rows ≡ conflicts row rows
  unfolding conflicts
  conflicts-touch row [] = refl
  conflicts-touch row (r ∷ rs) =
      rw ((touch-Keeps row).0, (touch-Keeps row).1, conflicts-touch row rs)

  pub update_row-IsTable : (rows : List Row) → IsTable rows → IsTable (update_row i f rows)
  unfolding update_row
  update_row-IsTable [] h = tt
  update_row-IsTable (r ∷ rs) (fresh, h) = (
    rw (conflicts-touch r (update_row i f rs), conflicts-update_row r rs) fresh,
    update_row-IsTable rs h,
  )

by_id_of_fresh :
    (r s : Row) (rows : List Row)
    → conflicts r rows ≡ false
    → by_id s.id rows ≡ some s
    → same r.id s.id ≡ false
unfolding conflicts by_id
by_id_of_fresh r s [] c h = cc
by_id_of_fresh r s (t ∷ rows) c h =
    ground
      (arith, same_iff t.id s.id, same_iff r.id s.id, same_iff t.id r.id, by_id_of_fresh r s rows)

-- In a table the row that an email finds is the row that its id finds.
pub by_id_of_by_email :
    (e : String) (r : Row) (rows : List Row)
    → IsTable rows
    → by_email e rows ≡ some r
    → by_id r.id rows ≡ some r
unfolding by_id by_email
by_id_of_by_email e r [] t h = cc
by_id_of_by_email e r (s ∷ rows) (fresh, t) h =
    ground (arith, same_refl s.id, by_id_of_by_email e r rows t, by_id_of_fresh s r rows fresh)

-- An email finds a row of that email, and an id a row of that id.
pub email_of_by_email :
    (e : String) (r : Row) (rows : List Row) → by_email e rows ≡ some r → r.email ≡ e
unfolding by_email
email_of_by_email e r [] h = cc
email_of_by_email e r (s ∷ rows) h = ground (arith, same_iff s.email e, email_of_by_email e r rows)

pub id_of_by_id : (i : String) (r : Row) (rows : List Row) → by_id i rows ≡ some r → r.id ≡ i
unfolding by_id
id_of_by_id i r [] h = cc
id_of_by_id i r (s ∷ rows) h = ground (arith, same_iff s.id i, id_of_by_id i r rows)

module _ (i : String) (f g : Row → Row) where
  -- Two updates of one id are one update.
  pub update_row-update_row :
      Keeps g
      → (rows : List Row) → update_row i f (update_row i g rows) ≡ update_row i (λ r. f (g r)) rows
  unfolding update_row
  update_row-update_row keeps [] = refl
  update_row-update_row keeps (r ∷ rs) = ground (arith, (keeps r).0, update_row-update_row keeps rs)

  update_row_missing :
      (r : Row) (rows : List Row)
      → same r.id i ≡ true
      → conflicts r rows ≡ false
      → update_row i f rows ≡ update_row i g rows
  unfolding update_row conflicts
  update_row_missing r [] m c = refl
  update_row_missing r (s ∷ rows) m c =
      ground
        (arith, same_iff r.id i, same_iff s.id i, same_iff s.id r.id, update_row_missing r rows m)

  -- In a table an update is known by what it does to the one row of its id.
  pub update_row_congr :
      (r : Row) (rows : List Row)
      → IsTable rows
      → by_id i rows ≡ some r
      → f r ≡ g r
      → update_row i f rows ≡ update_row i g rows
  unfolding update_row by_id
  update_row_congr r [] t h e = refl
  update_row_congr r (s ∷ rows) (fresh, t) h e =
      ground (arith, update_row_congr r rows t, update_row_missing s rows)

-- An update that follows another one of the same id is any update that does the same to its row.
pub update_row_settles :
    (i : String) (f g h : Row → Row) (r : Row) (rows : List Row)
    → Keeps g
    → IsTable rows
    → by_id i rows ≡ some r
    → f (g r) ≡ h r
    → update_row i f (update_row i g rows) ≡ update_row i h rows
update_row_settles i f g h r rows keeps t found e =
    update_row-update_row i f g keeps rows ∙ update_row_congr i (λ v. f (g v)) h r rows t found e
