-- ===== src/Worker/Sound.antt =====
-- The invariant of the table, under everything that the worker can do to it.
use skills.Prelude.{
  ℕ, ◌≤◌, ◌≡◌, refl, String, Bool, none, some, List, [], ◌∷◌, arith, All, Bool-cases, Option-cases,
  inl, inr, same,
}
use skills.Domain.Types.{Status, to_int, Trigger}
use skills.Domain.Lifecycle.{Edge}
use skills.World.{Row, State, World}
use skills.Environment.{Env, EmailJobPayload, IsStateless}
use skills.Database.{by_email, update_row}
use skills.Database.Table.{IsTable, update_row-IsTable}
use skills.Store.{Store}
use skills.Store.Contract.{Gets, IsStore, put_status, put_columns}
use skills.Worker.{handle}
use skills.Worker.Changes.{Change, Changes}
use skills.Worker.Changes.Handled.{handle-Changes}

-- A row has one of the five statuses and a count up to its limit.
abbrev pub IsRow : Row → Type 0
IsRow r = (r.status ≤ 4) × (r.retry_count ≤ r.retry_limit)

pub record IsSound (s : State) : Type 0 where
  pub table : IsTable s.rows
  pub rows : All IsRow s.rows

pub update_row-All :
    (id : String) (f : Row → Row) (rows : List Row)
    → ((r : Row) → IsRow r → IsRow (f r))
    → All IsRow rows
    → All IsRow (update_row id f rows)
unfolding update_row
update_row-All id f [] keeps h = tt
update_row-All id f (r ∷ rows) keeps (here, rest) = elim (Bool-cases (same r.id id)) [
  | inl p ↦ rw p (keeps r here, update_row-All id f rows keeps rest)
  | inr p ↦ rw p (here, update_row-All id f rows keeps rest)
]

pub edge_target :
    {limit count : ℕ} {s d : Status} {t : Trigger} → Edge limit count s t d → to_int d ≤ 4
unfolding to_int
edge_target Edge.send = omega arith
edge_target Edge.deliver = omega arith
edge_target Edge.fail = omega arith
edge_target (Edge.soft_fail h) = omega arith
edge_target Edge.retry = omega arith
edge_target Edge.reset_delivered = omega arith
edge_target Edge.reset_failed = omega arith
edge_target Edge.reset_not_sent = omega arith

module _ (id : String) (limit count : ℕ) where
  Change-IsSound : {s s1 : State} → Change id limit count s s1 → IsSound s → IsSound s1
  unfolding to_int
  Change-IsSound {s} (Change.moved row t d now m e q) i = rw q (record {
    table = update_row-IsTable id (put_status d now) (λ r. (refl, refl)) s.rows i.table;
    rows = update_row-All id (put_status d now) s.rows (λ r h. (edge_target e, h.1)) i.rows;
  })
  Change-IsSound (Change.logged from to t e q) i = rw q (record { table = i.table; rows = i.rows })
  Change-IsSound (Change.announced m q) i = rw q (record { table = i.table; rows = i.rows })
  Change-IsSound (Change.mailed m q) i = rw q (record { table = i.table; rows = i.rows })
  Change-IsSound {s} (Change.counted n now a b c l q) i = rw q (record {
    table = update_row-IsTable id (put_columns n now) (λ r. (refl, refl)) s.rows i.table;
    rows =
        update_row-All id (put_columns n now) s.rows (λ r h. (rw a (omega arith), omega arith))
          i.rows;
  })

  Changes-IsSound : {s s1 : State} → Changes id limit count s s1 → IsSound s → IsSound s1
  Changes-IsSound (Changes.done q) i = rw q i
  Changes-IsSound (Changes.change s2 c x) i = Change-IsSound x (Changes-IsSound c i)

module _ (env : Env) (store : Store) (law : IsStateless env) (contract : IsStore env store)
    (b : Bool) (payload : String) (w : World) where
  pub handle_unknown :
      (job : EmailJobPayload)
      → env.unmarshal payload ≡ some job
      → by_email job.email w.state.rows ≡ none
      → (handle env store b payload w).1.state ≡ w.state
  unfolding handle
  handle_unknown job parsed absent = go (contract.get job.email w)
    where
      go :
          Gets env w contract.scan job.email (store.get_notification_by_email job.email w)
          → (handle env store b payload w).1.state ≡ w.state
      go (Gets.broken e w1 k i r q) = rw (parsed, handle, r, r) q
      go (Gets.missing e w1 m i r q) = rw (parsed, handle, r, r) q
      go (Gets.found row w1 m r q) = absurd (ground arith)

  -- Over a backend that keeps the contract and with `stateless` as documented, `Handle` keeps the
  -- invariant of the table on every payload and with any failures of the driver, the templates and
  -- the sender: ids and emails are unique, each status is one of the five, and no retry count is
  -- above its limit.
  pub handle-IsSound : IsSound w.state → IsSound (handle env store b payload w).1.state
  unfolding handle
  handle-IsSound i = elim (Option-cases (env.unmarshal payload)) [
    | inl e ↦ rw (e, handle) i
    | inr (job, e) ↦ elim (Option-cases (by_email job.email w.state.rows)) [
      | inl m ↦ rw (handle_unknown job e m) i
      | inr (row, m) ↦
          Changes-IsSound row.id row.retry_limit row.retry_count
            (handle-Changes env store law contract b payload w e i.table m) i
    ]
  ]
