-- ===== src/Store/Roundtrip.antt =====
-- What is written to the store is what is read from it.
use skills.Prelude.{
  ℕ, String, true, ◌≡◌, ◌⊎◌, ◌∙◌, refl, sym, ap, subst, Option, none, some, List, ◌∷◌, same_iff,
  arith, inl, inr,
}
use skills.Domain.Types.{Status, status, to_int, status-to_int, Notification}
use skills.Domain.Errors.{Error, already_notified, Result, ok, err, is}
use skills.World.{Row, World}
use skills.Environment.{Env, Healthy}
use skills.Database.{by_email, by_id, update_row, conflicts}
use skills.Database.Table.{by_id-update_row, by_email-update_row, email_of_by_email, id_of_by_id}
use skills.Store.{Store}
use skills.Store.Contract.{
  Shows, Stores, put_status, Creates, Gets, Updates, Accesses, Writes, put_columns, put_rows,
  IsStore,
}

-- The same notification, but for its times.
pub record SameRecord (n m : Notification) : Type 0 where
  pub id : m.id ≡ n.id
  pub email : m.email ≡ n.email
  pub status : m.status ≡ n.status
  pub retry_count : m.retry_count ≡ n.retry_count
  pub retry_limit : m.retry_limit ≡ n.retry_limit

-- A read by the email finds the same record.
abbrev pub ReadsBack : Store → Notification → World → Type 0
ReadsBack store n w1 =
    (m : Notification) × (w2 : World) × (store.get_notification_by_email n.email w1 ≡ (ok m, w2))
    × SameRecord n m

-- `CreateNotification`: refused for a row that has the id or the email, or done.
abbrev pub CreatesAndReads : Store → Notification → World → Result Notification × World → Type 0
CreatesAndReads store n w r =
    ((e : Error) × (row : Row) × (w1 : World) × (r ≡ (err e, w1))
      × (is e already_notified ≡ true)
      × Stores row n
      × (conflicts row w.state.rows ≡ true)
      × (w1.state ≡ w.state))
    ⊎ ((m : Notification) × (w1 : World) × (r ≡ (ok m, w1)) × ReadsBack store n w1)

shown_stored : (n m : Notification) (row : Row) → Stores row n → Shows m row → SameRecord n m
shown_stored n m row stores shows = record {
  id = shows.id ∙ stores.id;
  email = shows.email ∙ stores.email;
  status = shows.status ∙ (ap status stores.status ∙ status-to_int n.status);
  retry_count = shows.retry_count ∙ stores.retry_count;
  retry_limit = shows.retry_limit ∙ stores.retry_limit;
}

by_email_first :
    (row : Row) (rows : List Row) (email : String)
    → row.email ≡ email
    → by_email email (row ∷ rows) ≡ some row
unfolding by_email
by_email_first row rows email e = ground (arith, same_iff row.email email)

module _ (env : Env) (store : Store) (contract : IsStore env store) (healthy : Healthy env) where
  -- After a write that leaves `row` under the email, a read finds what `row` holds.
  got :
      (n : Notification) (row : Row) (w1 : World)
      → Stores row n
      → by_email n.email w1.state.rows ≡ some row
      → (m : Notification) × (w2 : World) × (store.get_notification_by_email n.email w1
          ≡ (ok m, w2))
        × SameRecord n m
  got n row w1 stores found =
      go (store.get_notification_by_email n.email w1) (contract.get n.email w1)
    where
      go :
          (r : Result Notification × World)
          → Gets env w1 contract.scan n.email r
          → (m : Notification) × (w2 : World) × (r ≡ (ok m, w2)) × SameRecord n m
      go r (Gets.broken e w2 (k, text, f) i q s) = absurd (let h = healthy k in ground arith)
      go r (Gets.missing e w2 gone i q s) = absurd (ground arith)
      go r (Gets.found row' w2 e q s) =
          let here : row' ≡ row = ground arith in
          (
            contract.scan row',
            w2,
            q,
            shown_stored n (contract.scan row') row stores
                (subst (λ x. Shows (contract.scan row') x) here (contract.scan-Shows row')),
          )

  abbrev Reads : Notification → World → Type 0
  Reads = ReadsBack store

  created :
      (n : Notification) (w : World) (r : Result Notification × World)
      → Creates env w n r
      → CreatesAndReads store n w r
  created n w r (Creates.broken e w1 (k, text, f) q s) = absurd (let h = healthy k in ground arith)
  created n w r (Creates.taken row e w1 stores c i q s) = inl (e, row, w1, q, i, stores, c, s)
  created n w r (Creates.created row m w1 stores c q s) = inr (
    m,
    w1,
    q,
    got n row w1 stores (
        subst (λ rows. by_email n.email rows ≡ some row) (sym (ap (λ x. x.rows) s))
          (by_email_first row w.state.rows n.email stores.email)),
  )

  module _ (n : Notification) (row : Row) (w : World)
      (found : by_email n.email w.state.rows ≡ some row) (id : row.id ≡ n.id) where
    after_update :
        (t : ℕ)
        → by_email n.email (update_row n.id (put_columns n t) w.state.rows)
          ≡ some (put_columns n t row)
    after_update t =
        rw
          (
            by_email-update_row n.id (put_columns n t) (λ r. (refl, refl)) n.email w.state.rows,
            found,
          )
          (ground (arith, same_iff row.id n.id))

    updated :
        (r : Result Notification × World)
        → Updates env w n r
        → (m : Notification) × (w1 : World) × (r ≡ (ok m, w1)) × Reads n w1
    updated r (Updates.broken e w1 (k, text, f) q s) = absurd (let h = healthy k in ground arith)
    updated r (Updates.updated t m w1 q s) = (
      m,
      w1,
      q,
      got n (put_columns n t row) w1
          (record {
            id = id;
            email = email_of_by_email n.email row w.state.rows found;
            status = refl;
            retry_count = refl;
            retry_limit = refl;
          })
          (subst (λ rows. by_email n.email rows ≡ some (put_columns n t row))
            (sym (ap (λ x. x.rows) s)) (after_update t)),
    )

  module _ (id : String) (st : Status) (row : Row) (w : World)
      (found : by_id id w.state.rows ≡ some row) where
    after_mutation :
        (t : ℕ)
        → by_id id (update_row id (put_status st t) w.state.rows) ≡ some (put_status st t row)
    after_mutation t =
        rw (by_id-update_row id (put_status st t) (λ r. (refl, refl)) id w.state.rows, found)
          (ground (arith, same_iff row.id id, id_of_by_id id row w.state.rows found))

    accessed :
        (t : ℕ) (w1 : World) (r : Result Status × World)
        → w1.state ≡ put_rows (update_row id (put_status st t) w.state.rows) w.state
        → Accesses env w1 id r
        → (w2 : World) × (r ≡ (ok st, w2))
    accessed t w1 r e (Accesses.broken f w2 (k, text, g) q s) =
        absurd (let h = healthy k in ground arith)
    accessed t w1 r e (Accesses.missing f w2 gone q s) =
        absurd (let there = ap (λ x. by_id id x.rows) e ∙ after_mutation t in ground arith)
    accessed t w1 r e (Accesses.found row' w2 here q s) =
        let there = ap (λ x. by_id id x.rows) e ∙ after_mutation t in
        let same_row : row'.status ≡ to_int st = ground arith in
        (w2, q ∙ (λ i. (ok ((ap status same_row ∙ status-to_int st) i), w2)))

    mutated :
        (r : Option Error × World)
        → Writes env w (λ t. put_rows (update_row id (put_status st t) w.state.rows) w.state) r
        → (w1 : World) × (w2 : World) × (r ≡ (none, w1))
          × (store.notification_state_accessor id w1 ≡ (ok st, w2))
    mutated r (Writes.broken e w1 (k, text, f) q s) = absurd (let h = healthy k in ground arith)
    mutated r (Writes.written t w1 q s) =
        let (w2, a) =
          accessed t w1 (store.notification_state_accessor id w1) s (contract.access id w1) in
        (w1, w2, q, a)

module _ (env : Env) (store : Store) (contract : IsStore env store) (healthy : Healthy env)
    (w : World) where
  -- In any store that keeps the contract, over a driver that does not fail, a notification is
  -- created and then read back by its email with the same id, status, counts and limit; or it is
  -- refused as already notified, with nothing changed, and a row has its id or its email.
  pub create-get : (n : Notification) → CreatesAndReads store n w (store.create_notification n w)
  create-get n =
      created env store contract healthy n w (store.create_notification n w) (contract.create n w)

  -- In any store that keeps the contract, over a driver that does not fail: an update of a
  -- notification that has the id and the email of a row succeeds, and the notification is read back
  -- by its email with the same id, status, counts and limit; and a status that is then written to
  -- the row's id is the status that is read.
  pub update-get :
      (n : Notification) (row : Row) (s : Status)
      → by_email n.email w.state.rows ≡ some row
      → row.id ≡ n.id
      → by_id n.id w.state.rows ≡ some row
      → ((m : Notification) × (w1 : World) × (store.update_notification n w ≡ (ok m, w1))
          × ReadsBack store n w1)
        × ((w1 : World) × (w2 : World) × (store.notification_state_mutator n.id s w ≡ (none, w1))
            × (store.notification_state_accessor n.id w1 ≡ (ok s, w2)))
  update-get n row s found id found_id = (
    updated env store contract healthy n row w found id (store.update_notification n w)
        (contract.update n w),
    mutated env store contract healthy n.id s row w found_id
        (store.notification_state_mutator n.id s w) (contract.mutate n.id s w),
  )
