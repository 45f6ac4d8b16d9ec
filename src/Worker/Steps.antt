-- ===== src/Worker/Steps.antt =====
-- The steps of the worker where the driver does not fail: what each call returns and leaves.
use skills.Prelude.{ℕ, String, ◌≡◌, Bool, none, some, ◌∷◌, arith}
use skills.Domain.Types.{Status, status, Trigger, Notification}
use skills.Domain.Errors.{Error, ok}
use skills.Domain.Machine.{lifecycle, permitted}
use skills.World.{Row, World}
use skills.Environment.{Env, Healthy, IsStateless}
use skills.Database.{by_email, by_id, update_row}
use skills.Store.{Store}
use skills.Store.Contract.{
  Fault, Gets, Updates, Writes, IsStore, put_status, put_columns, put_rows, log_row,
}
use skills.Firing.{store_machine, Fired, fire-Fired}
use skills.Worker.{fire_and_log}

no-Fault : (env : Env) → Healthy env → ¬ Fault env
no-Fault env healthy (k, text, e) = ground (arith, healthy k)

module _ (env : Env) (store : Store) (law : IsStateless env) (contract : IsStore env store)
    (healthy : Healthy env) where
  -- A loaded notification.
  pub get_healthy :
      (email : String) (w : World) (row : Row)
      → by_email email w.state.rows ≡ some row
      → (w1 : World) × (store.get_notification_by_email email w ≡ (ok (contract.scan row), w1))
        × (w1.state ≡ w.state)
  get_healthy email w row h = go (contract.get email w)
    where
      go :
          Gets env w contract.scan email (store.get_notification_by_email email w)
          → (w1 : World) × (store.get_notification_by_email email w ≡ (ok (contract.scan row), w1))
            × (w1.state ≡ w.state)
      go (Gets.broken e w1 k _ _ _) = absurd (no-Fault env healthy k)
      go (Gets.missing e w1 m _ _ _) = absurd (ground arith)
      go (Gets.found row' w1 m r s) = let same : row' ≡ row = ground arith in (w1, rw same at r, s)

  -- A written audit row.
  pub log_healthy :
      (id : String) (from to : Status) (t : Trigger) (w : World)
      → (store.log_transition "notification" id from to t w).1.state
        ≡ record w.state { log = log_row "notification" id from to t ∷ w.state.log }
  log_healthy id from to t w = go (contract.log "notification" id from to t w)
    where
      go :
          Writes env w
            (λ _. record w.state { log = log_row "notification" id from to t ∷ w.state.log })
            (store.log_transition "notification" id from to t w)
          → (store.log_transition "notification" id from to t w).1.state
            ≡ record w.state { log = log_row "notification" id from to t ∷ w.state.log }
      go (Writes.broken e w1 k _ _) = absurd (no-Fault env healthy k)
      go (Writes.written _ w1 r s) = rw r s

  -- An updated row.
  pub update_healthy :
      (n : Notification) (w : World)
      → (t : ℕ) × (m : Notification) × (w1 : World) × (store.update_notification n w ≡ (ok m, w1))
        × (w1.state ≡ put_rows (update_row n.id (put_columns n t) w.state.rows) w.state)
  update_healthy n w = go (contract.update n w)
    where
      go :
          Updates env w n (store.update_notification n w)
          → (t : ℕ) × (m : Notification) × (w1 : World) × (store.update_notification n w
              ≡ (ok m, w1))
            × (w1.state ≡ put_rows (update_row n.id (put_columns n t) w.state.rows) w.state)
      go (Updates.broken e w1 k _ _) = absurd (no-Fault env healthy k)
      go (Updates.updated t m w1 r s) = (t, m, w1, r, s)

  module _ (id : String) (limit count : ℕ) (t : Trigger) (w : World) (row : Row)
      (found : by_id id w.state.rows ≡ some row) where
    -- A permitted trigger moves the row.
    pub fire_healthy :
        (d : Status)
        → permitted (lifecycle limit count) (status row.status) t ≡ some d
        → (now : ℕ) × (w1 : World) × (env.fire (store_machine store id limit count) t w
            ≡ (none, w1))
          × (w1.state ≡ put_rows (update_row id (put_status d now) w.state.rows) w.state)
    fire_healthy d p = go (fire-Fired env store law contract id limit count t w)
      where
        go :
            Fired env id limit count t w (env.fire (store_machine store id limit count) t w)
            → (now : ℕ) × (w1 : World) × (env.fire (store_machine store id limit count) t w
                ≡ (none, w1))
              × (w1.state ≡ put_rows (update_row id (put_status d now) w.state.rows) w.state)
        go (Fired.broken e w1 k _ _) = absurd (no-Fault env healthy k)
        go (Fired.missing e w1 m _ _) = absurd (ground arith)
        go (Fired.refused row' e w1 m n _ _) =
            let same : row' ≡ row = ground arith in
            let n' : permitted (lifecycle limit count) (status row.status) t ≡ none =
              rw same at n in
            absurd (ground arith)
        go (Fired.moved row' d' now w1 m n r s) =
            let same : row' ≡ row = ground arith in
            let n' : permitted (lifecycle limit count) (status row.status) t ≡ some d' =
              rw same at n in
            let same_d : d' ≡ d = ground arith in (now, w1, r, rw same_d at s)

    -- A trigger that is not permitted is refused, and nothing changes.
    pub fire_refused :
        permitted (lifecycle limit count) (status row.status) t ≡ none
        → (e : Error) × (w1 : World) × (env.fire (store_machine store id limit count) t w
            ≡ (some e, w1))
          × (w1.state ≡ w.state)
    fire_refused p = go (fire-Fired env store law contract id limit count t w)
      where
        go :
            Fired env id limit count t w (env.fire (store_machine store id limit count) t w)
            → (e : Error) × (w1 : World) × (env.fire (store_machine store id limit count) t w
                ≡ (some e, w1))
              × (w1.state ≡ w.state)
        go (Fired.broken e w1 k r s) = (e, w1, r, s)
        go (Fired.missing e w1 m r s) = (e, w1, r, s)
        go (Fired.refused row' e w1 m n r s) = (e, w1, r, s)
        go (Fired.moved row' d' now w1 m n r s) =
            let same : row' ≡ row = ground arith in
            let n' : permitted (lifecycle limit count) (status row.status) t ≡ some d' =
              rw same at n in
            absurd (ground arith)

  -- `fireAndLog` of a permitted trigger: the row moves and the move is logged.
  pub fire_and_log_healthy :
      (b : Bool) (n : Notification) (from to : Status) (t : Trigger) (w : World) (row : Row)
      → by_id n.id w.state.rows ≡ some row
      → permitted (lifecycle n.retry_limit n.retry_count) (status row.status) t ≡ some to
      → (now : ℕ) × (w1 : World) × (fire_and_log env store b
            (store_machine store n.id n.retry_limit n.retry_count)
            n
            from
            t
            to
            w
          ≡ (none, w1))
        × (w1.state ≡ record w.state {
          rows = update_row n.id (put_status to now) w.state.rows;
          log = log_row "notification" n.id from to t ∷ w.state.log;
        })
  unfolding fire_and_log
  fire_and_log_healthy b n from to t w row found p =
      let (now, w1, fired, moved) =
        fire_healthy n.id n.retry_limit n.retry_count t w row found to p in
      (
        now,
        (store.log_transition "notification" n.id from to t w1).1,
        rw (fired, fire_and_log, fired),
        rw (log_healthy n.id from to t w1, moved),
      )
