-- ===== src/Store/Contract.antt =====
-- What every backend of internal/domain/store.go promises, whatever the driver does: each method
-- is described by the ways in which it can end. The handlers' proofs use nothing else.
use skills.Prelude.{ℕ, String, true, false, ◌≡◌, Option, none, some, List, ◌∷◌, map, length}
use skills.Domain.Types.{
  Status, status, to_int, status_string, Trigger, trigger_string, Notification,
}
use skills.Domain.Errors.{Error, not_found, already_notified, Result, ok, err, is}
use skills.World.{Row, LogRow, State, World}
use skills.Environment.{Env}
use skills.Database.{by_email, by_id, update_row, conflicts, select_page}
use skills.Store.{Store}

-- A statement at which the driver failed.
abbrev pub Fault : Env → Type 0
Fault env = (k : ℕ) × (text : String) × (env.faults k ≡ some text)

pub record Shows (n : Notification) (r : Row) : Type 0 where
  pub id : n.id ≡ r.id
  pub email : n.email ≡ r.email
  pub status : n.status ≡ status r.status
  pub retry_count : n.retry_count ≡ r.retry_count
  pub retry_limit : n.retry_limit ≡ r.retry_limit

pub record Stores (r : Row) (n : Notification) : Type 0 where
  pub id : r.id ≡ n.id
  pub email : r.email ≡ n.email
  pub status : r.status ≡ to_int n.status
  pub retry_count : r.retry_count ≡ n.retry_count
  pub retry_limit : r.retry_limit ≡ n.retry_limit

-- The effect of the two UPDATE statements on a row, `t` being the new `updated_at`.
abbrev pub put_columns : Notification → ℕ → Row → Row
put_columns n t r = record r {
  status = to_int n.status;
  retry_count = n.retry_count;
  retry_limit = n.retry_limit;
  updated_at = t;
}

abbrev pub put_status : Status → ℕ → Row → Row
put_status s t r = record r { status = to_int s; updated_at = t }

abbrev pub put_rows : List Row → State → State
put_rows rows s = record s { rows = rows }

abbrev pub log_row : String → String → Status → Status → Trigger → LogRow
log_row entity_type id from to t = record {
  entity_type = entity_type;
  entity_id = id;
  from_state = status_string from;
  to_state = status_string to;
  trigger = trigger_string t;
}

module _ (env : Env) (w : World) where
  -- `CreateNotification`. A driver's failure may also be taken for a violation, by its text.
  pub data Creates (n : Notification) (r : Result Notification × World) : Type 0 where
    broken :
        (e : Error) (w1 : World) → Fault env → r ≡ (err e, w1) → w1.state ≡ w.state → Creates n r
    taken :
        (row : Row) (e : Error) (w1 : World)
        → Stores row n
        → conflicts row w.state.rows ≡ true
        → is e already_notified ≡ true
        → r ≡ (err e, w1)
        → w1.state ≡ w.state
        → Creates n r
    created :
        (row : Row) (m : Notification) (w1 : World)
        → Stores row n
        → conflicts row w.state.rows ≡ false
        → r ≡ (ok m, w1)
        → w1.state ≡ put_rows (row ∷ w.state.rows) w.state
        → Creates n r

  pub data Gets (scan : Row → Notification) (email : String) (r : Result Notification × World)
      : Type 0 where
    broken :
        (e : Error) (w1 : World)
        → Fault env
        → is e not_found ≡ false
        → r ≡ (err e, w1)
        → w1.state ≡ w.state
        → Gets scan email r
    missing :
        (e : Error) (w1 : World)
        → by_email email w.state.rows ≡ none
        → is e not_found ≡ true
        → r ≡ (err e, w1)
        → w1.state ≡ w.state
        → Gets scan email r
    found :
        (row : Row) (w1 : World)
        → by_email email w.state.rows ≡ some row
        → r ≡ (ok (scan row), w1)
        → w1.state ≡ w.state
        → Gets scan email r

  pub data Updates (n : Notification) (r : Result Notification × World) : Type 0 where
    broken :
        (e : Error) (w1 : World) → Fault env → r ≡ (err e, w1) → w1.state ≡ w.state → Updates n r
    updated :
        (t : ℕ) (m : Notification) (w1 : World)
        → r ≡ (ok m, w1)
        → w1.state ≡ put_rows (update_row n.id (put_columns n t) w.state.rows) w.state
        → Updates n r

  -- A query with the answer `a`.
  pub data Answers {A : Type 0} (a : A) (r : Result A × World) : Type 0 where
    broken :
        (e : Error) (w1 : World) → Fault env → r ≡ (err e, w1) → w1.state ≡ w.state → Answers a r
    answered : (w1 : World) → r ≡ (ok a, w1) → w1.state ≡ w.state → Answers a r

  pub data Accesses (id : String) (r : Result Status × World) : Type 0 where
    broken :
        (e : Error) (w1 : World) → Fault env → r ≡ (err e, w1) → w1.state ≡ w.state → Accesses id r
    missing :
        (e : Error) (w1 : World)
        → by_id id w.state.rows ≡ none
        → r ≡ (err e, w1)
        → w1.state ≡ w.state
        → Accesses id r
    found :
        (row : Row) (w1 : World)
        → by_id id w.state.rows ≡ some row
        → r ≡ (ok (status row.status), w1)
        → w1.state ≡ w.state
        → Accesses id r

  -- A method with no result: it fails in the driver, or it brings about the state `s t`, `t` being
  -- the time that it writes.
  pub data Writes (s : ℕ → State) (r : Option Error × World) : Type 0 where
    broken :
        (e : Error) (w1 : World) → Fault env → r ≡ (some e, w1) → w1.state ≡ w.state → Writes s r
    written : (t : ℕ) (w1 : World) → r ≡ (none, w1) → w1.state ≡ s t → Writes s r

pub record IsStore (env : Env) (store : Store) : Type 0 where
  pub scan : Row → Notification
  pub scan-Shows : (r : Row) → Shows (scan r) r
  pub create : (n : Notification) (w : World) → Creates env w n (store.create_notification n w)
  pub get :
      (email : String) (w : World) → Gets env w scan email (store.get_notification_by_email email w)
  pub update : (n : Notification) (w : World) → Updates env w n (store.update_notification n w)
  pub list :
      (after : String) (limit : ℕ) (w : World)
      → Answers env w
          (map scan (select_page after limit w.state.rows))
          (store.list_notifications after limit w)
  pub count : (w : World) → Answers env w (length w.state.rows) (store.count_notifications w)
  pub access :
      (id : String) (w : World) → Accesses env w id (store.notification_state_accessor id w)
  pub mutate :
      (id : String) (s : Status) (w : World)
      → Writes env w
          (λ t. put_rows (update_row id (put_status s t) w.state.rows) w.state)
          (store.notification_state_mutator id s w)
  pub log :
      (entity_type id : String) (from to : Status) (t : Trigger) (w : World)
      → Writes env w
          (λ _. record w.state { log = log_row entity_type id from to t ∷ w.state.log })
          (store.log_transition entity_type id from to t w)
  pub ping : (w : World) → Writes env w (λ _. w.state) (store.ping w)
