-- ===== src/Service/Shared.antt =====
-- Requests and jobs that share the database with others: between any two statements of a handler,
-- other handlers may run.
pub mod Work
pub mod Requests
pub mod Tools
pub mod Served
use skills.Prelude.{
  ◌⊎◌, ℕ, ◌+◌, ◌≤◌, ◌≡◌, refl, String, Bool, true, false, Option, none, some, List, arith, inl, inr,
}
use skills.Domain.Types.{Status, to_int, Trigger, Notification, pending, not_sent, sending}
use skills.Domain.Errors.{Error, Result, ok, err, is}
use skills.Domain.Machine.{lifecycle, permitted, configure_state_machine}
use skills.Domain.Lifecycle.{Edge, permitted_iff_edge}
use skills.World.{Row, State, World}
use skills.Environment.{Env, Fires, IsStateless, EmailJobPayload}
use skills.Database.{update_row}
use skills.Database.Table.{IsTable, update_row-IsTable}
use skills.Store.{Store}
use skills.Store.Contract.{
  IsStore, Creates, Gets, Updates, Answers, Accesses, Writes, put_status, put_columns, Stores,
}
use skills.Firing.{store_machine}
use skills.Worker.Sound.{IsRow, IsSound, update_row-All, edge_target}

-- The store of a handler while `others` run before each of its statements. `others` sees the
-- number of the statement, so that it can do something else each time.
unfoldable pub disturbed : (World → World) → Store → Store
disturbed others store = record {
  create_notification = λ n w. store.create_notification n (others w);
  get_notification_by_email = λ email w. store.get_notification_by_email email (others w);
  update_notification = λ n w. store.update_notification n (others w);
  list_notifications = λ after limit w. store.list_notifications after limit (others w);
  count_notifications = λ w. store.count_notifications (others w);
  log_transition = λ entity id from to t w. store.log_transition entity id from to t (others w);
  notification_state_accessor = λ id w. store.notification_state_accessor id (others w);
  notification_state_mutator = λ id s w. store.notification_state_mutator id s (others w);
  ping = λ w. store.ping (others w);
}

abbrev pub Sound : World → Type 0
Sound w = IsSound w.state

abbrev pub IsWritable : Notification → Type 0
IsWritable n = (to_int n.status ≤ 4) × (n.retry_count ≤ n.retry_limit)

-- Every method keeps the invariant of the table, at the arguments that the handlers give it.
pub record Keeps (store : Store) : Type 0 where
  pub create :
      (n : Notification) (w : World)
      → IsWritable n
      → Sound w
      → Sound (store.create_notification n w).1
  pub get :
      (email : String) (w : World) → Sound w → Sound (store.get_notification_by_email email w).1
  pub update :
      (n : Notification) (w : World)
      → IsWritable n
      → Sound w
      → Sound (store.update_notification n w).1
  pub list :
      (after : String) (limit : ℕ) (w : World)
      → Sound w
      → Sound (store.list_notifications after limit w).1
  pub count : (w : World) → Sound w → Sound (store.count_notifications w).1
  pub log :
      (entity id : String) (from to : Status) (t : Trigger) (w : World)
      → Sound w
      → Sound (store.log_transition entity id from to t w).1
  pub access :
      (id : String) (w : World) → Sound w → Sound (store.notification_state_accessor id w).1
  pub mutate :
      (id : String) (s : Status) (w : World)
      → to_int s ≤ 4
      → Sound w
      → Sound (store.notification_state_mutator id s w).1
  pub ping : (w : World) → Sound w → Sound (store.ping w).1

pub disturbed-Keeps :
    (others : World → World) (store : Store)
    → ((w : World) → Sound w → Sound (others w))
    → Keeps store
    → Keeps (disturbed others store)
unfolding disturbed
disturbed-Keeps others store o k = record {
  create = λ n w h i. k.create n (others w) h (o w i);
  get = λ email w i. k.get email (others w) (o w i);
  update = λ n w h i. k.update n (others w) h (o w i);
  list = λ after limit w i. k.list after limit (others w) (o w i);
  count = λ w i. k.count (others w) (o w i);
  log = λ entity id from to t w i. k.log entity id from to t (others w) (o w i);
  access = λ id w i. k.access id (others w) (o w i);
  mutate = λ id s w h i. k.mutate id s (others w) h (o w i);
  ping = λ w i. k.ping (others w) (o w i);
}

-- The ways in which a method of a backend can end leave the invariant.
module _ (env : Env) (w : World) (i : Sound w) where
  creates :
      (n : Notification) (r : Result Notification × World)
      → IsWritable n
      → Creates env w n r
      → Sound r.1
  creates n r h (Creates.broken e w1 k p q) = rw (p, q) i
  creates n r h (Creates.taken row e w1 s c k p q) = rw (p, q) i
  creates n r h (Creates.created row m w1 s c p q) =
      rw (p, q)
        (record {
          table = (c, i.table);
          rows = (
            (let x = s.status in
                let y = s.retry_count in let z = s.retry_limit in (omega arith, omega arith)),
            i.rows,
          );
        })

  gets :
      (scan : Row → Notification) (email : String) (r : Result Notification × World)
      → Gets env w scan email r
      → Sound r.1
  gets scan email r (Gets.broken e w1 k m p q) = rw (p, q) i
  gets scan email r (Gets.missing e w1 k m p q) = rw (p, q) i
  gets scan email r (Gets.found row w1 k p q) = rw (p, q) i

  updates :
      (n : Notification) (r : Result Notification × World)
      → IsWritable n
      → Updates env w n r
      → Sound r.1
  updates n r h (Updates.broken e w1 k p q) = rw (p, q) i
  updates n r h (Updates.updated t m w1 p q) =
      rw (p, q)
        (record {
          table =
              update_row-IsTable n.id (put_columns n t) (λ r. (refl, refl)) w.state.rows i.table;
          rows = update_row-All n.id (put_columns n t) w.state.rows (λ r l. h) i.rows;
        })

  answers : {A : Type 0} (a : A) (r : Result A × World) → Answers env w a r → Sound r.1
  answers a r (Answers.broken e w1 k p q) = rw (p, q) i
  answers a r (Answers.answered w1 p q) = rw (p, q) i

  accesses : (id : String) (r : Result Status × World) → Accesses env w id r → Sound r.1
  accesses id r (Accesses.broken e w1 k p q) = rw (p, q) i
  accesses id r (Accesses.missing e w1 k p q) = rw (p, q) i
  accesses id r (Accesses.found row w1 k p q) = rw (p, q) i

  pub writes :
      (s : ℕ → State) (r : Option Error × World)
      → ((t : ℕ) → IsSound (s t))
      → Writes env w s r
      → Sound r.1
  writes s r h (Writes.broken e w1 k p q) = rw (p, q) i
  writes s r h (Writes.written t w1 p q) = rw (p, q) (h t)

pub Result-cases :
    {A : Type 0} (r : Result A) → ((e : Error) × (r ≡ err e)) ⊎ ((a : A) × (r ≡ ok a))
Result-cases (ok a) = inr (a, refl)
Result-cases (err e) = inl (e, refl)

pub contract-Keeps : (env : Env) (store : Store) → IsStore env store → Keeps store
contract-Keeps env store contract = record {
  create = λ n w h i. creates env w i n _ h (contract.create n w);
  get = λ email w i. gets env w i contract.scan email _ (contract.get email w);
  update = λ n w h i. updates env w i n _ h (contract.update n w);
  list = λ after limit w i. answers env w i _ _ (contract.list after limit w);
  count = λ w i. answers env w i _ _ (contract.count w);
  log = λ entity id from to t w i.
      writes env w i _ _ (λ _. record { table = i.table; rows = i.rows })
        (contract.log entity id from to t w);
  access = λ id w i. accesses env w i id _ (contract.access id w);
  mutate = λ id s w h i.
      writes env w i _ _
        (λ t. record {
          table = update_row-IsTable id (put_status s t) (λ r. (refl, refl)) w.state.rows i.table;
          rows = update_row-All id (put_status s t) w.state.rows (λ r l. (h, l.1)) i.rows;
        })
        (contract.mutate id s w);
  ping = λ w i. writes env w i _ _ (λ _. i) (contract.ping w);
}
