-- ===== src/Firing.antt =====
-- `FireCtx` on the machine that the worker and the reset handlers configure: the `stateless`
-- library over a backend's accessor and mutator.
use skills.Prelude.{ℕ, String, ◌≡◌, Option, none, some, arith, ◌∙◌}
use skills.Domain.Types.{Status, status, Trigger}
use skills.Domain.Errors.{Error, ok, err}
use skills.Domain.Machine.{StateMachine, configure_state_machine, lifecycle, permitted}
use skills.World.{Row, World}
use skills.Environment.{Env, Fires, IsStateless}
use skills.Database.{by_id, update_row}
use skills.Store.{Store}
use skills.Store.Contract.{Fault, Accesses, Writes, IsStore, put_status, put_rows}

abbrev pub store_machine : Store → String → ℕ → ℕ → StateMachine
store_machine store id =
    configure_state_machine (store.notification_state_accessor id)
      (store.notification_state_mutator id)

-- The ways in which a fired trigger can end, seen from the table.
pub data Fired (env : Env) (id : String) (limit count : ℕ) (t : Trigger) (w : World)
    (r : Option Error × World) : Type 0 where
  broken :
      (e : Error) (w1 : World)
      → Fault env
      → r ≡ (some e, w1)
      → w1.state ≡ w.state
      → Fired env id limit count t w r
  missing :
      (e : Error) (w1 : World)
      → by_id id w.state.rows ≡ none
      → r ≡ (some e, w1)
      → w1.state ≡ w.state
      → Fired env id limit count t w r
  refused :
      (row : Row) (e : Error) (w1 : World)
      → by_id id w.state.rows ≡ some row
      → permitted (lifecycle limit count) (status row.status) t ≡ none
      → r ≡ (some e, w1)
      → w1.state ≡ w.state
      → Fired env id limit count t w r
  moved :
      (row : Row) (d : Status) (now : ℕ) (w1 : World)
      → by_id id w.state.rows ≡ some row
      → permitted (lifecycle limit count) (status row.status) t ≡ some d
      → r ≡ (none, w1)
      → w1.state ≡ put_rows (update_row id (put_status d now) w.state.rows) w.state
      → Fired env id limit count t w r

module _ (env : Env) (store : Store) (law : IsStateless env) (contract : IsStore env store) where
  module _ (id : String) (limit count : ℕ) (t : Trigger) (w : World) where
    abbrev Goal : Type 0
    Goal = Fired env id limit count t w (env.fire (store_machine store id limit count) t w)

    fired_unread :
        (e f : Error) (w1 : World)
        → store.notification_state_accessor id w ≡ (err e, w1)
        → env.fire (store_machine store id limit count) t w ≡ (some f, w1)
        → Accesses env w id (store.notification_state_accessor id w)
        → Goal
    fired_unread e f w1 a r (Accesses.broken _ w2 k p q) = Fired.broken f w1 k r (ground arith)
    fired_unread e f w1 a r (Accesses.missing _ w2 m p q) = Fired.missing f w1 m r (ground arith)
    fired_unread e f w1 a r (Accesses.found row w2 m p q) = absurd (ground arith)

    fired_refused :
        (s : Status) (f : Error) (w1 : World)
        → store.notification_state_accessor id w ≡ (ok s, w1)
        → permitted (lifecycle limit count) s t ≡ none
        → env.fire (store_machine store id limit count) t w ≡ (some f, w1)
        → Accesses env w id (store.notification_state_accessor id w)
        → Goal
    fired_refused s f w1 a n r (Accesses.broken _ w2 k p q) = Fired.broken f w1 k r (ground arith)
    fired_refused s f w1 a n r (Accesses.missing _ w2 m p q) = Fired.missing f w1 m r (ground arith)
    fired_refused s f w1 a n r (Accesses.found row w2 m p q) =
        Fired.refused row f w1 m (ground arith) r (ground arith)

    fired_moved :
        (s d : Status) (w1 : World)
        → store.notification_state_accessor id w ≡ (ok s, w1)
        → permitted (lifecycle limit count) s t ≡ some d
        → env.fire (store_machine store id limit count) t w
          ≡ store.notification_state_mutator id d w1
        → Accesses env w id (store.notification_state_accessor id w)
        → Writes env w1
            (λ now. put_rows (update_row id (put_status d now) w1.state.rows) w1.state)
            (store.notification_state_mutator id d w1)
        → Goal
    fired_moved s d w1 a n r (Accesses.broken _ w2 k p q) _ = absurd (ground arith)
    fired_moved s d w1 a n r (Accesses.missing _ w2 m p q) _ = absurd (ground arith)
    fired_moved s d w1 a n r (Accesses.found row w2 m p q) (Writes.broken e w3 k u v) =
        Fired.broken e w3 k (r ∙ u) (ground arith)
    fired_moved s d w1 a n r (Accesses.found row w2 m p q) (Writes.written now w3 u v) =
        let same_state : w1.state ≡ w.state = ground arith in
        Fired.moved row d now w3 m (ground arith) (r ∙ u) (rw same_state at v)

    fired_cases :
        Fires
          (store_machine store id limit count)
          t
          w
          (env.fire (store_machine store id limit count) t w)
        → Goal
    unfolding configure_state_machine
    fired_cases (Fires.unread e f w1 a r) = fired_unread e f w1 a r (contract.access id w)
    fired_cases (Fires.refused s f w1 a n r) = fired_refused s f w1 a n r (contract.access id w)
    fired_cases (Fires.moved s d w1 a n r) =
        fired_moved s d w1 a n r (contract.access id w) (contract.mutate id d w1)

    -- Over a backend that keeps the contract and with `stateless` as documented, firing a trigger
    -- changes nothing, as it must when the driver fails, the row is missing or the trigger is not
    -- permitted, or it changes the status and time of the row of that id, along a configured
    -- transition.
    pub fire-Fired : Goal
    fire-Fired = fired_cases (law (store_machine store id limit count) t w)
