-- ===== src/Worker/Changes.antt =====
-- Everything that the worker can do to the service, with any failures of the driver, the templates
-- and the sender.
pub mod Answered
pub mod Handled
use skills.Prelude.{
  ℕ, ◌+◌, ◌<◌, ◌≡◌, ◌⊎◌, refl, ◌∙◌, String, Bool, true, false, Option, none, some, ◌∷◌, ltb, arith,
  Bool-cases, Option-cases, inl, inr, if◌then◌else◌,
}
use skills.Domain.Types.{
  Status, status, sending, delivered, failed, not_sent, to_int, Trigger, Notification, EmailMessage,
}
use skills.Domain.Errors.{Error, Result, ok, err, is, example_domain}
use skills.Domain.Machine.{lifecycle, permitted}
use skills.Domain.Lifecycle.{Edge, permitted_iff_edge}
use skills.World.{Row, State, StateMessage, World}
use skills.Environment.{Env, EmailJobPayload, IsStateless}
use skills.Database.{by_id, update_row}
use skills.Store.{Store}
use skills.Store.Contract.{Updates, Writes, IsStore, put_status, put_columns, put_rows, log_row}
use skills.Firing.{store_machine, Fired, fire-Fired}
use skills.Worker.{send_trigger, broadcast_state, fire_and_log, give_up, soft_fail, conclude}

-- One change for the notification `id`, whose limit and count the worker has read.
pub data Change (id : String) (limit count : ℕ) (s s1 : State) : Type 0 where
  moved :
      (row : Row) (t : Trigger) (d : Status) (now : ℕ)
      → by_id id s.rows ≡ some row
      → Edge limit count (status row.status) t d
      → s1 ≡ put_rows (update_row id (put_status d now) s.rows) s
      → Change id limit count s s1
  logged :
      (from to : Status) (t : Trigger)
      → Edge limit count from t to
      → s1 ≡ record s { log = log_row "notification" id from to t ∷ s.log }
      → Change id limit count s s1
  announced :
      (message : StateMessage)
      → s1 ≡ record s { broadcasts = message ∷ s.broadcasts }
      → Change id limit count s s1
  mailed :
      (msg : EmailMessage)
      → s1 ≡ record s { mailbox = msg ∷ s.mailbox }
      → Change id limit count s s1
  counted :
      (n : Notification) (now : ℕ)
      → n.status ≡ not_sent
      → n.retry_count ≡ count + 1
      → n.retry_limit ≡ limit
      → count < limit
      → s1 ≡ put_rows (update_row id (put_columns n now) s.rows) s
      → Change id limit count s s1

pub data Changes (id : String) (limit count : ℕ) (s : State) : State → Type 0 where
  done : {s1 : State} → s1 ≡ s → Changes id limit count s s1
  change :
      (s2 : State) {s1 : State}
      → Changes id limit count s s2
      → Change id limit count s2 s1
      → Changes id limit count s s1

module _ {id : String} {limit count : ℕ} {s : State} where
  -- A further change, and a further equation.
  pub Changes-same :
      {s1 s2 : State} → Changes id limit count s s1 → s2 ≡ s1 → Changes id limit count s s2
  Changes-same c e = rw e c

module _ (env : Env) (store : Store) (law : IsStateless env) (contract : IsStore env store)
    (b : Bool) (n : Notification) (s : State) where
  abbrev pub Reaches : World → Type 0
  Reaches w = Changes n.id n.retry_limit n.retry_count s w.state

  pub broadcast-Changes :
      (x : Status) (w : World) → Reaches w → Reaches (broadcast_state env store b n.id x w)
  unfolding broadcast_state
  broadcast-Changes x w c = elim (Bool-cases b) [
    | inl p ↦ rw p (Changes.change w.state c (Change.announced _ refl))
    | inr p ↦ rw p c
  ]

  pub log-Changes :
      (from to : Status) (t : Trigger) (w : World)
      → Reaches w
      → Edge n.retry_limit n.retry_count from t to
      → Reaches (store.log_transition "notification" n.id from to t w).1
  log-Changes from to t w c e = go (contract.log "notification" n.id from to t w)
    where
      go :
          Writes env w
            (λ _. record w.state { log = log_row "notification" n.id from to t ∷ w.state.log })
            (store.log_transition "notification" n.id from to t w)
          → Reaches (store.log_transition "notification" n.id from to t w).1
      go (Writes.broken x w1 k r q) = rw r (Changes-same c q)
      go (Writes.written _ w1 r q) = rw r (Changes.change w.state c (Change.logged from to t e q))

  -- Where a fired trigger is on the way from `from`, firing and logging it is one or two changes.
  pub fire-Changes :
      (t : Trigger) (w : World)
      → Reaches w
      → Reaches (env.fire (store_machine store n.id n.retry_limit n.retry_count) t w).1
  fire-Changes t w c = go (fire-Fired env store law contract n.id n.retry_limit n.retry_count t w)
    where
      go :
          Fired env n.id n.retry_limit n.retry_count t w
            (env.fire (store_machine store n.id n.retry_limit n.retry_count) t w)
          → Reaches (env.fire (store_machine store n.id n.retry_limit n.retry_count) t w).1
      go (Fired.broken e w1 k r q) = rw r (Changes-same c q)
      go (Fired.missing e w1 m r q) = rw r (Changes-same c q)
      go (Fired.refused row e w1 m p r q) = rw r (Changes-same c q)
      go (Fired.moved row d now w1 m p r q) = rw r (
          Changes.change w.state c (
            Change.moved row t d now m
              ((permitted_iff_edge n.retry_limit n.retry_count (status row.status) d t).0 p) q))

  -- A trigger that fires was permitted in the status of the row.
  pub fired-permitted :
      (t : Trigger) (w w1 : World)
      → env.fire (store_machine store n.id n.retry_limit n.retry_count) t w ≡ (none, w1)
      → (row : Row) × (d : Status) × (by_id n.id w.state.rows ≡ some row)
        × (permitted (lifecycle n.retry_limit n.retry_count) (status row.status) t ≡ some d)
  fired-permitted t w w1 f =
      go (fire-Fired env store law contract n.id n.retry_limit n.retry_count t w)
    where
      go :
          Fired env n.id n.retry_limit n.retry_count t w
            (env.fire (store_machine store n.id n.retry_limit n.retry_count) t w)
          → (row : Row) × (d : Status) × (by_id n.id w.state.rows ≡ some row)
            × (permitted (lifecycle n.retry_limit n.retry_count) (status row.status) t ≡ some d)
      go (Fired.broken e w2 k r q) = absurd (ground arith)
      go (Fired.missing e w2 m r q) = absurd (ground arith)
      go (Fired.refused row e w2 m p r q) = absurd (ground arith)
      go (Fired.moved row d now w2 m p r q) = (row, d, m, p)

  pub fire_and_log-Changes :
      (from to : Status) (t : Trigger) (w : World)
      → Reaches w
      → ((row : Row) (d : Status)
          → by_id n.id w.state.rows ≡ some row
          → permitted (lifecycle n.retry_limit n.retry_count) (status row.status) t ≡ some d
          → Edge n.retry_limit n.retry_count from t to)
      → Reaches
          (fire_and_log env store b
            (store_machine store n.id n.retry_limit n.retry_count)
            n
            from
            t
            to
            w).1
  unfolding fire_and_log
  fire_and_log-Changes from to t w c h = go _ refl
    where
      go :
          (r : Option Error × World)
          → env.fire (store_machine store n.id n.retry_limit n.retry_count) t w ≡ r
          → Reaches
              (fire_and_log env store b
                (store_machine store n.id n.retry_limit n.retry_count)
                n
                from
                t
                to
                w).1
      go (some e, w1) r = rw (r, fire_and_log, r) (let x = fire-Changes t w c in rw r at x)
      go (none, w1) r =
          let (row, d, m, p) = fired-permitted t w w1 r in
          rw (r, fire_and_log, r)
            (log-Changes from to t w1 (let x = fire-Changes t w c in rw r at x) (h row d m p))

  pub give_up-Changes :
      (w : World)
      → Reaches w
      → Reaches (give_up env store b (store_machine store n.id n.retry_limit n.retry_count) n w).1
  unfolding give_up
  give_up-Changes w c =
      broadcast-Changes failed _
        (fire_and_log-Changes sending failed Trigger.failed w c (λ _ _ _ _. Edge.fail))
