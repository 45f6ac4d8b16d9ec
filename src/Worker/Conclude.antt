-- ===== src/Worker/Conclude.antt =====
-- The worker from the sender's answer on, where the driver does not fail and the row is in
-- `sending`: one lemma for each way in which it can end.
use skills.Prelude.{
  ℕ, ◌+◌, ◌≡◌, ◌≢◌, refl, ◌∙◌, Bool, true, false, none, some, ◌∷◌, ltb, arith, if◌then◌else◌,
}
use skills.Domain.Types.{
  Status, status, sending, delivered, failed, not_sent, Trigger, Notification,
}
use skills.Domain.Errors.{Error, example_domain, is}
use skills.Domain.Machine.{StateMachine, lifecycle, permitted}
use skills.World.{Row, State, World}
use skills.Environment.{Env, Healthy, IsStateless}
use skills.Database.{by_id, update_row}
use skills.Store.{Store}
use skills.Store.Contract.{IsStore, put_status, put_columns, log_row}
use skills.Firing.{store_machine}
use skills.Worker.{broadcast_state, give_up, soft_fail, conclude}
use skills.Worker.Steps.{
  fire_healthy, fire_refused, log_healthy, update_healthy, fire_and_log_healthy,
}
use skills.Worker.Attempt.{announce}

-- The state after a move of the notification `n` from `sending`.
abbrev pub moved_state : Bool → Notification → Status → Trigger → ℕ → State → State
moved_state b n to t now s = record s {
  rows = update_row n.id (put_status to now) s.rows;
  log = log_row "notification" n.id sending to t ∷ s.log;
  broadcasts = announce b n.id to s.broadcasts;
}

permitted-delivered :
    (limit count : ℕ) (s : Status)
    → s ≡ sending
    → permitted (lifecycle limit count) s Trigger.delivered ≡ some delivered
unfolding permitted lifecycle
permitted-delivered limit count s e = rw e

permitted_failed :
    (limit count : ℕ) (s : Status)
    → s ≡ sending
    → permitted (lifecycle limit count) s Trigger.failed ≡ some failed
unfolding permitted lifecycle
permitted_failed limit count s e = rw e

permitted-soft_fail :
    (limit count : ℕ) (s : Status)
    → s ≡ sending
    → permitted (lifecycle limit count) s Trigger.soft_fail
      ≡ (if ltb count limit then some not_sent else none)
unfolding permitted lifecycle
permitted-soft_fail limit count s e = rw e (ground arith)

module _ (env : Env) (store : Store) (law : IsStateless env) (contract : IsStore env store)
    (healthy : Healthy env) (b : Bool) (n : Notification) where
  abbrev machine : StateMachine
  machine = store_machine store n.id n.retry_limit n.retry_count

  pub broadcast-state :
      (s : Status) (v : World)
      → (broadcast_state env store b n.id s v).state
        ≡ record v.state { broadcasts = announce b n.id s v.state.broadcasts }
  unfolding broadcast_state
  broadcast-state s v = ground arith

  module _ (w : World) (row : Row) (found : by_id n.id w.state.rows ≡ some row)
      (busy : status row.status ≡ sending) where
    give_up_healthy :
        (now : ℕ) × ((give_up env store b machine n w).0 ≡ none)
        × ((give_up env store b machine n w).1.state
            ≡ moved_state b n failed Trigger.failed now w.state)
    unfolding give_up
    give_up_healthy =
        let (now, w1, e, s) =
          fire_and_log_healthy env store law contract healthy b n sending failed Trigger.failed w
            row found (permitted_failed _ _ _ busy) in
        (now, refl, rw (e, give_up, broadcast-state failed w1, s))

    -- The sender accepted the message.
    pub conclude_accepted :
        (now : ℕ) × ((conclude env store b machine n none w).0 ≡ none)
        × ((conclude env store b machine n none w).1.state
            ≡ moved_state b n delivered Trigger.delivered now w.state)
    unfolding conclude
    conclude_accepted =
        let (now, w1, e, s) =
          fire_and_log_healthy env store law contract healthy b n sending delivered
            Trigger.delivered w row found (permitted-delivered _ _ _ busy) in
        (now, rw (e, conclude), rw (e, conclude, e, broadcast-state delivered w1, s))

    -- The sender refused for good.
    pub conclude_permanent :
        (x : Error)
        → is x example_domain ≡ true
        → (now : ℕ) × ((conclude env store b machine n (some x) w).0 ≡ none)
          × ((conclude env store b machine n (some x) w).1.state
              ≡ moved_state b n failed Trigger.failed now w.state)
    unfolding conclude
    conclude_permanent x p = rw (p, conclude) give_up_healthy

  module _ (w : World) (row : Row) (found : by_id n.id w.state.rows ≡ some row)
      (busy : status row.status ≡ sending) (x : Error) (p : is x example_domain ≡ false) where
    -- A transient failure with no retries left.
    pub conclude_exhausted :
        ltb n.retry_count n.retry_limit ≡ false
        → (now : ℕ) × ((conclude env store b machine n (some x) w).0 ≡ none)
          × ((conclude env store b machine n (some x) w).1.state
              ≡ moved_state b n failed Trigger.failed now w.state)
    unfolding conclude soft_fail
    conclude_exhausted q =
        let (f, w1, e, s) =
          fire_refused env store law contract healthy n.id n.retry_limit n.retry_count
            Trigger.soft_fail w row found (permitted-soft_fail _ _ _ busy ∙ rw q) in
        let (now, r, t) = give_up_healthy w1 row (rw s found) busy in
        (now, rw (p, conclude, e, soft_fail, e) r, rw (p, conclude, e, soft_fail, e, t, s))

    -- A transient failure with retries left.
    pub conclude_retry :
        ltb n.retry_count n.retry_limit ≡ true
        → (now later : ℕ) × ((conclude env store b machine n (some x) w).0 ≢ none)
          × ((conclude env store b machine n (some x) w).1.state ≡ (
              let s = moved_state b n not_sent Trigger.soft_fail now w.state in
              let m = record n { status = not_sent; retry_count = n.retry_count + 1 } in
              record s { rows = update_row n.id (put_columns m later) s.rows }))
    unfolding conclude soft_fail
    conclude_retry q =
        let (now, w1, e, s) =
          fire_healthy env store law contract healthy n.id n.retry_limit n.retry_count
            Trigger.soft_fail w row found not_sent (permitted-soft_fail _ _ _ busy ∙ rw q) in
        let w2 =
          (store.log_transition "notification" n.id sending not_sent Trigger.soft_fail w1).1 in
        let logged =
          log_healthy env store law contract healthy n.id sending not_sent Trigger.soft_fail w1 in
        let m = record n { status = not_sent; retry_count = n.retry_count + 1 } in
        let (later, m', w4, u, v) =
          update_healthy env store law contract healthy m
            (broadcast_state env store b n.id not_sent w2) in
        (
          now,
          later,
          rw (p, conclude, e, soft_fail) (λ c. cc),
          rw (p, conclude, e, soft_fail, e, u) (v ∙ rw (broadcast-state not_sent w2, logged, s)),
        )
