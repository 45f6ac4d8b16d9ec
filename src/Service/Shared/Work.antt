-- ===== src/Service/Shared/Work.antt =====
-- The worker over a store that keeps the invariant, whatever else happens between its statements.
use skills.Prelude.{
  ℕ, ◌+◌, ◌≡◌, refl, String, Bool, Option, none, some, arith, inl, inr, Bool-cases, Option-cases,
}
use skills.Domain.Types.{
  Status, to_int, Trigger, Notification, sending, delivered, failed, not_sent,
}
use skills.Domain.Errors.{Error, Result, ok, err, is, example_domain}
use skills.Domain.Machine.{StateMachine, lifecycle, permitted, configure_state_machine}
use skills.Domain.Lifecycle.{permitted_iff_edge}
use skills.World.{World}
use skills.Environment.{Env, Fires, IsStateless, EmailJobPayload}
use skills.Store.{Store}
use skills.Email.{render_notification}
use skills.Firing.{store_machine}
use skills.Worker.{
  send_trigger, broadcast_state, fire_and_log, give_up, soft_fail, conclude, deliver, process,
  handle,
}
use skills.Worker.Sound.{edge_target}
use skills.Worker.Changes.Answered.{soft_fail_guard}
use skills.Service.Shared.{Sound, Keeps}

module _ (env : Env) (store : Store) (law : IsStateless env) (keeps : Keeps store) where
  module _ (id : String) (limit count : ℕ) (t : Trigger) (w : World) where
    -- A trigger that is fired was permitted from the status that was read.
    pub record IsFired (r : Option Error × World) : Type 0 where
      pub sound : Sound r.1
      pub taken :
          r.0 ≡ none
          → (s : Status) × (d : Status) × (permitted (lifecycle limit count) s t ≡ some d)

    pub fire-IsFired : Sound w → IsFired (env.fire (store_machine store id limit count) t w)
    unfolding configure_state_machine
    fire-IsFired i = go (law (store_machine store id limit count) t w)
      where
        read : (r : Result Status × World) → store.notification_state_accessor id w ≡ r → Sound r.1
        read r e = rw (← e) (keeps.access id w i)

        go :
            Fires
              (store_machine store id limit count)
              t
              w
              (env.fire (store_machine store id limit count) t w)
            → IsFired (env.fire (store_machine store id limit count) t w)
        go (Fires.unread e f w1 a r) = rw r (record { sound = read (err e, w1) a; taken = λ p. cc })
        go (Fires.refused s f w1 a p r) =
            rw r (record { sound = read (ok s, w1) a; taken = λ p. cc })
        go (Fires.moved s d w1 a p r) = rw r (record {
          sound =
              keeps.mutate id d w1 (edge_target ((permitted_iff_edge limit count s d t).0 p))
                (read (ok s, w1) a);
          taken = λ _. (s, d, p);
        })

  module _ (b : Bool) where
    broadcast_state-Sound :
        (id : String) (s : Status) (w : World)
        → Sound w
        → Sound (broadcast_state env store b id s w)
    unfolding broadcast_state
    broadcast_state-Sound id s w i = elim (Bool-cases b) [
      | inl p ↦ rw (p, broadcast_state) (record { table = i.table; rows = i.rows })
      | inr p ↦ rw (p, broadcast_state) i
    ]

    fire_and_log-Sound :
        (id : String) (limit count : ℕ) (n : Notification) (from to : Status) (t : Trigger)
        (w : World)
        → Sound w
        → Sound (fire_and_log env store b (store_machine store id limit count) n from t to w).1
    unfolding fire_and_log
    fire_and_log-Sound id limit count n from to t w i =
        go _ (fire-IsFired id limit count t w i) refl
      where
        go :
            (r : Option Error × World)
            → IsFired id limit count t w r
            → env.fire (store_machine store id limit count) t w ≡ r
            → Sound (fire_and_log env store b (store_machine store id limit count) n from t to w).1
        go (some e, w1) f p = rw (p, fire_and_log, p) f.sound
        go (none, w1) f p =
            rw (p, fire_and_log, p) (keeps.log "notification" n.id from to t w1 f.sound)

    -- From the loaded notification `n` on.
    module _ (n : Notification) where
      abbrev machine : StateMachine
      machine = store_machine store n.id n.retry_limit n.retry_count

      give_up-Sound : (w : World) → Sound w → Sound (give_up env store b machine n w).1
      unfolding give_up
      give_up-Sound w i =
          broadcast_state-Sound n.id failed _ (
            fire_and_log-Sound n.id n.retry_limit n.retry_count n sending failed Trigger.failed w i)

      soft_fail-Sound :
          (e : Error) (w : World) → Sound w → Sound (soft_fail env store b machine n e w).1
      unfolding soft_fail to_int
      soft_fail-Sound e w i =
          go _ (fire-IsFired n.id n.retry_limit n.retry_count Trigger.soft_fail w i) refl
        where
          go :
              (r : Option Error × World)
              → IsFired n.id n.retry_limit n.retry_count Trigger.soft_fail w r
              → env.fire machine Trigger.soft_fail w ≡ r
              → Sound (soft_fail env store b machine n e w).1
          go (some x, w1) f p = rw (p, soft_fail, p) (give_up-Sound w1 f.sound)
          go (none, w1) f p =
              let (s, d, q) = f.taken refl in
              let below = soft_fail_guard n.retry_limit n.retry_count s d q in
              rw (p, soft_fail, p)
                (keeps.update (record n { status = not_sent; retry_count = n.retry_count + 1 }) _
                  (omega arith, omega arith)
                  (broadcast_state-Sound n.id not_sent _
                    (keeps.log "notification" n.id sending not_sent Trigger.soft_fail w1 f.sound)))

      conclude-Sound :
          (answer : Option Error) (w : World)
          → Sound w
          → Sound (conclude env store b machine n answer w).1
      unfolding conclude
      conclude-Sound (some e) w i = elim (Bool-cases (is e example_domain)) [
        | inl p ↦ rw (conclude, p) (give_up-Sound w i)
        | inr p ↦ rw (conclude, p) (soft_fail-Sound e w i)
      ]
      conclude-Sound none w i = go _ refl (
          fire_and_log-Sound n.id n.retry_limit n.retry_count n sending delivered Trigger.delivered
            w i)
        where
          go :
              (r : Option Error × World)
              → fire_and_log env store b machine n sending Trigger.delivered delivered w ≡ r
              → Sound (fire_and_log env store b machine n sending Trigger.delivered delivered w).1
              → Sound (conclude env store b machine n none w).1
          go (some x, w1) p j = rw (p, conclude, p) (rw p at j)
          go (none, w1) p j =
              rw (p, conclude, p) (broadcast_state-Sound n.id delivered w1 (rw p at j))

      deliver-Sound :
          (job : EmailJobPayload) (w : World)
          → Sound w
          → Sound (deliver env store b job machine n w).1
      unfolding deliver
      deliver-Sound job w i = go _ refl
        where
          go :
              (r : Result (String × String))
              → render_notification env (record {
                email = job.email;
                id = job.notification_id;
                request_id = job.request_id;
              })
                ≡ r
              → Sound (deliver env store b job machine n w).1
          go (err e) r = rw (deliver, r) i
          go (ok (html, text)) r =
              rw (deliver, r) (conclude-Sound _ _ (record { table = i.table; rows = i.rows }))

    process-Sound :
        (job : EmailJobPayload) (n : Notification) (w : World)
        → Sound w
        → Sound (process env store b job n w).1
    unfolding process
    process-Sound job n w i = go _ refl (
        fire_and_log-Sound n.id n.retry_limit n.retry_count n n.status sending
          (send_trigger n.status) w i)
      where
        go :
            (r : Option Error × World)
            → fire_and_log env store b (machine n) n n.status (send_trigger n.status) sending w ≡ r
            → Sound
                (fire_and_log env store b
                  (machine n)
                  n
                  n.status
                  (send_trigger n.status)
                  sending
                  w).1
            → Sound (process env store b job n w).1
        go (some e, w1) p j = rw (p, process, p) (rw p at j)
        go (none, w1) p j =
            rw (p, process, p)
              (deliver-Sound (record n { status = sending }) job _
                (broadcast_state-Sound n.id sending w1 (rw p at j)))

    pub handle-Sound :
        (payload : String) (w : World) → Sound w → Sound (handle env store b payload w).1
    unfolding handle
    handle-Sound payload w i = elim (Option-cases (env.unmarshal payload)) [
      | inl p ↦ rw (p, handle) i
      | inr (job, p) ↦ go job p _ refl (keeps.get job.email w i)
    ]
      where
        go :
            (job : EmailJobPayload)
            → env.unmarshal payload ≡ some job
            → (r : Result Notification × World) → store.get_notification_by_email job.email w ≡ r
            → Sound (store.get_notification_by_email job.email w).1
            → Sound (handle env store b payload w).1
        go job p (err e, w1) r j = rw (p, handle, r, r) (rw r at j)
        go job p (ok n, w1) r j = rw (p, handle, r, r) (process-Sound job n w1 (rw r at j))
