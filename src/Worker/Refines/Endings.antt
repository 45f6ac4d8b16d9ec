-- ===== src/Worker/Refines/Endings.antt =====
-- What an attempt ends with, and the end of `Handle` from the sender's answer.
use mathlib.Core.Option
use skills.Prelude.{
  ℕ, ◌+◌, ◌≡◌, ◌≢◌, ◌↔◌, refl, ◌∙◌, Bool, true, Option, none, some, ◌∷◌, ltb, Bool-cases, inl, inr,
  same_refl,
}
use skills.Domain.Types.{
  Status, status, sending, delivered, failed, not_sent, status-to_int, Trigger, Notification,
  EmailMessage,
}
use skills.Domain.Errors.{Error, example_domain, is}
use skills.World.{Row, State, World}
use skills.Environment.{Env, Healthy, IsStateless}
use skills.Database.{by_id, update_row}
use skills.Database.Table.{IsTable, by_id-update_row, update_row-update_row, update_row_settles}
use skills.Store.{Store}
use skills.Store.Contract.{IsStore, put_status, put_columns, log_row}
use skills.Firing.{store_machine}
use skills.Worker.{send_trigger, conclude}
use skills.Worker.Conclude.{
  conclude_accepted, conclude_permanent, conclude_exhausted, conclude_retry, moved_state,
}
use skills.Worker.Attempt.{
  verdict, Plan, plan, retry_or_fail, attempted_row, announce, attempt_state,
}

-- The result and state that the attempt is meant to end with.
abbrev pub Ends : Bool → Row → EmailMessage → Plan → State → Option Error × World → Type 0
Ends b row msg p s r =
    (t : ℕ) × (r.1.state ≡ attempt_state b row msg p t s) × ((r.0 ≡ none) ↔ (p.done ≡ true))

module _ (env : Env) (store : Store) (law : IsStateless env) (contract : IsStore env store)
    (healthy : Healthy env) (b : Bool) (row : Row) (n : Notification) (w w1 : World) (t0 : ℕ)
    (msg : EmailMessage) where
  -- The state when the sender has been called.
  abbrev pub sent_state : State
  sent_state = record w.state {
    rows = update_row row.id (put_status sending t0) w.state.rows;
    log =
        log_row "notification" row.id (status row.status) sending (send_trigger (status row.status))
        ∷ w.state.log;
    broadcasts = announce b row.id sending w.state.broadcasts;
    mailbox = msg ∷ w.state.mailbox;
  }

  module _
      (shows : (n.id ≡ row.id)
        × (n.retry_count ≡ row.retry_count)
        × (n.retry_limit ≡ row.retry_limit))
      (is_table : IsTable w.state.rows) (found : by_id row.id w.state.rows ≡ some row)
      (before : w1.state ≡ sent_state) where
    found_sending : by_id n.id w1.state.rows ≡ some (put_status sending t0 row)
    found_sending = rw (
      before,
      shows.0,
      by_id-update_row row.id (put_status sending t0) (λ r. (refl, refl)) row.id w.state.rows,
      found,
      Option.map,
      same_refl row.id,
    )

    busy : status (put_status sending t0 row).status ≡ sending
    busy = status-to_int sending

    -- A move from `sending`, with the job done.
    Ends-moved :
        (d : Status) (t : Trigger) (r : Option Error × World)
        → (now : ℕ) × (r.0 ≡ none) × (r.1.state ≡ moved_state b n d t now w1.state)
        → Ends b row msg
            (record { final = d; trigger = t; count = row.retry_count; done = true })
            w.state
            r
    Ends-moved d t r (now, e, s) =
        let p : Plan = record { final = d; trigger = t; count = row.retry_count; done = true } in
        (
          now,
          s
              ∙ rw (
                before,
                shows.0,
                update_row_settles row.id (put_status d now) (put_status sending t0)
                    (attempted_row p now) row w.state.rows (λ v. (refl, refl)) is_table found refl,
              ),
          (λ _. refl, λ _. e),
        )

    Ends-retry :
        (r : Option Error × World)
        → (now later : ℕ) × (r.0 ≢ none)
          × (r.1.state ≡ (
              let s = moved_state b n not_sent Trigger.soft_fail now w1.state in
              let m = record n { status = not_sent; retry_count = n.retry_count + 1 } in
              record s { rows = update_row n.id (put_columns m later) s.rows }))
        → Ends b row msg (retry_or_fail true row.retry_count) w.state r
    Ends-retry r (now, later, e, s) =
        let m : Notification =
          record (record n { status = not_sent; retry_count = row.retry_count + 1 }) {
            retry_limit = row.retry_limit;
          } in
        (
          later,
          s
              ∙ rw (
                before,
                shows.0,
                shows.1,
                shows.2,
                update_row-update_row row.id (put_status not_sent now) (put_status sending t0)
                    (λ v. (refl, refl)) w.state.rows,
                update_row_settles row.id (put_columns m later)
                    (λ v. put_status not_sent now (put_status sending t0 v))
                    (attempted_row (retry_or_fail true row.retry_count) later) row w.state.rows
                    (λ v. (refl, refl)) is_table found refl,
              ),
          (λ c. absurd (e c), λ c. cc),
        )

    abbrev answered : Option Error → Option Error × World
    answered answer =
        conclude env store b (store_machine store n.id n.retry_limit n.retry_count) n answer w1

    -- Every answer of the sender.
    pub Ends-conclude :
        (answer : Option Error)
        → Ends b row msg
            (plan (verdict answer) row.retry_limit row.retry_count)
            w.state
            (answered answer)
    unfolding plan verdict
    Ends-conclude none =
        Ends-moved delivered Trigger.delivered (answered none)
          (conclude_accepted env store law contract healthy b n w1 _ found_sending busy)
    Ends-conclude (some x) = elim (Bool-cases (is x example_domain)) [
      | inl p ↦
          rw (p, verdict)
            (Ends-moved failed Trigger.failed (answered (some x))
              (conclude_permanent env store law contract healthy b n w1 _ found_sending busy x p))
      | inr p ↦ elim (Bool-cases (ltb row.retry_count row.retry_limit)) [
        | inl q ↦
            rw (p, verdict, q)
              (Ends-retry (answered (some x)) (
                conclude_retry env store law contract healthy b n w1 _ found_sending busy x p
                  (rw (shows.1, shows.2) q)))
        | inr q ↦
            rw (p, verdict, q)
              (Ends-moved failed Trigger.failed (answered (some x)) (
                conclude_exhausted env store law contract healthy b n w1 _ found_sending busy x p
                  (rw (shows.1, shows.2) q)))
      ]
    ]
