-- ===== src/Worker/Trail.antt =====
-- The audit log: its entries for a notification lead from `pending` to the notification's status.
use skills.Prelude.{
  ℕ, zero, suc, ◌≡◌, ◌⊎◌, refl, ap, sym, subst, ◌∙◌, String, Bool, true, false, none, some, List,
  [], ◌∷◌, arith, Bool-cases, Option-cases, inl, inr, length, same, same_refl,
}
use skills.Domain.Types.{
  Status, status, to_int, status_string, Trigger, pending, sending, not_sent, status-to_int,
  EmailMessage,
}
use skills.Domain.Errors.{ok}
use skills.World.{Row, LogRow, World}
use skills.Environment.{Env, EmailJobPayload, Healthy, IsStateless}
use skills.Database.{by_email}
use skills.Database.Table.{IsTable, update_row-IsTable}
use skills.Store.{Store}
use skills.Store.Contract.{IsStore, log_row}
use skills.Email.{render_notification}
use skills.Worker.{message, handle, send_trigger}
use skills.Worker.Attempt.{verdict, plan, attempted_row}
use skills.Worker.Refines.{data_of, handle-Plan}
use skills.Worker.Retries.{redeliver, attempted-found, plan_again}

abbrev pub Either : Bool → Type 0 → Type 0 → Type 0
Either true own other = own
Either false own other = other

-- From the newest entry back: each leads to the state that the one after it left, and the oldest
-- leaves `pending`. Entries of other notifications stand in between.
abbrev pub Trail : String → String → List LogRow → Type 0
Trail id s [] = s ≡ "pending"
Trail id s (e ∷ log) =
    Either (same e.entity_id id) ((e.to_state ≡ s) × Trail id e.from_state log) (Trail id s log)

-- What holds of the log when the receptions `r` of a job for the row `id` from the world `w` are
-- over.
pub record Trailed (email id : String) (w : World) (r : ℕ × World) : Type 0 where
  pub row : Row
  pub found : by_email email r.1.state.rows ≡ some row
  pub same_id : row.id ≡ id
  pub own : Trail id (status_string (status row.status)) r.1.state.log
  pub others : (j s : String) → same id j ≡ false → Trail j s w.state.log → Trail j s r.1.state.log

-- An entry of the notification, and an entry of another one.
module _ (e : LogRow) (log : List LogRow) (id s : String) where
  Trail-own :
      same e.entity_id id ≡ true → e.to_state ≡ s → Trail id e.from_state log → Trail id s (e ∷ log)
  Trail-own h p t =
      subst (λ b. Either b ((e.to_state ≡ s) × Trail id e.from_state log) (Trail id s log)) (sym h)
        (p, t)

  Trail-other : same e.entity_id id ≡ false → Trail id s log → Trail id s (e ∷ log)
  Trail-other h t =
      subst (λ b. Either b ((e.to_state ≡ s) × Trail id e.from_state log) (Trail id s log)) (sym h)
        t

-- The two entries of an attempt.
module _ (id : String) (start final : Status) (t u : Trigger) (log : List LogRow) where
  abbrev attempt_log : List LogRow
  attempt_log =
      log_row "notification" id sending final t ∷ log_row "notification" id start sending u ∷ log

  Trail-attempt : Trail id (status_string start) log → Trail id (status_string final) attempt_log
  Trail-attempt h =
      let older = log_row "notification" id start sending u in
      Trail-own (log_row "notification" id sending final t) (older ∷ log) id (status_string final)
        (same_refl id) refl (Trail-own older log id (status_string sending) (same_refl id) refl h)

  Trail-attempt_other : (j s : String) → same id j ≡ false → Trail j s log → Trail j s attempt_log
  Trail-attempt_other j s d h =
      let older = log_row "notification" id start sending u in
      Trail-other (log_row "notification" id sending final t) (older ∷ log) j s d
        (Trail-other older log j s d h)

module _ (env : Env) (store : Store) (law : IsStateless env) (contract : IsStore env store)
    (healthy : Healthy env) (b : Bool) (payload : String) {job : EmailJobPayload}
    {html text : String} where
  -- Over a backend that keeps the contract and with `stateless` as documented, with a driver that
  -- does not fail, templates that render and a table whose ids and emails are unique, where the
  -- audit entries of a job's notification lead from `pending` to its status, which is pending or
  -- waits for a retry: they do so again, with the same row, however often the job is received
  -- while its run ends in an error and whatever the sender answers; and what the entries of any
  -- other notification lead to stays.
  pub redeliver-Trailed :
      (k : ℕ) (w : World) (row : Row)
      → env.unmarshal payload ≡ some job
      → render_notification env (data_of job) ≡ ok (html, text)
      → IsTable w.state.rows
      → by_email job.email w.state.rows ≡ some row
      → (status row.status ≡ pending) ⊎ (status row.status ≡ not_sent)
      → Trail row.id (status_string (status row.status)) w.state.log
      → Trailed job.email row.id w (redeliver env store b k payload w)
  unfolding redeliver
  redeliver-Trailed zero w row parsed rendered table found ready trail = record {
    row = row;
    found = found;
    same_id = refl;
    own = trail;
    others = λ j s d t. t;
  }
  redeliver-Trailed (suc k) w row parsed rendered table found ready trail =
      let (t, s, ends) =
        handle-Plan env store law contract healthy b payload w parsed table found ready rendered in
      let msg : EmailMessage = message job html text in
      let v = verdict (env.send (length w.state.mailbox) msg) in
      let p = plan v row.retry_limit row.retry_count in
      let w1 = (handle env store b payload w).1 in
      let found1 : by_email job.email w1.state.rows ≡ some (attempted_row p t row) =
        rw s (attempted-found job.email row p t w.state.rows found) in
      let table1 : IsTable w1.state.rows =
        rw s
          (update_row-IsTable row.id (attempted_row p t) (λ r. (refl, refl)) w.state.rows table) in
      let log1 : w1.state.log
          ≡ attempt_log row.id (status row.status) p.final p.trigger
              (send_trigger (status row.status)) w.state.log =
        ap (λ x. x.log) s in
      let own1 : Trail row.id (status_string (status (to_int p.final))) w1.state.log =
        rw (status-to_int p.final, log1)
          (Trail-attempt row.id (status row.status) p.final p.trigger
            (send_trigger (status row.status)) w.state.log trail) in
      let others1 = λ (j x : String) (d : same row.id j ≡ false) (q : Trail j x w.state.log).
        subst (Trail j x) (sym log1) (
          Trail-attempt_other row.id (status row.status) p.final p.trigger
            (send_trigger (status row.status)) w.state.log j x d q) in
      elim (Option-cases (handle env store b payload w).0) [
        | inl e ↦
            rw (e, redeliver)
              (record {
                row = attempted_row p t row;
                found = found1;
                same_id = refl;
                own = own1;
                others = others1;
              })
        | inr (x, e) ↦ elim (Bool-cases p.done) [
          | inl d ↦
              absurd (let c : (handle env store b payload w).0 ≡ none = ends.1 d in ground arith)
          | inr d ↦
              let (is_not_sent, counted, below) = plan_again v row.retry_limit row.retry_count d in
              let rest =
                redeliver-Trailed k w1 (attempted_row p t row) parsed rendered table1 found1
                  (inr (status-to_int p.final ∙ is_not_sent)) own1 in
              rw (e, redeliver)
                (record {
                  row = rest.row;
                  found = rest.found;
                  same_id = rest.same_id;
                  own = rest.own;
                  others = λ j y f q. rest.others j y f (others1 j y f q);
                })
        ]
      ]
