-- ===== src/Service/Seen.antt =====
-- What internal/infra/queue/worker.go says of a job through its broadcaster, to the last reception.
pub mod Clients
use mathlib.Core.List.{
  reverse, reverse-append, reverse-cons, append_assoc, append_cancel_left, map-append,
}
use skills.Prelude.{
  ℕ, zero, suc, ◌<◌, ◌≡◌, ◌⊎◌, refl, ap, sym, ◌∙◌, String, Bool, true, false, none, some, List, [],
  ◌∷◌, ◌++◌, map, Option, arith, Bool-cases, Option-cases, inl, inr, length, All,
}
use skills.Domain.Types.{
  status, status_string, pending, sending, not_sent, status-to_int, EmailMessage,
}
use skills.Domain.Errors.{Error, ok}
use skills.World.{Row, StateMessage, World}
use skills.Environment.{Env, EmailJobPayload, Healthy, IsStateless}
use skills.Database.{by_email}
use skills.Database.Table.{IsTable, update_row-IsTable}
use skills.Store.{Store}
use skills.Store.Contract.{IsStore}
use skills.Email.{render_notification}
use skills.Worker.{message, handle}
use skills.Worker.Attempt.{verdict, plan, attempted_row}
use skills.Worker.Refines.{data_of, handle-Plan}
use skills.Worker.Retries.{redeliver, attempted-found, plan_again}
use skills.Hub.{Hub, Event, run}
use skills.Hub.Members.{member}
use skills.Hub.Safe.{IsHub, IsFair}
use skills.Hub.Delivery.{delivered, broadcasts, run-delivered}

-- The row's id and status, as `broadcastState` says them.
abbrev pub state_of : Row → StateMessage
state_of row = record { id = row.id; state = status_string (status row.status) }

-- The last thing said since `old` is the state of the row that the email finds.
pub record Announced (email : String) (old : List StateMessage) (w : World) : Type 0 where
  pub row : Row
  pub found : by_email email w.state.rows ≡ some row
  pub news : List StateMessage
  pub said : w.state.broadcasts ≡ state_of row ∷ (news ++ old)

abbrev Announced-Announced :
    {email : String} {old : List StateMessage} {w w1 : World}
    → Announced email old w
    → Announced email w.state.broadcasts w1
    → Announced email old w1
Announced-Announced {email} {old} a b = record {
  row = b.row;
  found = b.found;
  news = b.news ++ (state_of a.row ∷ a.news);
  said =
      b.said
      ∙ ap (λ xs. state_of b.row ∷ (b.news ++ xs)) a.said
      ∙ ap (λ xs. state_of b.row ∷ xs) (sym (append_assoc b.news (state_of a.row ∷ a.news) old));
}

-- A run of the worker, and what another run finds if it ends in an error.
record Attempted (email : String) (w : World) (r : Option Error × World) : Type 0 where
  said : Announced email w.state.broadcasts r.1
  table : IsTable r.1.state.rows
  again : (e : Error) → r.0 ≡ some e → status said.row.status ≡ not_sent

module _ (env : Env) (store : Store) (law : IsStateless env) (contract : IsStore env store)
    (healthy : Healthy env) (payload : String) {job : EmailJobPayload} {html text : String}
    (parsed : env.unmarshal payload ≡ some job)
    (rendered : render_notification env (data_of job) ≡ ok (html, text)) where
  handle-Attempted :
      (w : World) (row : Row)
      → IsTable w.state.rows
      → by_email job.email w.state.rows ≡ some row
      → (status row.status ≡ pending) ⊎ (status row.status ≡ not_sent)
      → Attempted job.email w (handle env store true payload w)
  handle-Attempted w row table found ready =
      let (t, s, ends) =
        handle-Plan env store law contract healthy true payload w parsed table found ready
          rendered in
      let msg : EmailMessage = message job html text in
      let v = verdict (env.send (length w.state.mailbox) msg) in
      let p = plan v row.retry_limit row.retry_count in
      let w1 = (handle env store true payload w).1 in
      let started : StateMessage = record { id = row.id; state = status_string sending } in
      let said1 : w1.state.broadcasts
          ≡ state_of (attempted_row p t row) ∷ (started ∷ w.state.broadcasts) =
        rw (s, status-to_int p.final) refl in
      record {
        said = record {
          row = attempted_row p t row;
          found = rw s (attempted-found job.email row p t w.state.rows found);
          news = started ∷ [];
          said = said1;
        };
        table =
            rw s (
              update_row-IsTable row.id (attempted_row p t) (λ r. (refl, refl)) w.state.rows table);
        again = λ e failed. elim (Bool-cases p.done) [
          | inl d ↦
              absurd (let c : (handle env store true payload w).0 ≡ none = ends.1 d in ground arith)
          | inr d ↦ status-to_int p.final ∙ (plan_again v row.retry_limit row.retry_count d).0
        ];
      }

  redeliver-said :
      (k : ℕ) (w : World) (old : List StateMessage)
      → IsTable w.state.rows
      → (a : Announced job.email old w) → status a.row.status ≡ not_sent
      → Announced job.email old (redeliver env store true k payload w).1
  unfolding redeliver
  redeliver-said zero w old table a ready = a
  redeliver-said (suc k) w old table a ready =
      let b = handle-Attempted w a.row table a.found (inr ready) in
      elim (Option-cases (handle env store true payload w).0) [
        | inl e ↦ rw (e, redeliver) (Announced-Announced a b.said)
        | inr (x, e) ↦
            rw (e, redeliver)
              (redeliver-said k (handle env store true payload w).1 old b.table
                (Announced-Announced a b.said) (b.again x e))
      ]

  pub redeliver-Announced :
      (k : ℕ) (w : World) (row : Row)
      → IsTable w.state.rows
      → by_email job.email w.state.rows ≡ some row
      → (status row.status ≡ pending) ⊎ (status row.status ≡ not_sent)
      → Announced job.email w.state.broadcasts (redeliver env store true (suc k) payload w).1
  unfolding redeliver
  redeliver-Announced k w row table found ready =
      let b = handle-Attempted w row table found ready in
      elim (Option-cases (handle env store true payload w).0) [
        | inl e ↦ rw (e, redeliver) b.said
        | inr (x, e) ↦
            rw (e, redeliver)
              (redeliver-said k (handle env store true payload w).1 w.state.broadcasts b.table
                b.said (b.again x e))
      ]

module _ (encode : StateMessage → String) where
  -- A sequence of events that broadcasts what has been said since `old`.
  abbrev pub IsRelayed : List StateMessage → List StateMessage → List Event → Type 0
  IsRelayed old all events =
      map encode (reverse all) ≡ map encode (reverse old) ++ broadcasts events

  pub relayed_last :
      (old news : List StateMessage) (m : StateMessage) (events : List Event)
      → IsRelayed old (m ∷ (news ++ old)) events
      → broadcasts events ≡ map encode (reverse news) ++ (encode m ∷ [])
  relayed_last old news m events e = append_cancel_left (map encode (reverse old)) _ _ (
      sym e
      ∙ ap (map encode) (reverse-cons m (news ++ old))
      ∙ map-append encode (reverse (news ++ old)) (m ∷ [])
      ∙ ap (λ xs. map encode xs ++ (encode m ∷ [])) (reverse-append news old)
      ∙ ap (λ xs. xs ++ (encode m ∷ [])) (map-append encode (reverse old) (reverse news))
      ∙ append_assoc (map encode (reverse old)) (map encode (reverse news)) (encode m ∷ []))
