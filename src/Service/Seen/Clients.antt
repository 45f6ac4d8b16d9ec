-- ===== src/Service/Seen/Clients.antt =====
-- What a client of internal/infra/ws/hub.go sees of a job of internal/infra/queue/worker.go.
use mathlib.Core.List.{reverse, append_assoc}
use skills.Prelude.{
  ℕ, suc, ◌<◌, ◌≡◌, ◌⊎◌, ap, sym, ◌∙◌, String, true, false, some, List, [], ◌∷◌, ◌++◌, map, inl,
  inr, All,
}
use skills.Domain.Types.{status, pending, not_sent}
use skills.Domain.Errors.{ok}
use skills.World.{Row, StateMessage, World}
use skills.Environment.{Env, EmailJobPayload, Healthy, IsStateless}
use skills.Database.{by_email}
use skills.Database.Table.{IsTable}
use skills.Store.{Store}
use skills.Store.Contract.{IsStore}
use skills.Email.{render_notification}
use skills.Worker.Refines.{data_of}
use skills.Worker.Retries.{redeliver}
use skills.Hub.{Hub, Event, run}
use skills.Hub.Members.{member}
use skills.Hub.Safe.{IsHub, IsFair}
use skills.Hub.Delivery.{delivered, broadcasts, run-delivered}
use skills.Service.Seen.{state_of, IsRelayed, redeliver-Announced, relayed_last}

-- The connection is registered no more, or what it got and gets ends with the state of the row.
pub record Sees (encode : StateMessage → String) (email : String) (w : World) (c : ℕ)
    (events : List Event) (h : Hub) : Type 0 where
  pub hub : Hub
  pub runs : run events h ≡ some hub
  pub last :
      (member c hub.clients ≡ false)
      ⊎ ((row : Row) × (by_email email w.state.rows ≡ some row)
          × (frames : List String) × (delivered c events h ++ (hub.channels c).buffer
              ≡ frames ++ (encode (state_of row) ∷ [])))

module _ (env : Env) (store : Store) (law : IsStateless env) (contract : IsStore env store)
    (healthy : Healthy env) (payload : String) {job : EmailJobPayload} {html text : String}
    (encode : StateMessage → String) (c : ℕ) (events : List Event) (h : Hub) where
  -- Over a backend that keeps the contract and with `stateless` as documented, with a driver that
  -- does not fail, templates that render and a table whose ids and emails are unique, a job of a
  -- notification that is pending or waits for a retry is received any number of times, at least
  -- once, while its run ends in an error, whatever the sender answers. A hub that keeps its
  -- invariant takes up events, each broadcast over every client once, whose broadcasts are the
  -- messages that the runs sent, in order. Then the hub does not panic, and a connection that
  -- existed before is not registered at the end, or the last message written to it or waiting in
  -- its channel is the id of the notification with the status that its row then has.
  pub redeliver-Sees :
      (k : ℕ) (w : World) (row : Row)
      → env.unmarshal payload ≡ some job
      → render_notification env (data_of job) ≡ ok (html, text)
      → IsTable w.state.rows
      → by_email job.email w.state.rows ≡ some row
      → (status row.status ≡ pending) ⊎ (status row.status ≡ not_sent)
      → IsHub h
      → c < h.next
      → All IsFair events
      → IsRelayed encode w.state.broadcasts
          (redeliver env store true (suc k) payload w).1.state.broadcasts
          events
      → Sees encode job.email (redeliver env store true (suc k) payload w).1 c events h
  redeliver-Sees k w row parsed rendered table found ready hub known fair relayed =
      let a =
        redeliver-Announced env store law contract healthy payload parsed rendered k w row table
          found ready in
      let said =
        relayed_last encode w.state.broadcasts a.news (state_of a.row) events
          (rw a.said at relayed) in
      let (h1, r, kept) = run-delivered c events h hub known fair in
      let frames = (h.channels c).buffer ++ map encode (reverse a.news) in
      let last =
        λ (e : delivered c events h ++ (h1.channels c).buffer
            ≡ (h.channels c).buffer ++ broadcasts events).
          e
          ∙ ap (λ xs. (h.channels c).buffer ++ xs) said
          ∙ sym (
              append_assoc (h.channels c).buffer (map encode (reverse a.news))
                (encode (state_of a.row) ∷ [])) in
      record {
        hub = h1;
        runs = r;
        last = elim kept [ inl m ↦ inl m | inr (m, e) ↦ inr (a.row, a.found, frames, last e) ];
      }
