-- ===== src/Service/Runs.antt =====
-- Any sequence of requests and receptions of jobs, with any failures.
use skills.Prelude.{ℕ, String, Bool, ◌≡◌, refl, Option, none, some, List, [], ◌∷◌, arith, inl, inr}
use skills.Domain.Types.{pending, to_int}
use skills.World.{Row, State, World}
use skills.Environment.{Env, IsStateless}
use skills.Database.{update_row}
use skills.Database.Table.{update_row-IsTable}
use skills.Store.{Store}
use skills.Store.Contract.{Stores, IsStore, put_status}
use skills.Worker.{handle}
use skills.Worker.Sound.{IsRow, IsSound, update_row-All, handle-IsSound}
use skills.Api.Response.{Response}
use skills.Api.Notify.{new_notification, handle_notify}
use skills.Api.Notify.Accepts.{Accepts, handle_notify-Accepts}
use skills.Api.Reset.{handle_reset}
use skills.Api.Reset.Clears.{Clears, reset_row}
use skills.Api.Reset.Resets.{Resets, handle_reset-Resets}

-- A request with its request id and what the decoder made of its body, or the reception of a job.
pub data Call : Type 0 where
  notify reset : String → Option String → Call
  receive : String → Call

module _ (env : Env) (store : Store) (b : Bool) where
  unfoldable pub perform : Call → World → World
  perform (Call.notify request_id email) w = (handle_notify env store request_id email w).1
  perform (Call.reset request_id email) w = (handle_reset env store request_id email w).1
  perform (Call.receive payload) w = (handle env store b payload w).1

  unfoldable pub serve : List Call → World → World
  serve [] w = w
  serve (c ∷ calls) w = serve calls (perform c w)

Stores-IsRow : {id email : String} (row : Row) → Stores row (new_notification id email) → IsRow row
unfolding to_int
Stores-IsRow row s =
    (let x = s.status in omega arith, let x = s.retry_count in let y = s.retry_limit in omega arith)

module _ (s : State) (i : IsSound s) (id : String) where
  put_status-IsSound :
      (t : ℕ) (s1 : State) → s1.rows ≡ update_row id (put_status pending t) s.rows → IsSound s1
  unfolding to_int
  put_status-IsSound t s1 q = record {
    table = rw q (update_row-IsTable id (put_status pending t) (λ r. (refl, refl)) s.rows i.table);
    rows =
        rw q (update_row-All id (put_status pending t) s.rows (λ r h. (omega arith, h.1)) i.rows);
  }

  reset_row-IsSound :
      (t : ℕ) (s1 : State) → s1.rows ≡ update_row id (reset_row t) s.rows → IsSound s1
  unfolding to_int
  reset_row-IsSound t s1 q = record {
    table = rw q (update_row-IsTable id (reset_row t) (λ r. (refl, refl)) s.rows i.table);
    rows = rw q (update_row-All id (reset_row t) s.rows (λ r h. (omega arith, omega arith)) i.rows);
  }

module _ (env : Env) (store : Store) (law : IsStateless env) (contract : IsStore env store)
    (b : Bool) where
  notify-IsSound :
      (request_id : String) (email : Option String) (w : World)
      → IsSound w.state
      → IsSound (handle_notify env store request_id email w).1.state
  unfolding handle_notify
  notify-IsSound request_id none w i = i
  notify-IsSound request_id (some email) w i =
      go _ (handle_notify-Accepts env store contract request_id email w)
    where
      go : (r : Response × World) → Accepts env request_id email w r → IsSound r.1.state
      go r (Accepts.invalid e v q) = rw q i
      go r (Accepts.taken row a s c e q) = rw q i
      go r (Accepts.broken a k e q) = rw q i
      go r (Accepts.lost row a k s c e q) =
          rw q (record { table = (c, i.table); rows = (Stores-IsRow row s, i.rows) })
      go r (Accepts.accepted row a s c e q) =
          rw q (record { table = (c, i.table); rows = (Stores-IsRow row s, i.rows) })

  reset-IsSound :
      (request_id : String) (email : Option String) (w : World)
      → IsSound w.state
      → IsSound (handle_reset env store request_id email w).1.state
  unfolding handle_reset
  reset-IsSound request_id none w i = i
  reset-IsSound request_id (some email) w i =
      go _ (handle_reset-Resets env store law contract request_id email w i.table)
    where
      go : (r : Response × World) → Resets env request_id email w r → IsSound r.1.state
      go r (Resets.missing m e q) = rw q i
      go r (Resets.broken k e q) = rw q i
      go r (Resets.held row m h e q) = rw q i
      go r (Resets.refused row m p e q) = rw q i
      go r (Resets.cleared row m h (Clears.half f t log k (inl p) l e q)) =
          put_status-IsSound w.state i row.id t r.1.state (rw (q, p))
      go r (Resets.cleared row m h (Clears.half f t log k (inr p) l e q)) =
          reset_row-IsSound w.state i row.id t r.1.state (rw (q, p))
      go r (Resets.cleared row m h (Clears.done t log l e q)) =
          reset_row-IsSound w.state i row.id t r.1.state (rw q)

  pub perform-IsSound :
      (c : Call) (w : World) → IsSound w.state → IsSound (perform env store b c w).state
  unfolding perform
  perform-IsSound (Call.notify request_id email) w i = notify-IsSound request_id email w i
  perform-IsSound (Call.reset request_id email) w i = reset-IsSound request_id email w i
  perform-IsSound (Call.receive payload) w i = handle-IsSound env store law contract b payload w i

  -- Over a backend that keeps the contract and with `stateless` as documented, any sequence of
  -- notify requests, reset requests and receptions of any payloads, with any failures of the
  -- driver, the templates and the sender, keeps the invariant of the table: ids and emails are
  -- unique, each status is one of the five, and no retry count is above its limit.
  pub serve-IsSound :
      (calls : List Call) (w : World) → IsSound w.state → IsSound (serve env store b calls w).state
  unfolding serve
  serve-IsSound [] w i = i
  serve-IsSound (c ∷ calls) w i =
      serve-IsSound calls (perform env store b c w) (perform-IsSound c w i)
