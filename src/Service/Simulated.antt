-- ===== src/Service/Simulated.antt =====
-- The worker of a QA build: the sender of internal/infra/email/sender_qa.go under
-- internal/infra/queue/worker.go.
use skills.Prelude.{
  ℕ, suc, ◌+◌, ◌≤◌, ◌<◌, ◌*◌, String, Bool, true, false, ◌≡◌, ◌⊎◌, ◌∙◌, refl, Option, none, some,
  List, length, ap, Bool-cases, inl, inr,
}
use skills.Prelude.Suffix.{has_suffix}
use skills.Domain.Types.{Status, status, pending, delivered, failed, not_sent, status-to_int}
use skills.Domain.Errors.{Error, ok}
use skills.World.{Row, World}
use skills.Environment.{Env, EmailJobPayload, Healthy, IsStateless}
use skills.Database.{by_email}
use skills.Database.Table.{IsTable}
use skills.Store.{Store}
use skills.Store.Contract.{IsStore}
use skills.Email.{render_notification}
use skills.Email.Console.{send, send_delay, second}
use skills.Email.Console.Verdicts.{Entry, Visits, Simulates, send-Simulates}
use skills.Worker.{message, handle}
use skills.Worker.Attempt.{Verdict, accepted, permanent, verdict, plan, attempted_row}
use skills.Worker.Refines.{data_of, handle-Plan}
use skills.Worker.Retries.{redeliver, attempted-found}
use skills.Worker.Exhausted.{Exhausts, redeliver-Exhausts}

-- The environment with the sender of QA builds; `done k d` is the error of the k-th context if it
-- ends within `d` nanoseconds.
abbrev pub qa_env : Env → (String → String) → (ℕ → ℕ → Option Error) → List Entry → Env
qa_env env to_lower done domains = record env {
  send = λ k msg. (send to_lower (done k) domains msg).0;
}

-- A job that is over after its first reception, with the status `final` and the retry count
-- `count`.
pub record Once (email : String) (final : Status) (count : ℕ) (r : ℕ × World) : Type 0 where
  pub received : r.0 ≡ 1
  pub row : Row
  pub found : by_email email r.1.state.rows ≡ some row
  pub ended : status row.status ≡ final
  pub counted : row.retry_count ≡ count

module _ (env : Env) (store : Store) (law : IsStateless env) (contract : IsStore env store)
    (healthy : Healthy env) (b : Bool) (payload : String) {job : EmailJobPayload}
    {html text : String} (w : World) {row : Row} where
  -- A verdict that is no reason to try again.
  redeliver-Once :
      (k : ℕ) (v : Verdict)
      → env.unmarshal payload ≡ some job
      → render_notification env (data_of job) ≡ ok (html, text)
      → IsTable w.state.rows
      → by_email job.email w.state.rows ≡ some row
      → (status row.status ≡ pending) ⊎ (status row.status ≡ not_sent)
      → verdict (env.send (length w.state.mailbox) (message job html text)) ≡ v
      → (plan v row.retry_limit row.retry_count).done ≡ true
      → Once job.email
          (plan v row.retry_limit row.retry_count).final
          (plan v row.retry_limit row.retry_count).count
          (redeliver env store b (suc k) payload w)
  unfolding redeliver
  redeliver-Once k v parsed rendered table found ready says over =
      let ends0 =
        handle-Plan env store law contract healthy b payload w parsed table found ready rendered in
      let (t, s, ends) = rw says at ends0 in
      let p = plan v row.retry_limit row.retry_count in
      let w1 = (handle env store b payload w).1 in
      let found1 : by_email job.email w1.state.rows ≡ some (attempted_row p t row) =
        rw s (attempted-found job.email row p t w.state.rows found) in
      rw (ends.1 over, redeliver)
        (record {
          received = refl;
          row = attempted_row p t row;
          found = found1;
          ended = status-to_int p.final;
          counted = refl;
        })

-- What becomes of a job for an address that is `lower` in lower case.
pub record Simulated (email lower : String) (limit count : ℕ) (r : ℕ × World) : Type 0 where
  pub rejected : has_suffix lower "@example.com" ≡ true → Once email failed count r
  pub timed_out : has_suffix lower "@fail.com" ≡ true → Exhausts email limit count r
  pub delivered_once :
      has_suffix lower "@example.com" ≡ false
      → has_suffix lower "@fail.com" ≡ false
      → Once email delivered count r

module _ (base : Env) (to_lower : String → String) (done : ℕ → ℕ → Option Error)
    (lasts : (k d : ℕ) → done k d ≡ none) (domains : List Entry) (visits : Visits domains)
    (store : Store) where
  abbrev env : Env
  env = qa_env base to_lower done domains

  module _ (job : EmailJobPayload) (html text : String) where
    answers :
        (k : ℕ)
        → Simulates
            (done k)
            (to_lower job.email)
            (send to_lower (done k) domains (message job html text))
    unfolding message
    answers k =
        send-Simulates to_lower (done k) (λ d. rw (lasts k d)) domains visits
          (message job html text) job.email refl

    accepts :
        (k : ℕ)
        → has_suffix (to_lower job.email) "@example.com" ≡ false
        → has_suffix (to_lower job.email) "@fail.com" ≡ false
        → verdict (env.send k (message job html text)) ≡ accepted
    unfolding verdict
    accepts k e f = elim (Bool-cases (has_suffix (to_lower job.email) "@slow.com")) [
      | inl s ↦ ap verdict ((answers k).slowly s ∙ lasts k (30 * second))
      | inr s ↦ ap verdict ((answers k).normally e f s ∙ lasts k send_delay)
    ]

  module _ (law : IsStateless env) (contract : IsStore env store) (healthy : Healthy env) (b : Bool)
      (payload : String) {job : EmailJobPayload} {html text : String} where
    -- In a QA build, over a backend that keeps the contract and with `stateless` as documented,
    -- with a driver that does not fail, templates that render, a table whose ids and emails are
    -- unique, contexts that end within no delay and any order of the map of domains: a job whose
    -- notification is pending or waits for a retry, with a retry count up to its limit, and with
    -- as many receptions allowed as are left, is over after one reception with the notification
    -- failed and its retry count as it was if the lowered address ends in @example.com; after
    -- `retry_limit - retry_count + 1` receptions with the notification failed and its retry count
    -- at the limit if it ends in @fail.com; and otherwise after one reception with the
    -- notification delivered.
    pub redeliver-Simulated :
        (k : ℕ) (w : World) (row : Row)
        → env.unmarshal payload ≡ some job
        → render_notification env (data_of job) ≡ ok (html, text)
        → IsTable w.state.rows
        → by_email job.email w.state.rows ≡ some row
        → (status row.status ≡ pending) ⊎ (status row.status ≡ not_sent)
        → row.retry_count ≤ row.retry_limit
        → row.retry_limit < suc k + row.retry_count
        → Simulated job.email
            (to_lower job.email)
            row.retry_limit
            row.retry_count
            (redeliver env store b (suc k) payload w)
    unfolding plan
    redeliver-Simulated k w row parsed rendered table found ready c enough = record {
      rejected = λ h.
          redeliver-Once env store law contract healthy b payload w k permanent parsed rendered
            table found ready ((answers job html text (length w.state.mailbox)).permanently.1 h)
            refl;
      timed_out = λ h.
          redeliver-Exhausts env store law contract healthy b payload
            (λ j. (answers job html text j).fails h) (suc k) w row parsed rendered table found ready
            c enough;
      delivered_once = λ e f.
          redeliver-Once env store law contract healthy b payload w k accepted parsed rendered table
            found ready (accepts job html text (length w.state.mailbox) e f) refl;
    }
