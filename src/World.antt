-- ===== src/World.antt =====
-- What the handlers read and write: the two tables of internal/infra/sqlite/migrations, the job
-- queue, the messages handed to the broadcaster and to the email sender, and three counters that
-- say how much of the environment's input has been used.
use skills.Prelude.{ℕ, String, List}
use skills.Domain.Types.{EmailMessage}

-- A row of `notifications`. `status` is the INTEGER column; the times are as the column holds them.
pub record Row : Type 0 where
  pub id : String
  pub email : String
  pub status : ℕ
  pub retry_count : ℕ
  pub retry_limit : ℕ
  pub created_at : ℕ
  pub updated_at : ℕ

-- A row of `state_transitions`, without its key and its time.
pub record LogRow : Type 0 where
  pub entity_type : String
  pub entity_id : String
  pub from_state : String
  pub to_state : String
  pub trigger : String

-- The JSON object that `broadcastState` marshals.
pub record StateMessage : Type 0 where
  pub id : String
  pub state : String

-- `log`, `queue`, `broadcasts` and `mailbox` have the newest entry first.
pub record State : Type 0 where
  pub rows : List Row
  pub log : List LogRow
  pub queue : List String
  pub broadcasts : List StateMessage
  pub mailbox : List EmailMessage

-- `calls` counts database statements, `ticks` readings of the clock, `issued` generated UUIDs.
pub record World : Type 0 where
  pub state : State
  pub calls : ℕ
  pub ticks : ℕ
  pub issued : ℕ
