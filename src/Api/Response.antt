-- ===== src/Api/Response.antt =====
-- The responses of internal/infra/httpapi: a status code and a JSON body.
use skills.Prelude.{ℕ, String, Bool, List}

-- `listNotificationItem`; the times are as in the entity, before they are formatted.
pub record Item : Type 0 where
  pub id : String
  pub email : String
  pub state : String
  pub retry_count : ℕ
  pub retry_limit : ℕ
  pub created_at : ℕ
  pub updated_at : ℕ

-- `listMeta`; a cursor that is left out is "".
pub record Meta : Type 0 where
  pub has_more : Bool
  pub next_cursor : String
  pub total_count : ℕ
  pub total_pages : ℕ

pub data Body : Type 0 where
  empty : Body
  error : String → Body
  notify_response : String → Body
  list_response : List Item → Meta → Body
  health : String → Body

pub record Response : Type 0 where
  pub code : ℕ
  pub body : Body

-- `writeJSON`.
abbrev pub write_json : ℕ → Body → Response
write_json code body = record { code = code; body = body }
