-- ===== src/Api/List.antt =====
-- internal/infra/httpapi/list.go and health.go.
pub mod Pages
pub mod Cursor
pub mod Walk
use skills.Prelude.{
  ℕ, ◌+◌, ◌-◌, ◌/◌, String, Bool, true, false, ◌&&◌, Option, none, some, List, [], ◌∷◌, map, length,
  take, same, ltb, if◌then◌else◌,
}
use skills.Domain.Types.{status_string, Notification}
use skills.Domain.Errors.{Error, ok, err}
use skills.World.{World}
use skills.Environment.{Env}
use skills.Store.{Store}
use skills.Api.Code
use skills.Api.Response.{Item, Meta, Response, Body, list_response, health, write_json}
use skills.Api.Notify.{internal_error}

abbrev pub default_page_limit : ℕ
default_page_limit = 20

abbrev pub max_page_limit : ℕ
max_page_limit = 100

-- The limit from the query: what `strconv.Atoi` makes of a non-empty parameter, `none` standing for
-- a missing one, for a parse error and for a negative number.
unfoldable pub page_limit : Option ℕ → ℕ
page_limit asked =
    let limit : ℕ = elim asked [
      | none ↦ default_page_limit
      | some n ↦ if ltb 0 n then n else default_page_limit
    ] in
    if ltb max_page_limit limit then max_page_limit else limit

-- The cursor from the query: an empty parameter, and one that is no base64, start at the beginning.
unfoldable pub decode_cursor : Env → String → String
decode_cursor env v =
    if same v "" then "" else elim (env.base64_decode v) [ none ↦ "" | some id ↦ id ]

unfoldable pub item : Notification → Item
item n = record {
  id = n.id;
  email = n.email;
  state = status_string n.status;
  retry_count = n.retry_count;
  retry_limit = n.retry_limit;
  created_at = n.created_at;
  updated_at = n.updated_at;
}

-- ceil(total / limit).
unfoldable pub total_pages : ℕ → ℕ → ℕ
total_pages total limit = if ltb 0 total then (total + limit - 1) / limit else 0

-- The id of the last notification of a page.
unfoldable pub last_id : List Notification → Option String
last_id [] = none
last_id (n ∷ []) = some n.id
last_id (n ∷ m ∷ ns) = last_id (m ∷ ns)

unfoldable pub next_cursor : Env → Bool → List Notification → String
next_cursor env false page = ""
next_cursor env true page = elim (last_id page) [ none ↦ "" | some id ↦ env.base64_encode id ]

module _ (env : Env) (store : Store) where
  -- From the fetched rows on: one more than `limit` says that there are more.
  unfoldable pub respond : ℕ → List Notification → World → Response × World
  respond limit fetched w =
      let has_more = ltb limit (length fetched) in
      let page = if has_more then take limit fetched else fetched in
      let (counted, w1) = store.count_notifications w in
      elim counted [
        | err _ ↦ (internal_error, w1)
        | ok total ↦ (
          write_json Code.ok (
              list_response (map item page) (record {
                has_more = has_more;
                next_cursor = next_cursor env has_more page;
                total_count = total;
                total_pages = total_pages total limit;
              })),
          w1,
        )
      ]

  unfoldable pub handle_list : Option ℕ → String → World → Response × World
  handle_list asked after w =
      let limit = page_limit asked in
      let (fetched, w1) = store.list_notifications (decode_cursor env after) (limit + 1) w in
      elim fetched [ err _ ↦ (internal_error, w1) | ok ns ↦ respond limit ns w1 ]

-- `HandleHealth`.
unfoldable pub handle_health : Store → World → Response × World
handle_health store w =
    let (failed, w1) = store.ping w in
    elim failed [
      | some _ ↦ (write_json Code.service_unavailable (health "unhealthy"), w1)
      | none ↦ (write_json Code.ok (health "healthy"), w1)
    ]
