-- ===== src/Api/List/Cursor.antt =====
-- Cursors of GET /v1/notifications: what the encoded id of a row decodes to, and the rows after it.
use skills.Prelude.{ℕ, suc, String, false, ◌≡◌, some, List, drop, get_elem?, same}
use skills.World.{Row}
use skills.Environment.{Env}
use skills.Database.{order_rows}
use skills.Database.Order.{
  order_rows-IsOrdered, order_rows-rows_after, rows_after-get_elem?, by_id-get_elem?,
}
use skills.Database.Table.{IsTable}
use skills.Api.List.{decode_cursor}
use skills.Api.List.Pages.{matching}

-- What `base64.StdEncoding` documents, as far as cursors use it.
pub record IsBase64 (env : Env) : Type 0 where
  pub decode-encode : (s : String) → env.base64_decode (env.base64_encode s) ≡ some s
  pub encode_not_empty : (s : String) → same s "" ≡ false → same (env.base64_encode s) "" ≡ false

module _ (env : Env) (base64 : IsBase64 env) where
  pub decode_cursor_encoded :
      (id : String) → same id "" ≡ false → decode_cursor env (env.base64_encode id) ≡ id
  unfolding decode_cursor
  decode_cursor_encoded id h = rw (base64.encode_not_empty id h, base64.decode-encode id)

-- What follows the n-th row of the ordered list.
pub matching-drop :
    (rows : List Row) (n : ℕ) (r : Row)
    → IsTable rows
    → same r.id "" ≡ false
    → get_elem? (order_rows rows) n ≡ some r
    → matching r.id rows ≡ drop (suc n) (order_rows rows)
unfolding matching
matching-drop rows n r table named e =
    rw (named, by_id-get_elem? rows n r table e, order_rows-rows_after r rows table)
      (rows_after-get_elem? (order_rows rows) n r (order_rows-IsOrdered rows table) e)
