-- ===== src/Api/List/Pages.antt =====
-- What GET /v1/notifications answers, against the rows that follow the cursor.
use mathlib.Core.List.{map-map}
use native.Mathlib.Nat.{div-lt_iff_lt-mul}
use skills.Prelude.{
  ℕ, zero, suc, ◌+◌, ◌-◌, ◌*◌, ◌/◌, ◌≤◌, ◌<◌, String, Bool, true, ◌≡◌, ◌↔◌, ◌∙◌, refl, sym, ap,
  Option, none, some, List, [], ◌∷◌, map, length, get_elem?, take, take_nil, take-take-suc,
  take-suc_short, length-take-suc, length-take, length-map, get_elem?-some, map-take, same, ltb,
  ltb→lt, lt→ltb, if◌then◌else◌, arith, Bool-cases, inl, inr,
}
use skills.Domain.Types.{Notification}
use skills.World.{Row, World}
use skills.Environment.{Env}
use skills.Database.{by_id, order_rows, rows_after, select_page}
use skills.Store.{Store}
use skills.Store.Contract.{Fault, Answers, IsStore}
use skills.Api.Code
use skills.Api.Response.{Response, Item, Meta, list_response, write_json}
use skills.Api.Notify.{internal_error}
use skills.Api.List.{
  page_limit, decode_cursor, item, total_pages, last_id, next_cursor, respond, handle_list,
}

-- The rows that come after a cursor, in the order of the list.
unfoldable pub matching : String → List Row → List Row
matching after rows =
    if same after ""
    then order_rows rows
    else elim (by_id after rows) [ none ↦ [] | some cursor ↦ order_rows (rows_after cursor rows) ]

pub select_page-eq :
    (after : String) (limit : ℕ) (rows : List Row)
    → select_page after limit rows ≡ take limit (matching after rows)
unfolding select_page matching
select_page-eq after limit rows = ground (arith, take_nil {A = Row} limit)

pub page_limit-bounds : (asked : Option ℕ) → (1 ≤ page_limit asked) × (page_limit asked ≤ 100)
unfolding page_limit
page_limit-bounds none = (omega arith, omega arith)
page_limit-bounds (some n) = ground arith

-- The number of pages is the least that holds all the rows.
pub total_pages-ceil :
    (total limit k : ℕ) → 1 ≤ limit → (total_pages total limit ≤ k) ↔ (total ≤ k * limit)
unfolding total_pages
total_pages-ceil total limit k h =
    let below : ((total + limit - 1) / limit < k + 1) ↔ (total + limit - 1 < (k + 1) * limit) =
      div-lt_iff_lt-mul (omega arith) in
    elim (Bool-cases (ltb 0 total)) [
      | inl p ↦ rw p (
        (λ q. let r = below.0 (omega arith) in let l = ltb→lt 0 total p in omega arith),
        (λ q. let r = below.1 (let l = ltb→lt 0 total p in omega arith) in omega arith),
      )
      | inr p ↦ rw p ((λ q. ground arith), (λ q. omega arith))
    ]

-- The cursor that the code makes of a page is the encoded id of the last row of it.
last_id-take :
    (scan : Row → Notification)
    → ((r : Row) → (scan r).id ≡ r.id)
    → (rows : List Row) (n : ℕ) (r : Row) → get_elem? rows n ≡ some r
    → last_id (map scan (take (suc n) rows)) ≡ some r.id
unfolding last_id
last_id-take scan ids [] n r e = absurd (ground arith)
last_id-take scan ids (s ∷ rows) zero r e = ground (arith, ids s)
last_id-take scan ids (s ∷ t ∷ rows) (suc n) r e = last_id-take scan ids (t ∷ rows) n r e
last_id-take scan ids (s ∷ []) (suc n) r e = absurd (ground arith)

next_cursor_last :
    (env : Env) (page : List Notification) (id : String)
    → last_id page ≡ some id
    → next_cursor env true page ≡ env.base64_encode id
unfolding next_cursor
next_cursor_last env page id e = ground arith

-- The cursor of a page: empty where the rows end with it, and the encoded id of its last row
-- where they go on.
pub data PointsTo (env : Env) (limit : ℕ) (rows : List Row) (cursor : String) : Type 0 where
  ended : length rows ≤ limit → cursor ≡ "" → PointsTo env limit rows cursor
  goes_on :
      (l : ℕ) (last : Row)
      → limit ≡ suc l
      → limit < length rows
      → get_elem? rows l ≡ some last
      → cursor ≡ env.base64_encode last.id
      → PointsTo env limit rows cursor

-- The page of `limit` rows out of `rows`, and what is said of it.
pub record IsPage (env : Env) (scan : Row → Notification) (limit : ℕ) (rows : List Row) (count : ℕ)
    (items : List Item) (meta : Meta) : Type 0 where
  pub items_are : items ≡ map (λ r. item (scan r)) (take limit rows)
  pub at_most : length items ≤ limit
  pub more : (meta.has_more ≡ true) ↔ (limit < length rows)
  pub cursor : PointsTo env limit rows meta.next_cursor
  pub total : meta.total_count ≡ count
  pub pages : (k : ℕ) → (meta.total_pages ≤ k) ↔ (count ≤ k * limit)

pub data Lists (env : Env) (scan : Row → Notification) (limit : ℕ) (after : String) (w : World)
    (r : Response × World) : Type 0 where
  broken : Fault env → r.0 ≡ internal_error → r.1.state ≡ w.state → Lists env scan limit after w r
  listed :
      (items : List Item) (meta : Meta)
      → IsPage env scan limit (matching after w.state.rows) (length w.state.rows) items meta
      → r.0 ≡ write_json Code.ok (list_response items meta)
      → r.1.state ≡ w.state
      → Lists env scan limit after w r

module _ (env : Env) (store : Store) (contract : IsStore env store) (asked : Option ℕ)
    (cursor : String) (w : World) where
  abbrev limit : ℕ
  limit = page_limit asked

  abbrev after : String
  after = decode_cursor env cursor

  abbrev rows : List Row
  rows = matching after w.state.rows

  abbrev fetched : List Notification
  fetched = map contract.scan (take (suc limit) rows)

  abbrev has_more : Bool
  has_more = ltb limit (length fetched)

  abbrev page : List Notification
  page = if has_more then take limit fetched else fetched

  has_more-eq : has_more ≡ ltb limit (length rows)
  has_more-eq = rw (length-map contract.scan (take (suc limit) rows)) (length-take-suc limit rows)

  page-eq : page ≡ map contract.scan (take limit rows)
  page-eq = elim (Bool-cases has_more) [
    | inl p ↦
        rw (p, sym (map-take contract.scan limit (take (suc limit) rows)), take-take-suc limit rows)
    | inr p ↦ rw p (
        ap (map contract.scan) (
          take-suc_short limit rows
            (let l = length-map contract.scan (take (suc limit) rows) in ground arith)))
  ]

  cursor-eq :
      (size : ℕ)
      → size ≡ limit
      → (l : ℕ) (last : Row) → size ≡ suc l
      → get_elem? rows l ≡ some last
      → size < length rows
      → next_cursor env has_more page ≡ env.base64_encode last.id
  cursor-eq size e l last k found more =
      let so : has_more ≡ true = has_more-eq ∙ lt→ltb limit (length rows) (rw e at more) in
      let cut : take limit rows ≡ take (suc l) rows = ap (λ (s : ℕ). take s rows) (sym e ∙ k) in
      rw (page-eq, so, cut)
        (next_cursor_last env (map contract.scan (take (suc l) rows)) last.id
          (last_id-take contract.scan (λ s. (contract.scan-Shows s).id) rows l last found))

  page-PointsTo : PointsTo env limit rows (next_cursor env has_more page)
  unfolding next_cursor
  page-PointsTo = elim (Bool-cases (ltb limit (length rows))) [
    | inr short ↦ ended (ground arith) (rw (has_more-eq, short) refl)
    | inl long ↦
        let more : limit < length rows = ltb→lt limit (length rows) long in
        let low : 1 ≤ limit = (page_limit-bounds asked).0 in
        let size : limit ≡ suc (limit - 1) = omega arith in
        let (last, found) = get_elem?-some rows (limit - 1) (omega arith) in
        goes_on (limit - 1) last size more found
          (cursor-eq limit refl (limit - 1) last size found more)
  ]

  abbrev meta : Meta
  meta = record {
    has_more = has_more;
    next_cursor = next_cursor env has_more page;
    total_count = length w.state.rows;
    total_pages = total_pages (length w.state.rows) limit;
  }

  page-IsPage : IsPage env contract.scan limit rows (length w.state.rows) (map item page) meta
  page-IsPage = record {
    items_are = rw page-eq (map-map item contract.scan (take limit rows));
    at_most =
        rw
          (
            page-eq,
            length-map item (map contract.scan (take limit rows)),
            length-map contract.scan (take limit rows),
          )
          (length-take limit rows);
    more = rw has_more-eq (ltb→lt limit (length rows), lt→ltb limit (length rows));
    cursor = page-PointsTo;
    total = refl;
    pages = λ k. total_pages-ceil (length w.state.rows) limit k ((page_limit-bounds asked).0);
  }

  respond-Lists :
      (w1 : World)
      → w1.state ≡ w.state
      → Answers env w1 (length w1.state.rows) (store.count_notifications w1)
      → Lists env contract.scan limit after w (respond env store limit fetched w1)
  unfolding respond
  respond-Lists w1 same (Answers.broken e w2 k r q) =
      rw (r, respond, r) (Lists.broken k refl (q ∙ same))
  respond-Lists w1 same (Answers.answered w2 r q) =
      rw (r, respond, r, same) (Lists.listed (map item page) meta page-IsPage refl (q ∙ same))

  fetched-Lists :
      Answers env w
        (map contract.scan (select_page after (limit + 1) w.state.rows))
        (store.list_notifications after (limit + 1) w)
      → Lists env contract.scan limit after w (handle_list env store asked cursor w)
  unfolding handle_list
  fetched-Lists (Answers.broken e w1 k r q) = rw (r, handle_list, r) (Lists.broken k refl q)
  fetched-Lists (Answers.answered w1 r q) =
      let same : map contract.scan (select_page after (limit + 1) w.state.rows) ≡ fetched =
        let one_more : limit + 1 ≡ suc limit = omega arith in rw (select_page-eq, one_more) in
      rw (r, handle_list, r, same) (respond-Lists w1 q (contract.count w1))

  pub handle_list-Lists :
      (1 ≤ page_limit asked)
      × (page_limit asked ≤ 100)
      × Lists env contract.scan
          (page_limit asked)
          (decode_cursor env cursor)
          w
          (handle_list env store asked cursor w)
  handle_list-Lists =
      let (low, high) = page_limit-bounds asked in
      (low, high, fetched-Lists (contract.list after (limit + 1) w))
