-- ===== src/Api/List/Walk.antt =====
-- A client that follows the cursors of GET /v1/notifications from the first page to the last.
use mathlib.Core.List.{map-append, Perm}
use skills.Prelude.{
  ℕ, zero, suc, ◌+◌, ◌≤◌, ◌<◌, String, false, ◌≡◌, ◌∙◌, refl, sym, ap, subst, Option, none, some,
  List, ◌++◌, map, length, take, drop, get_elem?, All, same, if◌then◌else◌, arith, Bool-cases, inl,
  inr, take_all, take-append-drop, length-drop, drop-drop, get_elem?-drop,
}
use skills.World.{Row, World}
use skills.Environment.{Env, Healthy}
use skills.Database.{order_rows}
use skills.Database.Order.{
  IsOrdered, order_rows-IsOrdered, order_rows-perm, length-order_rows, All-order_rows,
  get_elem?-All,
}
use skills.Database.Table.{IsTable}
use skills.Store.{Store}
use skills.Store.Contract.{IsStore}
use skills.Api.Response.{Response, list_response, Item, Meta}
use skills.Api.List.{page_limit, decode_cursor, item, handle_list}
use skills.Api.List.Pages.{PointsTo, IsPage, Lists, matching, page_limit-bounds, handle_list-Lists}
use skills.Api.List.Cursor.{IsBase64, decode_cursor_encoded, matching-drop}

module _ (env : Env) (store : Store) (asked : Option ℕ) where
  -- At most `k` requests: the items of their pages, or `none` where a request fails or where there
  -- are more pages.
  unfoldable pub walk : ℕ → String → World → Option (List Item)
  walk zero cursor w = none
  walk (suc k) cursor w =
      let (response, w1) = handle_list env store asked cursor w in
      elim response.body [
        | list_response items meta ↦
            let rest = walk k meta.next_cursor w1 in
            if meta.has_more
            then elim rest [ none ↦ none | some more ↦ some (items ++ more) ]
            else some items
        | _ ↦ none
      ]

module _ (env : Env) (store : Store) (contract : IsStore env store) (base64 : IsBase64 env)
    (healthy : Healthy env) (asked : Option ℕ) (rows : List Row) (table : IsTable rows)
    (named : All (λ r. same r.id "" ≡ false) rows) where
  abbrev ordered : List Row
  ordered = order_rows rows

  abbrev limit : ℕ
  limit = page_limit asked

  abbrev shown : Row → Item
  shown r = item (contract.scan r)

  -- The cursor of a page that starts at the n-th row, has `l + 1` rows and is not the last.
  cursor-drop :
      (n l : ℕ) (cursor : String) (last : Row)
      → get_elem? (drop n ordered) l ≡ some last
      → cursor ≡ env.base64_encode last.id
      → matching (decode_cursor env cursor) rows ≡ drop (n + suc l) ordered
  cursor-drop n l cursor last found e =
      let at : get_elem? ordered (n + l) ≡ some last = sym (get_elem?-drop n l ordered) ∙ found in
      let id : same last.id "" ≡ false =
        get_elem?-All (λ s. same s.id "" ≡ false) ordered (n + l) last
          (All-order_rows (λ s. same s.id "" ≡ false) rows named) at in
      let next : suc (n + l) ≡ n + suc l = omega arith in
      rw (
        e,
        decode_cursor_encoded env base64 last.id id,
        matching-drop rows (n + l) last table id at,
        next,
      )

  page-drop :
      (n : ℕ) (cursor : String)
      → limit < length (drop n ordered)
      → PointsTo env limit (drop n ordered) cursor
      → matching (decode_cursor env cursor) rows ≡ drop (n + limit) ordered
  page-drop n cursor more (PointsTo.ended short e) = absurd (omega arith)
  page-drop n cursor more (PointsTo.goes_on l last size m found e) =
      cursor-drop n l cursor last found e ∙ ap (λ (k : ℕ). drop (n + k) ordered) (sym size)

  pages_joined :
      (items : List Item) (n l : ℕ)
      → items ≡ map shown (take l (drop n ordered))
      → items ++ map shown (drop (n + l) ordered) ≡ map shown (drop n ordered)
  pages_joined items n l e =
      rw
        (
          e,
          ← drop-drop l n ordered,
          ← map-append shown (take l (drop n ordered)) (drop l (drop n ordered)),
        )
        (ap (map shown) (take-append-drop l (drop n ordered)))

  -- What `k` requests bring, from any row on.
  abbrev Walks : ℕ → Type 0
  Walks k =
      (n : ℕ) (cursor : String) (w : World)
      → w.state.rows ≡ rows
      → matching (decode_cursor env cursor) rows ≡ drop n ordered
      → 1 ≤ k
      → length (drop n ordered) ≤ k
      → walk env store asked k cursor w ≡ some (map shown (drop n ordered))

  module _ (k : ℕ) (again : Walks k) (n : ℕ) (enough : length (drop n ordered) ≤ suc k) where
    next_page :
        (items : List Item) (meta : Meta) (w : World)
        → IsPage env contract.scan limit (drop n ordered) (length rows) items meta
        → w.state.rows ≡ rows
        → (if meta.has_more
            then elim (walk env store asked k meta.next_cursor w) [
              | none ↦ none
              | some more ↦ some (items ++ more)
            ]
            else some items)
          ≡ some (map shown (drop n ordered))
    next_page items meta w page e = elim (Bool-cases meta.has_more) [
      | inl p ↦
          let more : limit < length (drop n ordered) = page.more.0 p in
          let low : 1 ≤ limit = (page_limit-bounds asked).0 in
          let here = page-drop n meta.next_cursor more page.cursor in
          let left : (1 ≤ k) × (length (drop (n + limit) ordered) ≤ k) =
            omega
              (arith, length-drop {A = Row} n ordered, length-drop {A = Row} (n + limit) ordered) in
          rw (p, again (n + limit) meta.next_cursor w e here left.0 left.1)
            (ap some (pages_joined items n limit page.items_are))
      | inr p ↦
          let short : length (drop n ordered) ≤ limit = ground arith in
          rw p (ap some (page.items_are ∙ ap (map shown) (take_all limit (drop n ordered) short)))
    ]

  walk-drop : (k : ℕ) → Walks k
  unfolding walk
  walk-drop zero n cursor w e at some_left enough = absurd (omega arith)
  walk-drop (suc k) n cursor w e at some_left enough =
      go (next_page k (walk-drop k) n enough) (handle_list env store asked cursor w)
        ((handle_list-Lists env store contract asked cursor w).2)
    where
      go :
          ((items : List Item) (meta : Meta) (w1 : World)
            → IsPage env contract.scan limit (drop n ordered) (length rows) items meta
            → w1.state.rows ≡ rows
            → (if meta.has_more
                then elim (walk env store asked k meta.next_cursor w1) [
                  | none ↦ none
                  | some more ↦ some (items ++ more)
                ]
                else some items)
              ≡ some (map shown (drop n ordered)))
          → (r : Response × World) → Lists env contract.scan limit (decode_cursor env cursor) w r
          → (elim r.0.body [
            | list_response items meta ↦
                if meta.has_more
                then elim (walk env store asked k meta.next_cursor r.1) [
                  | none ↦ none
                  | some more ↦ some (items ++ more)
                ]
                else some items
            | _ ↦ none
          ])
            ≡ some (map shown (drop n ordered))
      go next r (Lists.broken (j, text, f) a b) = absurd (let h = healthy j in ground arith)
      go next r (Lists.listed items meta page a b) = rw a (
          next items meta r.1
            (subst (λ ys. IsPage env contract.scan limit ys (length rows) items meta) at
              (subst
                (λ rs.
                  IsPage env contract.scan limit (matching (decode_cursor env cursor) rs)
                    (length rs) items meta)
                e page))
            (ap (λ s. s.rows) b ∙ e))

  -- Over a backend that keeps the contract, where no statement of the driver fails, the table
  -- keeps its keys, no row has an empty id and base64 decodes what it encodes to a non-empty
  -- text: a client that starts with no cursor and asks for each next page by the cursor of the
  -- one before gets, with any limit, every row of the table exactly once and in the order of
  -- creation time and id, and it ends after at most as many requests as there are rows, and one
  -- where there is none.
  pub walk-order_rows :
      (k : ℕ) (w : World)
      → w.state.rows ≡ rows
      → 1 ≤ k
      → length rows ≤ k
      → Perm (order_rows rows) rows
        × IsOrdered (order_rows rows)
        × (walk env store asked k "" w ≡ some (map shown (order_rows rows)))
  unfolding matching decode_cursor order_rows same
  walk-order_rows k w e some_left enough = (
    order_rows-perm rows,
    order_rows-IsOrdered rows table,
    walk-drop k 0 "" w e refl some_left (omega (arith, length-order_rows rows)),
  )
