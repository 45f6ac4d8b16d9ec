-- ===== src/Mcp/Pages.antt =====
-- The tool `list_notifications` against the rows that follow its cursor and against the handler of
-- GET /v1/notifications.
use skills.Prelude.{
  ℕ, String, ◌≤◌, ◌*◌, ◌≡◌, ◌↔◌, ◌∙◌, refl, Option, none, some, List, map, length, take, arith,
}
use mathlib.Core.List.{map-map}
use skills.World.{World, Row}
use skills.Domain.Types.{Notification}
use skills.Domain.Errors.{ok}
use skills.Environment.{Env}
use skills.Store.{Store}
use skills.Store.Contract.{Fault, Answers, IsStore}
use skills.Database.{select_page}
use skills.Api.List.{page_limit, item, total_pages}
use skills.Api.List.Pages.{matching, select_page-eq, total_pages-ceil}
use skills.Mcp.{ToolResult, listed, failure, tool_limit, list_notifications}

pub data ToolLists (scan : Row → Notification) (env : Env) (limit : ℕ) (after : String) (w : World)
    (r : ToolResult × World) : Type 0 where
  broken :
      Fault env
      → r.0 ≡ failure "internal error"
      → r.1.state ≡ w.state
      → ToolLists scan env limit after w r
  answered :
      (pages : ℕ)
      → r.0
        ≡ listed
            (map (λ x. item (scan x)) (take limit (matching after w.state.rows)))
            (length w.state.rows)
            pages
      → ((k : ℕ) → (pages ≤ k) ↔ (length w.state.rows ≤ k * limit))
      → r.1.state ≡ w.state
      → ToolLists scan env limit after w r

tool_limit-bounds : (asked : Option ℕ) → (1 ≤ tool_limit asked) × (tool_limit asked ≤ 100)
unfolding tool_limit
tool_limit-bounds none = (omega arith, omega arith)
tool_limit-bounds (some n) = ground arith

-- For a limit that is asked for, the tool and the handler use the same limit exactly when it is at
-- most 100.
pub tool_limit-page_limit : (n : ℕ) → (tool_limit (some n) ≡ page_limit (some n)) ↔ (n ≤ 100)
unfolding tool_limit page_limit
tool_limit-page_limit n = ground arith

module _ (env : Env) (store : Store) (contract : IsStore env store) (after : String)
    (asked : Option ℕ) (w : World) where
  abbrev Goal : Type 0
  Goal =
      ToolLists contract.scan env (tool_limit asked) after w
        (list_notifications env store after asked w)

  page : List Notification
  page = map contract.scan (select_page after (tool_limit asked) w.state.rows)

  counted :
      (w1 : World)
      → store.list_notifications after (tool_limit asked) w ≡ (ok page, w1)
      → w1.state ≡ w.state
      → Answers env w1 (length w1.state.rows) (store.count_notifications w1)
      → Goal
  unfolding list_notifications page
  counted w1 r same (Answers.broken e w2 k u q) =
      rw (r, list_notifications, r, u, r, u) (ToolLists.broken k refl (q ∙ same))
  counted w1 r same (Answers.answered w2 u q) =
      rw (r, list_notifications, r, u, r, u)
        (ToolLists.answered (total_pages (length w.state.rows) (tool_limit asked))
          (rw (
            same,
            select_page-eq,
            map-map item contract.scan (take (tool_limit asked) (matching after w.state.rows)),
          ))
          (λ k.
            total_pages-ceil (length w.state.rows) (tool_limit asked) k
              ((tool_limit-bounds asked).0))
          (q ∙ same))

  -- Over a backend that keeps the contract, the limit of a page is at least 1 and at most 100.
  -- With any driver, the tool changes nothing, and it fails with a failed statement or lists the
  -- first rows after the cursor in the order of creation time and id, as many as the limit allows,
  -- with the number of rows and the least number of pages that holds them all.
  pub list_notifications-ToolLists :
      (1 ≤ tool_limit asked)
      × (tool_limit asked ≤ 100)
      × ToolLists contract.scan env
          (tool_limit asked)
          after
          w
          (list_notifications env store after asked w)
  unfolding list_notifications page
  list_notifications-ToolLists =
      let (low, high) = tool_limit-bounds asked in
      (low, high, go (contract.list after (tool_limit asked) w))
    where
      go : Answers env w page (store.list_notifications after (tool_limit asked) w) → Goal
      go (Answers.broken e w1 k r q) = rw (r, list_notifications, r) (ToolLists.broken k refl q)
      go (Answers.answered w1 r q) = counted w1 r q (contract.count w1)
