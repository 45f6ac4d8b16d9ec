-- ===== src/Api/Reset/Resets.antt =====
-- What POST /v1/notify/reset can do, whatever the driver does.
use skills.Prelude.{ℕ, String, true, false, ◌≡◌, refl, ◌⊎◌, inl, inr, ◌∙◌, none, some, arith, ltb}
use skills.Domain.Types.{
  Status, status, pending, delivered, failed, not_sent, to_int, Trigger, Notification,
}
use skills.Domain.Errors.{sentinel, retries_remaining, error_text}
use skills.Domain.Machine.{lifecycle, permitted}
use skills.World.{Row, World}
use skills.Environment.{Env, IsStateless}
use skills.Database.{by_email, by_id}
use skills.Database.Table.{IsTable, by_id_of_by_email}
use skills.Checks.{check_reset_allowed}
use skills.Firing.{store_machine, Fired, fire-Fired}
use skills.Store.{Store}
use skills.Store.Contract.{Fault, Gets, IsStore}
use skills.Api.Code
use skills.Api.Response.{Response, error, write_json}
use skills.Api.Notify.{internal_error}
use skills.Api.Reset.{clear_and_enqueue, reset_found, handle_reset}
use skills.Api.Reset.Clears.{Clears, clear_and_enqueue-Clears}

-- The statuses that a reset leaves, and those that it cannot leave.
abbrev pub IsFinished : Row → Type 0
IsFinished row =
    (status row.status ≡ delivered)
    ⊎ ((status row.status ≡ failed)
        ⊎ ((status row.status ≡ not_sent) × (ltb row.retry_count row.retry_limit ≡ false)))

abbrev IsHeld : Row → Type 0
IsHeld row = (status row.status ≡ not_sent) × (ltb row.retry_count row.retry_limit ≡ true)

-- The ways in which a request can end.
pub data Resets (env : Env) (request_id email : String) (w : World) (r : Response × World)
    : Type 0 where
  missing :
      by_email email w.state.rows ≡ none
      → r.0 ≡ write_json Code.not_found (error "not found")
      → r.1.state ≡ w.state
      → Resets env request_id email w r
  broken : Fault env → r.0 ≡ internal_error → r.1.state ≡ w.state → Resets env request_id email w r
  held :
      (row : Row)
      → by_email email w.state.rows ≡ some row
      → IsHeld row
      → r.0 ≡ write_json Code.conflict (error (error_text (sentinel retries_remaining)))
      → r.1.state ≡ w.state
      → Resets env request_id email w r
  refused :
      (row : Row)
      → by_email email w.state.rows ≡ some row
      → permitted (lifecycle row.retry_limit row.retry_count) (status row.status) Trigger.reset
        ≡ none
      → r.0 ≡ internal_error
      → r.1.state ≡ w.state
      → Resets env request_id email w r
  cleared :
      (row : Row)
      → by_email email w.state.rows ≡ some row
      → IsFinished row
      → Clears env request_id row w.state r
      → Resets env request_id email w r

reset_target :
    (limit count : ℕ) (s d : Status)
    → permitted (lifecycle limit count) s Trigger.reset ≡ some d
    → (d ≡ pending) × ((s ≡ delivered) ⊎ ((s ≡ failed) ⊎ (s ≡ not_sent)))
unfolding permitted lifecycle
reset_target limit count s d h = ground arith

check-cases :
    (s : Status) (count limit : ℕ)
    → ((check_reset_allowed s count limit ≡ some (sentinel retries_remaining))
        × (s ≡ not_sent)
        × (ltb count limit ≡ true))
      ⊎ ((check_reset_allowed s count limit ≡ none) × ((s ≡ not_sent) → ltb count limit ≡ false))
unfolding check_reset_allowed to_int
check-cases s count limit = ground arith

module _ (env : Env) (store : Store) (law : IsStateless env) (contract : IsStore env store)
    (request_id email : String) (w : World) (table : IsTable w.state.rows) where
  module _ (row : Row) (w1 : World) (found : by_email email w.state.rows ≡ some row)
      (same : w1.state ≡ w.state) where
    abbrev n : Notification
    n = contract.scan row

    fired-Resets :
        (r : Response × World)
        → ((status row.status ≡ not_sent) → ltb row.retry_count row.retry_limit ≡ false)
        → Fired env n.id n.retry_limit n.retry_count Trigger.reset w1
            (env.fire (store_machine store n.id n.retry_limit n.retry_count) Trigger.reset w1)
        → r ≡ (
            let (fired, w2) =
              env.fire (store_machine store n.id n.retry_limit n.retry_count) Trigger.reset w1 in
            elim fired [
              | some _ ↦ (internal_error, w2)
              | none ↦ clear_and_enqueue env store request_id n w2
            ])
        → Resets env request_id email w r
    fired-Resets r free (Fired.broken e w2 k f q) runs =
        rw (runs, f, f) (Resets.broken k refl (q ∙ same))
    fired-Resets r free (Fired.missing e w2 m f q) runs =
        let shows = contract.scan-Shows row in
        let m' : by_id row.id w.state.rows ≡ none = rw (shows.id, same) at m in
        let f' : by_id row.id w.state.rows ≡ some row = by_id_of_by_email _ _ _ table found in
        absurd (ground arith)
    fired-Resets r free (Fired.refused row' e w2 m p f q) runs =
        let shows = contract.scan-Shows row in
        let m' : by_id row.id w.state.rows ≡ some row' = rw (shows.id, same) at m in
        let f' : by_id row.id w.state.rows ≡ some row = by_id_of_by_email _ _ _ table found in
        let here : row' ≡ row = ground arith in
        rw (runs, f, f)
          (Resets.refused row found (rw (shows.retry_limit, shows.retry_count, here) at p) refl
            (q ∙ same))
    fired-Resets r free (Fired.moved row' d t1 w2 m p f q) runs =
        let shows = contract.scan-Shows row in
        let m' : by_id row.id w.state.rows ≡ some row' = rw (shows.id, same) at m in
        let f' : by_id row.id w.state.rows ≡ some row = by_id_of_by_email _ _ _ table found in
        let here : row' ≡ row = ground arith in
        let (to_pending, from) =
          reset_target n.retry_limit n.retry_count (status row'.status) d p in
        rw (runs, f, f)
          (Resets.cleared row found (let from' = rw here at from in ground arith) (
            clear_and_enqueue-Clears env store contract request_id row w.state w2 t1 table f'
              (q ∙ rw (same, shows.id, to_pending))))

    found-Resets : Resets env request_id email w (reset_found env store request_id n w1)
    unfolding reset_found
    found-Resets =
        let shows = contract.scan-Shows row in
        elim (check-cases n.status n.retry_count n.retry_limit) [
          | inl (c, s, l) ↦
              rw (c, reset_found)
                (Resets.held row found
                  (rw shows.status at s, rw (shows.retry_count, shows.retry_limit) at l) refl same)
          | inr (c, free) ↦
              fired-Resets (reset_found env store request_id n w1)
                (rw (shows.status, shows.retry_count, shows.retry_limit) at free)
                (fire-Fired env store law contract n.id n.retry_limit n.retry_count Trigger.reset
                  w1)
                (rw (c, reset_found))
        ]

  -- Over a backend that keeps the contract and with `stateless` as documented, a request with an
  -- email, on a table whose ids and emails are unique, whatever the driver does: no row of that
  -- email is 404; a row that waits for a retry with retries left is 409; a status that no reset
  -- leaves is 500; in these cases nothing changes. A delivered or failed notification, or one out
  -- of retries, is 204 with the row pending, its count 0, and one job queued for it; the audit row
  -- is added unless that statement fails. A failed statement is 500: it changes nothing, or the
  -- row is left pending, perhaps with its audit row, and no job is queued.
  pub handle_reset-Resets :
      Resets env request_id email w (handle_reset env store request_id (some email) w)
  unfolding handle_reset
  handle_reset-Resets = go (contract.get email w)
    where
      go :
          Gets env w contract.scan email (store.get_notification_by_email email w)
          → Resets env request_id email w (handle_reset env store request_id (some email) w)
      go (Gets.broken e w1 k i r s) = rw (r, handle_reset, i, r) (Resets.broken k refl s)
      go (Gets.missing e w1 m i r s) = rw (r, handle_reset, i, r) (Resets.missing m refl s)
      go (Gets.found row w1 m r s) = rw (r, handle_reset, r) (found-Resets row w1 m s)
