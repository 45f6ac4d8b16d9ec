-- ===== src/Worker/Changes/Answered.antt =====
-- From a transient failure up to what follows the answer of the sender.
use skills.Prelude.{ℕ, ◌+◌, ◌<◌, ◌≡◌, refl, Bool, Option, none, some, arith, Bool-cases, inl, inr}
use skills.Domain.Types.{Status, status, sending, delivered, not_sent, Trigger, Notification}
use skills.Domain.Errors.{Error, is, example_domain}
use skills.Domain.Machine.{lifecycle, permitted}
use skills.Domain.Lifecycle.{Edge}
use skills.World.{State, World}
use skills.Environment.{Env, IsStateless}
use skills.Store.{Store}
use skills.Store.Contract.{Updates, IsStore}
use skills.Firing.{store_machine}
use skills.Worker.{fire_and_log, soft_fail, conclude}
use skills.Worker.Changes.{
  Change, Changes, Changes-same, Reaches, broadcast-Changes, log-Changes, fire-Changes,
  fired-permitted, fire_and_log-Changes, give_up-Changes,
}

pub soft_fail_guard :
    (limit count : ℕ) (s d : Status)
    → permitted (lifecycle limit count) s Trigger.soft_fail ≡ some d
    → count < limit
unfolding permitted lifecycle
soft_fail_guard limit count s d h = ground arith

abbrev retried : Notification → Notification
retried n = record n { status = not_sent; retry_count = n.retry_count + 1 }

module _ (env : Env) (store : Store) (law : IsStateless env) (contract : IsStore env store)
    (b : Bool) (n : Notification) (s : State) where
  update-Changes :
      (w : World)
      → Reaches env store law contract b n s w
      → n.retry_count < n.retry_limit
      → Reaches env store law contract b n s (store.update_notification (retried n) w).1
  update-Changes w c l = go (contract.update (retried n) w)
    where
      go :
          Updates env w (retried n) (store.update_notification (retried n) w)
          → Reaches env store law contract b n s (store.update_notification (retried n) w).1
      go (Updates.broken e w1 k r q) = rw r (Changes-same c q)
      go (Updates.updated t m w1 r q) =
          rw r (Changes.change w.state c (Change.counted (retried n) t refl refl refl l q))

  soft_fail-Changes :
      (e : Error) (w : World)
      → Reaches env store law contract b n s w
      → Reaches env store law contract b n s
          (soft_fail env store b (store_machine store n.id n.retry_limit n.retry_count) n e w).1
  unfolding soft_fail
  soft_fail-Changes e w c = go _ refl
    where
      go :
          (r : Option Error × World)
          → env.fire (store_machine store n.id n.retry_limit n.retry_count) Trigger.soft_fail w ≡ r
          → Reaches env store law contract b n s
              (soft_fail env store b (store_machine store n.id n.retry_limit n.retry_count) n e w).1
      go (some x, w1) r =
          rw (r, soft_fail, r)
            (give_up-Changes env store law contract b n s w1 (
              let y = fire-Changes env store law contract b n s Trigger.soft_fail w c in rw r at y))
      go (none, w1) r =
          let (row, d, m, p) =
            fired-permitted env store law contract b n s Trigger.soft_fail w w1 r in
          let l = soft_fail_guard n.retry_limit n.retry_count (status row.status) d p in
          rw (r, soft_fail, r)
            (update-Changes _
              (broadcast-Changes env store law contract b n s not_sent _ (
                log-Changes env store law contract b n s sending not_sent Trigger.soft_fail w1
                  (let y = fire-Changes env store law contract b n s Trigger.soft_fail w c in
                    rw r at y)
                  (Edge.soft_fail l)))
              l)

  pub conclude-Changes :
      (answer : Option Error) (w : World)
      → Reaches env store law contract b n s w
      → Reaches env store law contract b n s
          (conclude env store b (store_machine store n.id n.retry_limit n.retry_count) n answer w).1
  unfolding conclude
  conclude-Changes (some e) w c = elim (Bool-cases (is e example_domain)) [
    | inl p ↦ rw (conclude, p) (give_up-Changes env store law contract b n s w c)
    | inr p ↦ rw (conclude, p) (soft_fail-Changes e w c)
  ]
  conclude-Changes none w c = go _ refl
    where
      fired :
          (e : Option Error) (w1 : World)
          → fire_and_log env store b
              (store_machine store n.id n.retry_limit n.retry_count)
              n
              sending
              Trigger.delivered
              delivered
              w
            ≡ (e, w1)
          → Reaches env store law contract b n s w1
      fired e w1 r =
          let y =
            fire_and_log-Changes env store law contract b n s sending delivered Trigger.delivered w
              c (λ _ _ _ _. Edge.deliver) in
          rw r at y

      go :
          (r : Option Error × World)
          → fire_and_log env store b
              (store_machine store n.id n.retry_limit n.retry_count)
              n
              sending
              Trigger.delivered
              delivered
              w
            ≡ r
          → Reaches env store law contract b n s
              (conclude env store b
                (store_machine store n.id n.retry_limit n.retry_count)
                n
                none
                w).1
      go (none, w1) r =
          rw (r, conclude, r)
            (broadcast-Changes env store law contract b n s delivered w1 (fired none w1 r))
      go (some x, w1) r = rw (r, conclude, r) (fired (some x) w1 r)
