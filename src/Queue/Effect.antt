-- ===== src/Queue/Effect.antt =====
-- `Enqueue` writes one job or fails in the driver.
use skills.Prelude.{String, refl, ◌∷◌, inl, inr}
use skills.World.{World}
use skills.Environment.{Env}
use skills.Database.{statement-cases}
use skills.Store.Contract.{Writes}
use skills.Queue.{create_job, enqueue}

pub enqueue-Writes :
    (env : Env) (payload : String) (w : World)
    → Writes env w (λ _. record w.state { queue = payload ∷ w.state.queue }) (enqueue env payload w)
unfolding enqueue
enqueue-Writes env payload w = elim (statement-cases env (create_job payload) w) [
  | inl (text, k, e) ↦ rw (e, enqueue, e) (Writes.broken _ _ (_, text, k) refl refl)
  | inr e ↦ rw (e, enqueue, e) (Writes.written 0 _ refl refl)
]
