-- ===== src/Daemon/Server/Releases.antt =====
-- Every run of the daemon keeps the protocol of its resources.
use text.Mathlib.Text.{starts_with}
use skills.Prelude.{
  ℕ, String, Bool, true, false, not, ◌&&◌, ◌≡◌, ◌⊎◌, inl, inr, refl, sym, subst, ◌∙◌, none, some,
  List, [], ◌∷◌, ◌++◌, same, same_iff, if◌then◌else◌, arith, Option-cases,
}
use skills.Domain.Errors.{Error, wrap}
use skills.Config.{Os}
use skills.Daemon.Server.{
  ServerConfig, Services, Effect, opened_store, fails, deferring, after, cancelled_hub,
  cancelled_runner, closed_store, returned, Run, shutdown_timeout, with_frontend, with_workers,
  with_store, effective_dsn, run_server,
}
use skills.Daemon.Server.Protocol.{
  Held, nothing, released, keeps, all_held, then_keeps, keeps-append,
}
use skills.Daemon.Server.Serving.{after_shutdown, with_frontend-Serves}

module _ (s : Services) (cfg : ServerConfig) (strict : Bool) (shown : String → ℕ → String) where
  -- The deferred functions, the last one first.
  keeps_deferred :
      (effects : List Effect) (h : Held)
      → keeps strict all_held effects ≡ some h
      → keeps strict all_held
          (((effects ++ (cancelled_runner ∷ [])) ++ (cancelled_hub ∷ [])) ++ (closed_store ∷ []))
        ≡ then_keeps strict
            (closed_store ∷ [])
            (then_keeps strict (cancelled_hub ∷ []) (keeps strict h (cancelled_runner ∷ [])))
  keeps_deferred effects h e = rw (
    keeps-append strict all_held ((effects ++ (cancelled_runner ∷ [])) ++ (cancelled_hub ∷ []))
        (closed_store ∷ []),
    keeps-append strict all_held (effects ++ (cancelled_runner ∷ [])) (cancelled_hub ∷ []),
    keeps-append strict all_held effects (cancelled_runner ∷ []),
    e,
  )

  with_workers-keeps :
      (dsn : String)
      → keeps strict nothing
          ((opened_store dsn ∷ (with_workers s cfg shown).1) ++ (closed_store ∷ []))
        ≡ keeps strict all_held (
            (((with_frontend s cfg shown).1 ++ (cancelled_runner ∷ [])) ++ (cancelled_hub ∷ []))
            ++ (closed_store ∷ []))
  unfolding with_workers keeps
  with_workers-keeps dsn = refl

-- The two protocols on a run.
pub record Keeps (s : Services) (cfg : ServerConfig) (r : Run) : Type 0 where
  pub all_released : (r.1 ≡ []) ⊎ (keeps false nothing r.1 ≡ some released)
  pub jobs_at_end :
      r.0 ≡ returned none
      → keeps true nothing r.1
        ≡ (if s.runner_done (shutdown_timeout cfg) then some released else none)
  pub jobs_after_error :
      (e : Error) → r.0 ≡ returned (some (wrap "server error" e)) → keeps true nothing r.1 ≡ none

other_text :
    (text : String) (e f : Error)
    → same text "server error" ≡ false
    → returned (some (wrap text e)) ≡ returned (some (wrap "server error" f))
    → ⊥
other_text text e f d h = ground (arith, same_iff text "server error")

module _ (s : Services) (cfg : ServerConfig) (shown : String → ℕ → String) (dsn : String) where
  abbrev Started : Run → Type 0
  Started r = Keeps s cfg (deferring closed_store (after (opened_store dsn ∷ []) r))

  failed_early :
      (text : String) (e : Error) → same text "server error" ≡ false → Started (fails text e)
  unfolding keeps
  failed_early text e d = record {
    all_released = inr refl;
    jobs_at_end = λ h. absurd (ground arith);
    jobs_after_error = λ f h. absurd (other_text text e f d h);
  }

  abbrev whole : List Effect
  whole = (opened_store dsn ∷ (with_workers s cfg shown).1) ++ (closed_store ∷ [])

  abbrev front : Run
  front = with_frontend s cfg shown

  whole_failed :
      (strict over : Bool)
      → keeps strict all_held front.1 ≡ some (record all_held { over = over })
      → keeps strict nothing whole ≡ (if strict then none else some released)
  unfolding keeps
  whole_failed strict over k =
      with_workers-keeps s cfg strict shown dsn
      ∙ keeps_deferred s cfg strict shown front.1 (record all_held { over = over }) k
      ∙ ground arith

  whole_shut :
      (strict : Bool)
      → keeps strict all_held front.1 ≡ some (after_shutdown s cfg strict)
      → keeps strict nothing whole
        ≡ (if strict && not (s.runner_done (shutdown_timeout cfg)) then none else some released)
  unfolding keeps
  whole_shut strict k =
      with_workers-keeps s cfg strict shown dsn
      ∙ keeps_deferred s cfg strict shown front.1 (after_shutdown s cfg strict) k
      ∙ ground arith

  with_workers-Started : Started (with_workers s cfg shown)
  unfolding with_workers with_frontend
  with_workers-Started = record {
    all_released = elim (with_frontend-Serves s cfg false shown) [
      | inl (over, k, n) ↦ inr (whole_failed false over k)
      | inr (k, r) ↦ inr (whole_shut false k)
    ];
    jobs_at_end = λ h. elim (with_frontend-Serves s cfg true shown) [
      | inl (over, k, n) ↦ absurd (n (same_ending ∙ h))
      | inr (k, r) ↦ whole_shut true k ∙ ground arith
    ];
    jobs_after_error = λ e h. elim (with_frontend-Serves s cfg true shown) [
      | inl (over, k, n) ↦ whole_failed true over k
      | inr (k, r) ↦ absurd (let q = sym r ∙ same_ending ∙ h in ground arith)
    ];
  }
    where
      same_ending : front.0 ≡ (with_workers s cfg shown).0
      same_ending = refl

  with_store-Started : Started (with_store s cfg shown dsn)
  unfolding with_store same
  with_store-Started =
      let stage =
        λ (r : Run) (e : with_store s cfg shown dsn ≡ r) (t : Started r). subst Started (sym e) t in
      elim (Option-cases (s.run_seed (starts_with dsn "postgres"))) [
        | inr (e, p) ↦ stage (fails "run seed" e) (ground arith) (failed_early "run seed" e refl)
        | inl p ↦ elim (Option-cases (s.new_queue (starts_with dsn "postgres"))) [
          | inr (e, q) ↦
              stage (fails "create notification queue" e) (ground arith)
                (failed_early "create notification queue" e refl)
          | inl q ↦ elim (Option-cases (s.new_sender cfg.smtp_host cfg.smtp_port cfg.smtp_from)) [
            | inr (e, t) ↦
                stage (fails "create smtp sender" e) (ground arith)
                  (failed_early "create smtp sender" e refl)
            | inl t ↦ stage (with_workers s cfg shown) (ground arith) with_workers-Started
          ]
        ]
      ]

-- However its parts answer, a run of the daemon acquires nothing, or keeps the protocol to an end
-- at which nothing is held: the store comes first, the listener after the store, the hub and the
-- runner, and each is acquired once at most; the server listens only while these three are there,
-- and it has stopped, once, before the hub or the runner is cancelled; both are cancelled before
-- the store is closed, once. A run that ends without an error closes the store with no job left
-- exactly when the runner ended within the timeout; one that ends with an error of the HTTP
-- server closes it while a job may still run.
pub run_server-Keeps :
    (s : Services) (cfg : ServerConfig) (os : Os) (qa : Bool) (shown : String → ℕ → String)
    → Keeps s cfg (run_server s cfg os qa shown)
unfolding run_server keeps same
run_server-Keeps s cfg os qa shown =
    let dsn = effective_dsn s cfg os qa in
    let stage = λ (r : Run) (e : run_server s cfg os qa shown ≡ r) (t : Keeps s cfg r).
      subst (Keeps s cfg) (sym e) t in
    elim (Option-cases (s.open_db dsn)) [
      | inr (e, p) ↦ stage (fails "open store" e) (ground arith) (record {
        all_released = inl refl;
        jobs_at_end = λ h. absurd (ground arith);
        jobs_after_error = λ f h. absurd (other_text "open store" e f refl h);
      })
      | inl p ↦
          stage
            (deferring closed_store (after (opened_store dsn ∷ []) (with_store s cfg shown dsn)))
            (ground arith) (with_store-Started s cfg shown dsn)
    ]
