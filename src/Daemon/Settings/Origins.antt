-- ===== src/Daemon/Settings/Origins.antt =====
-- The origins that a WebSocket connection may come from.
use skills.Prelude.{
  true, Bool, String, false, ◌≡◌, ◌≢◌, ◌⊎◌, refl, List, [], ◌∷◌, same, if◌then◌else◌, All, arith,
  Bool-cases, inl, inr,
}
use skills.Prelude.Strings.{split}
use skills.Config.{Koanf, Os}
use skills.Daemon.Settings.{
  nonblank, or_else, default_origins, origins_of_env, resolve_allowed_origins,
}

nonblank-All :
    (trim_space : String → String) (pieces : List String)
    → All (λ o. same o "" ≡ false) (nonblank trim_space pieces)
unfolding nonblank
nonblank-All trim_space [] = tt
nonblank-All trim_space (o ∷ pieces) = elim (Bool-cases (same (trim_space o) "")) [
  | inl e ↦ rw e (nonblank-All trim_space pieces)
  | inr e ↦ rw e (e, nonblank-All trim_space pieces)
]

or_else-All :
    (P : String → Type 0) (xs ys : List String) → All P xs → All P ys → All P (or_else xs ys)
or_else-All P [] ys h k = k
or_else-All P (x ∷ xs) ys h k = h

or_else-ne-nil : (xs ys : List String) → ys ≢ [] → or_else xs ys ≢ []
or_else-ne-nil [] ys h = h
or_else-ne-nil (x ∷ xs) ys h = λ e. ground arith

module _ {K : Type 0} (koanf : Koanf K) (k : K) (os : Os) (trim_space : String → String) where
  origins_of_env-All : All (λ o. same o "" ≡ false) (origins_of_env koanf k os trim_space)
  unfolding origins_of_env
  origins_of_env-All = elim (Bool-cases (same (os.getenv "NOTIFIER_WS_ALLOWED_ORIGINS") "")) [
    | inl e ↦ rw e tt
    | inr e ↦ rw e (nonblank-All trim_space (split (os.getenv "NOTIFIER_WS_ALLOWED_ORIGINS") ","))
  ]

  -- Whatever the configuration and the environment hold, there is at least one allowed origin;
  -- and no allowed origin is empty, or they are the list that the configuration names.
  pub resolve_allowed_origins-usable :
      (resolve_allowed_origins koanf k os trim_space ≢ [])
      × (All (λ o. same o "" ≡ false) (resolve_allowed_origins koanf k os trim_space)
          ⊎ ((koanf.exists k "ws.allowed_origins" ≡ true)
              × (resolve_allowed_origins koanf k os trim_space
                  ≡ koanf.strings k "ws.allowed_origins")))
  unfolding resolve_allowed_origins same
  resolve_allowed_origins-usable = (
    or_else-ne-nil
        (if koanf.exists k "ws.allowed_origins" then koanf.strings k "ws.allowed_origins" else [])
        (or_else (origins_of_env koanf k os trim_space) default_origins)
        (or_else-ne-nil (origins_of_env koanf k os trim_space) default_origins (λ e. ground arith)),
    elim (Bool-cases (koanf.exists k "ws.allowed_origins")) [
      | inl p ↦ rw p (
          configured_or (koanf.strings k "ws.allowed_origins")
            (or_else (origins_of_env koanf k os trim_space) default_origins)
            (or_else-All (λ o. same o "" ≡ false) (origins_of_env koanf k os trim_space)
              default_origins origins_of_env-All (refl, (refl, tt))))
      | inr p ↦ rw p (
          inl (
            or_else-All (λ o. same o "" ≡ false) (origins_of_env koanf k os trim_space)
              default_origins origins_of_env-All (refl, (refl, tt))))
    ],
  )
    where
      configured_or :
          (xs : List String) (ys : List String)
          → All (λ o. same o "" ≡ false) ys
          → All (λ o. same o "" ≡ false) (or_else xs ys)
            ⊎ (◌≡◌ {A = Bool} true true × (or_else xs ys ≡ xs))
      configured_or [] ys h = inl h
      configured_or (x ∷ xs) ys h = inr (refl, refl)
