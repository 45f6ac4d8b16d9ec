-- ===== src/Email/Console/Verdicts.antt =====
-- How the worker takes what the sender of QA builds answers, whatever the order in which Go visits
-- the map of simulated domains.
use skills.Prelude.{
  ℕ, ◌*◌, String, true, false, ◌≡◌, ◌↔◌, ◌⊎◌, refl, sym, ap, subst, ◌∙◌, Option, none, some, List,
  [], ◌∷◌, same, if◌then◌else◌, arith, Bool-cases, Option-cases, inl, inr,
}
use skills.Prelude.Suffix.{has_suffix, has_suffix-both}
use skills.Domain.Types.{EmailMessage}
use skills.Domain.Errors.{Error, is}
use skills.Email.Console.{
  second, send_delay, DomainAction, example_action, fail_action, slow_action, simulated_domains,
  Effect, match_address, match_domain, after_delay, act, send,
}
use skills.Email.Smtp.{is_foreign}
use skills.Worker.Attempt.{permanent, transient, verdict}

abbrev pub Entry : Type 0
Entry = String × DomainAction

abbrev pub In : Entry → List Entry → Type 0
In e [] = ⊥
In e (x ∷ xs) = (e ≡ x) ⊎ In e xs

-- The map in some order: the same entries.
abbrev pub Visits : List Entry → Type 0
Visits domains = (e : Entry) → In e domains ↔ In e simulated_domains

-- A match is an entry that ends the address; without one no entry does.
match_address-some :
    (domains : List Entry) (lower : String) (a : DomainAction)
    → match_address domains lower ≡ some a
    → (suffix : String) × In (suffix, a) domains × (has_suffix lower suffix ≡ true)
unfolding match_address
match_address-some [] lower a h = absurd (ground arith)
match_address-some ((suffix, action) ∷ domains) lower a h =
    elim (Bool-cases (has_suffix lower suffix)) [
      | inl e ↦ let same : action ≡ a = ground arith in (suffix, inl (λ i. (suffix, sym same i)), e)
      | inr e ↦ let (s, i, k) = match_address-some domains lower a (rw e at h) in (s, inr i, k)
    ]

match_address-none :
    (domains : List Entry) (lower : String) (e : Entry)
    → match_address domains lower ≡ none
    → In e domains
    → has_suffix lower e.0 ≡ false
unfolding match_address
match_address-none [] lower e h i = absurd i
match_address-none ((suffix, action) ∷ domains) lower e h (inl p) =
    subst (λ x. has_suffix lower x.0 ≡ false) (sym p) (ground arith)
match_address-none ((suffix, action) ∷ domains) lower e h (inr i) =
    match_address-none domains lower e (ground arith) i

-- The domains of a map of which no one is an ending of another.
module _ (domains : List Entry) (visits : Visits domains) (lower : String) where
  exclusive :
      (s t : String)
      → has_suffix s t ≡ false
      → has_suffix t s ≡ false
      → has_suffix lower s ≡ true
      → has_suffix lower t ≡ false
  exclusive s t st ts h = elim (Bool-cases (has_suffix lower t)) [
    | inr k ↦ k
    | inl k ↦ elim (has_suffix-both lower s t h k) [
      | inl p ↦ absurd (ground arith)
      | inr p ↦ absurd (ground arith)
    ]
  ]

  example_fail : has_suffix lower "@example.com" ≡ true → has_suffix lower "@fail.com" ≡ false
  unfolding has_suffix same
  example_fail = exclusive "@example.com" "@fail.com" refl refl

  example_slow : has_suffix lower "@example.com" ≡ true → has_suffix lower "@slow.com" ≡ false
  unfolding has_suffix same
  example_slow = exclusive "@example.com" "@slow.com" refl refl

  fail_slow : has_suffix lower "@fail.com" ≡ true → has_suffix lower "@slow.com" ≡ false
  unfolding has_suffix same
  fail_slow = exclusive "@fail.com" "@slow.com" refl refl

  abbrev expected : Option DomainAction
  expected =
      if has_suffix lower "@example.com"
      then some example_action
      else if has_suffix lower "@fail.com"
      then some fail_action
      else if has_suffix lower "@slow.com"
      then some slow_action
      else none

  by_entry :
      (suffix : String) (a : DomainAction)
      → In (suffix, a) simulated_domains
      → has_suffix lower suffix ≡ true
      → some a ≡ expected
  by_entry suffix a (inl p) h =
      let h' : has_suffix lower "@example.com" ≡ true =
        subst (λ x. has_suffix lower x ≡ true) (ap (λ (x : Entry). x.0) p) h in
      let a' : a ≡ example_action = ap (λ (x : Entry). x.1) p in rw (h', a')
  by_entry suffix a (inr (inl p)) h =
      let h' : has_suffix lower "@fail.com" ≡ true =
        subst (λ x. has_suffix lower x ≡ true) (ap (λ (x : Entry). x.0) p) h in
      let a' : a ≡ fail_action = ap (λ (x : Entry). x.1) p in
      let other : has_suffix lower "@example.com" ≡ false = ground (arith, example_fail) in
      rw (other, h', a')
  by_entry suffix a (inr (inr (inl p))) h =
      let h' : has_suffix lower "@slow.com" ≡ true =
        subst (λ x. has_suffix lower x ≡ true) (ap (λ (x : Entry). x.0) p) h in
      let a' : a ≡ slow_action = ap (λ (x : Entry). x.1) p in
      let other : has_suffix lower "@example.com" ≡ false = ground (arith, example_slow) in
      let third : has_suffix lower "@fail.com" ≡ false = ground (arith, fail_slow) in
      rw (other, third, h', a')
  by_entry suffix a (inr (inr (inr p))) h = absurd p

  -- Whatever the order of the range.
  match_address-eq : match_address domains lower ≡ expected
  match_address-eq = elim (Option-cases (match_address domains lower)) [
    | inl n ↦
        let no = λ (e : Entry) (i : In e simulated_domains).
          match_address-none domains lower e n ((visits e).1 i) in
        rw (
          n,
          no ("@example.com", example_action) (inl refl),
          no ("@fail.com", fail_action) (inr (inl refl)),
          no ("@slow.com", slow_action) (inr (inr (inl refl))),
        )
    | inr (a, m) ↦
        let (s, i, k) = match_address-some domains lower a m in
        m ∙ by_entry s a ((visits (s, a)).0 i) k
  ]

-- What a message to one address of the form `lower`, in lower case, brings about.
pub record Simulates (done : ℕ → Option Error) (lower : String) (r : Option Error × List Effect)
    : Type 0 where
  pub permanently : (verdict r.0 ≡ permanent) ↔ (has_suffix lower "@example.com" ≡ true)
  pub fails : has_suffix lower "@fail.com" ≡ true → verdict r.0 ≡ transient
  pub slowly : has_suffix lower "@slow.com" ≡ true → r.0 ≡ done (30 * second)
  pub normally :
      has_suffix lower "@example.com" ≡ false
      → has_suffix lower "@fail.com" ≡ false
      → has_suffix lower "@slow.com" ≡ false
      → r.0 ≡ done send_delay

module _ (to_lower : String → String) (done : ℕ → Option Error)
    (foreign : (d : ℕ) → is_foreign (done d) ≡ true) (domains : List Entry)
    (visits : Visits domains) (msg : EmailMessage) (addr : String) (one : msg.to ≡ addr ∷ []) where
  abbrev lower : String
  lower = to_lower addr

  matched : match_domain to_lower done domains msg.to ≡ expected domains visits lower
  unfolding match_domain
  matched = rw one (ground (arith, match_address-eq domains visits lower))

  -- Where the context's errors are not `ErrExampleDomain`, the range visits the map in any order
  -- and the message has one recipient: the worker takes the answer for a permanent failure
  -- exactly when the lowered address ends in @example.com, and for a transient one if it ends in
  -- @fail.com; to @slow.com it is a success unless the context ends within 30 seconds, and to
  -- every other address unless it ends within the send delay.
  pub send-Simulates : Simulates done lower (send to_lower done domains msg)
  unfolding send after_delay act verdict is
  send-Simulates = record {
    permanently = (
      (λ h. ground (arith, matched, foreign (30 * second), foreign send_delay)),
      (λ h. ground (arith, matched)),
    );
    fails = λ h. ground (arith, matched, example_fail domains visits lower);
    slowly = λ h.
        ground (arith, matched, example_slow domains visits lower, fail_slow domains visits lower);
    normally = λ h k l. ground (arith, matched);
  }
