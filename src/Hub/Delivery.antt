-- ===== src/Hub/Delivery.antt =====
-- What a client of the hub gets.
use mathlib.Core.List.{append_assoc, append-nil}
use skills.Prelude.{
  ◌⊎◌, Bool-cases, inl, inr, false, ℕ, ◌≤◌, ◌<◌, String, true, ◌≡◌, refl, sym, ap, subst, ◌∙◌, none,
  some, List, [], ◌∷◌, ◌++◌, ◌==◌, if◌then◌else◌, arith, All,
}
use skills.Hub.{
  Hub, Event, new_client, register_client, unregister_client, close_client, close_channel, drain,
  step, run,
}
use skills.Hub.Members.{member, insert, member-delete}
use skills.Hub.Broadcast.{broadcast_to-After}
use skills.Hub.Safe.{IsHub, IsFair, step-Goes, run-step}

abbrev pub first : List String → List String
first [] = []
first (msg ∷ rest) = msg ∷ []

-- What an event writes to the connection `c`, and what it says to all.
unfoldable pub written : Event → ℕ → Hub → List String
written (Event.write d) c h = if d == c then first (h.channels c).buffer else []
written Event.connect c h = []
written (Event.disconnect d) c h = []
written (Event.broadcast arrange msg) c h = []

unfoldable pub said : Event → List String
said (Event.broadcast arrange msg) = msg ∷ []
said Event.connect = []
said (Event.disconnect d) = []
said (Event.write d) = []

-- What a run writes to the connection, and all that is broadcast in it.
unfoldable pub delivered : ℕ → List Event → Hub → List String
unfolding written
delivered c [] h = []
delivered c (e ∷ events) h =
    written e c h ++ (elim (step e h) [ none ↦ [] | some h1 ↦ delivered c events h1 ])

unfoldable pub broadcasts : List Event → List String
unfolding said
broadcasts [] = []
broadcasts (e ∷ events) = said e ++ broadcasts events

-- One event, for a connection that is registered after it.
pub record Hands (e : Event) (c : ℕ) (h h1 : Hub) : Type 0 where
  pub grows : h.next ≤ h1.next
  pub kept :
      member c h1.clients ≡ true
      → (member c h.clients ≡ true)
        × (written e c h ++ (h1.channels c).buffer ≡ (h.channels c).buffer ++ said e)

module _ (c : ℕ) (h h1 : Hub) (i : IsHub h) (known : c < h.next) where
  write-Hands : (d : ℕ) → step (Event.write d) h ≡ some h1 → Hands (Event.write d) c h h1
  unfolding step drain written said
  write-Hands d e = go (h.channels d).buffer refl
    where
      go : (b : List String) → (h.channels d).buffer ≡ b → Hands (Event.write d) c h h1
      go [] k = record {
        grows = ground arith;
        kept = λ m. (ground arith, ground (arith, append-nil (h.channels c).buffer));
      }
      go (msg ∷ rest) k = record {
        grows = ground arith;
        kept = λ m. (ground arith, ground (arith, append-nil (h.channels c).buffer));
      }

  disconnect-Hands :
      (d : ℕ) → step (Event.disconnect d) h ≡ some h1 → Hands (Event.disconnect d) c h h1
  unfolding step unregister_client close_client close_channel written said
  disconnect-Hands d e = record {
    grows = ground arith;
    kept = λ m.
        let x = member-delete d c h.clients in
        (ground arith, ground (arith, append-nil (h.channels c).buffer));
  }

  connect-Hands : step Event.connect h ≡ some h1 → Hands Event.connect c h h1
  unfolding step new_client register_client insert member close_client close_channel written said
  connect-Hands e = record {
    grows = ground arith;
    kept = λ m. (ground arith, ground (arith, append-nil (h.channels c).buffer));
  }

  broadcast-Hands :
      (arrange : List ℕ → List ℕ) (msg : String)
      → IsFair (Event.broadcast arrange msg)
      → step (Event.broadcast arrange msg) h ≡ some h1
      → Hands (Event.broadcast arrange msg) c h h1
  unfolding step written said
  broadcast-Hands arrange msg fair e =
      let (u, m) = fair h.clients in
      let (h2, e2, a) =
        broadcast_to-After msg (arrange h.clients) h (u i.distinct)
          (λ d n. let x = m d in let k = i.known d in let o = i.closed d in ground arith) in
      let same : h2 ≡ h1 = ground arith in
      subst (λ x. Hands (Event.broadcast arrange msg) c h x) same
        (record {
          grows = (let z = a.next in omega arith);
          kept = λ n. (
            (let x = a.clients c in ground arith),
            (let x = a.clients c in let y = a.channels c in let z = m c in ground arith),
          );
        })

  pub step-Hands : (e : Event) → IsFair e → step e h ≡ some h1 → Hands e c h h1
  step-Hands (Event.write d) f e = write-Hands d e
  step-Hands (Event.disconnect d) f e = disconnect-Hands d e
  step-Hands Event.connect f e = connect-Hands e
  step-Hands (Event.broadcast arrange msg) f e = broadcast-Hands arrange msg f e

joined :
    (a b x y z s t : List String)
    → a ++ y ≡ x ++ s
    → b ++ z ≡ y ++ t
    → (a ++ b) ++ z ≡ x ++ (s ++ t)
joined a b x y z s t p q = rw (append_assoc a b z, q, ← append_assoc a y t, p) (append_assoc x s t)

delivered-step :
    (c : ℕ) (e : Event) (events : List Event) (h h1 : Hub)
    → step e h ≡ some h1
    → delivered c (e ∷ events) h ≡ written e c h ++ delivered c events h1
unfolding delivered
delivered-step c e events h h1 r = rw (delivered, r)

run-delivered' :
    (c : ℕ) (events : List Event) (h : Hub)
    → IsHub h
    → c < h.next
    → All IsFair events
    → (h1 : Hub) × (run events h ≡ some h1)
      × (member c h1.clients ≡ true
          → (member c h.clients ≡ true)
            × (delivered c events h ++ (h1.channels c).buffer
                ≡ (h.channels c).buffer ++ broadcasts events))
unfolding delivered broadcasts run
run-delivered' c [] h i known fair = (h, refl, λ m. (m, sym (append-nil (h.channels c).buffer)))
run-delivered' c (e ∷ events) h i known (f, fair) =
    let (h1, r, i1, same) = step-Goes h i e f in
    let hands = step-Hands c h h1 i known e f r in
    let (h2, r2, rest) = run-delivered' c events h1 i1 (let g = hands.grows in omega arith) fair in
    (
      h2,
      run-step e events h h1 r ∙ r2,
      λ m.
          let (m1, later) = rest m in
          let (m0, now) = hands.kept m1 in
          (
            m0,
            ap (λ xs. xs ++ (h2.channels c).buffer) (delivered-step c e events h h1 r)
                ∙ joined (written e c h) (delivered c events h1) (h.channels c).buffer
                    (h1.channels c).buffer (h2.channels c).buffer (said e) (broadcasts events) now
                    later,
          ),
    )

-- From a hub that keeps its invariant, any further events, each broadcast over every client once,
-- run to their end; and a connection that exists at the start is not registered at the end, or it
-- was at the start too, and what was written to it, followed by what still waits in its channel,
-- is what waited at the start followed by every message that was broadcast, in order and each
-- once. A client that is never dropped thus misses nothing.
pub run-delivered :
    (c : ℕ) (events : List Event) (h : Hub)
    → IsHub h
    → c < h.next
    → All IsFair events
    → (h1 : Hub) × (run events h ≡ some h1)
      × ((member c h1.clients ≡ false)
          ⊎ ((member c h.clients ≡ true)
              × (delivered c events h ++ (h1.channels c).buffer
                  ≡ (h.channels c).buffer ++ broadcasts events)))
run-delivered c events h i known fair =
    let (h1, r, kept) = run-delivered' c events h i known fair in
    (h1, r, elim (Bool-cases (member c h1.clients)) [ inl m ↦ inr (kept m) | inr m ↦ inl m ])
