-- ===== src/Hub/Safe.antt =====
-- The hub's invariant, and that no event sequence makes it panic.
use mathlib.Core.List.{◌++◌}
use skills.Prelude.{
  ℕ, suc, ◌+◌, ◌≤◌, ◌<◌, String, true, false, not, ◌≡◌, refl, ◌∙◌, Option, some, List, [], ◌∷◌,
  length, leb, arith, All, Bool-cases, inl, inr,
}
use skills.Hub.{
  Hub, Event, new_hub, put, close_channel, close_client, new_client, register_client,
  unregister_client, drain, step, run, buffer_size, empty_channel,
}
use skills.Hub.Members.{
  member, insert, delete, Distinct, member-delete, length-delete, delete-Distinct,
}
use skills.Hub.Broadcast.{broadcast_to-After}

pub record IsHub (h : Hub) : Type 0 where
  pub distinct : Distinct h.clients
  pub room : length h.clients ≤ h.max_conns
  pub known : (c : ℕ) → member c h.clients ≡ true → c < h.next
  pub closed : (c : ℕ) → c < h.next → (h.channels c).closed ≡ not (member c h.clients)
  pub bounded : (c : ℕ) → length (h.channels c).buffer ≤ buffer_size

-- `range` over a map yields each key once.
abbrev pub IsFair : Event → Type 0
IsFair Event.connect = Unit
IsFair (Event.disconnect c) = Unit
IsFair (Event.broadcast arrange msg) =
    (cs : List ℕ)
    → (Distinct cs → Distinct (arrange cs)) × ((c : ℕ) → member c (arrange cs) ≡ member c cs)
IsFair (Event.write c) = Unit

abbrev pub Goes : Option Hub → ℕ → Type 0
Goes r max_conns = (h1 : Hub) × (r ≡ some h1) × IsHub h1 × (h1.max_conns ≡ max_conns)

pub new_hub-IsHub : (max_conns : ℕ) → IsHub (new_hub max_conns)
unfolding member
new_hub-IsHub max_conns = record {
  distinct = tt;
  room = omega arith;
  known = λ c m. ground arith;
  closed = λ c l. ground arith;
  bounded = λ c. omega arith;
}

pub length-snoc : (xs : List String) (x : String) → length (xs ++ (x ∷ [])) ≡ suc (length xs)
length-snoc [] x = refl
length-snoc (y ∷ xs) x = let h = length-snoc xs x in omega arith

close_client_open :
    (c : ℕ) (h : Hub)
    → (h.channels c).closed ≡ false
    → close_client c h ≡ some (put c (record (h.channels c) { closed = true }) h)
unfolding close_client close_channel
close_client_open c h o = rw (close_client, close_channel, o)

module _ (h : Hub) (i : IsHub h) where
  disconnect-Goes : (c : ℕ) → Goes (unregister_client c h) h.max_conns
  unfolding unregister_client
  disconnect-Goes c = elim (Bool-cases (member c h.clients)) [
    | inr m ↦ (h, rw m, i, refl)
    | inl m ↦
        let is_open : (h.channels c).closed ≡ false =
          (let k = i.known c m in let o = i.closed c k in ground arith) in
        (
          put c (record (h.channels c) { closed = true })
              (record h { clients = delete c h.clients }),
          rw m (close_client_open c (record h { clients = delete c h.clients }) is_open),
          record {
            distinct = delete-Distinct c h.clients i.distinct;
            room = (let x = i.room in let y = length-delete c h.clients in omega arith);
            known =
                λ d n. (let x = member-delete c d h.clients in let y = i.known d in ground arith);
            closed = λ d l.
                (let x = member-delete c d h.clients in let y = i.closed d l in ground arith);
            bounded = λ d. (let x = i.bounded c in let y = i.bounded d in ground arith);
          },
          refl,
        )
  ]

  connect-Goes : Goes (step Event.connect h) h.max_conns
  unfolding step new_client register_client member insert
  connect-Goes = elim (Bool-cases (leb h.max_conns (length h.clients))) [
    | inl f ↦ (
      put h.next (record ((put h.next empty_channel h).channels h.next) { closed = true })
          (record (put h.next empty_channel h) { next = h.next + 1 }),
      rw (register_client, f)
          (close_client_open h.next (record (put h.next empty_channel h) { next = h.next + 1 })
            (ground arith)),
      record {
        distinct = i.distinct;
        room = i.room;
        known = λ d n. (let y = i.known d n in omega arith);
        closed = λ d l. (let x = i.known d in let y = i.closed d in ground arith);
        bounded = λ d. (let y = i.bounded d in ground arith);
      },
      refl,
    )
    | inr f ↦ (
      record (put h.next empty_channel h) { next = h.next + 1; clients = h.next ∷ h.clients },
      rw (register_client, f, insert) (let x = i.known h.next in ground arith),
      record {
        distinct = ((let x = i.known h.next in ground arith), i.distinct);
        room = (let x = i.room in ground arith);
        known = λ d n. (let y = i.known d in ground arith);
        closed = λ d l. (let x = i.known d in let y = i.closed d in ground arith);
        bounded = λ d. (let y = i.bounded d in ground arith);
      },
      refl,
    )
  ]

  write-Goes : (c : ℕ) → Goes (step (Event.write c) h) h.max_conns
  unfolding step drain
  write-Goes c = go (h.channels c).buffer refl
    where
      go : (b : List String) → (h.channels c).buffer ≡ b → Goes (some (drain c h)) h.max_conns
      go [] e = (h, rw (drain, e), i, refl)
      go (msg ∷ rest) e = (
        put c (record (h.channels c) { buffer = rest }) h,
        rw (drain, e),
        record {
          distinct = i.distinct;
          room = i.room;
          known = i.known;
          closed = λ d l. (let y = i.closed d in ground arith);
          bounded = λ d. (let x = i.bounded c in let y = i.bounded d in ground arith);
        },
        refl,
      )

  broadcast-Goes :
      (arrange : List ℕ → List ℕ) (msg : String)
      → IsFair (Event.broadcast arrange msg)
      → Goes (step (Event.broadcast arrange msg) h) h.max_conns
  unfolding step
  broadcast-Goes arrange msg fair =
      let (u, m) = fair h.clients in
      let (h1, e, a) =
        broadcast_to-After msg (arrange h.clients) h (u i.distinct)
          (λ c n. let x = m c in let k = i.known c in let o = i.closed c in ground arith) in
      (
        h1,
        e,
        record {
          distinct = a.distinct i.distinct;
          room = (let x = a.fewer in let y = i.room in let z = a.max_conns in omega arith);
          known =
              λ c n. (let x = a.clients c in let y = i.known c in let z = a.next in ground arith);
          closed = λ c l.
              (let x = a.channels c in
                let y = a.clients c in
                let z = i.closed c in let n = m c in let t = a.next in ground arith);
          bounded = λ c.
              (let x = a.channels c in
                let y = i.bounded c in
                let z = length-snoc (h.channels c).buffer msg in ground arith);
        },
        a.max_conns,
      )

  pub step-Goes : (e : Event) → IsFair e → Goes (step e h) h.max_conns
  unfolding step
  step-Goes Event.connect f = connect-Goes
  step-Goes (Event.disconnect c) f = disconnect-Goes c
  step-Goes (Event.broadcast arrange msg) f = broadcast-Goes arrange msg f
  step-Goes (Event.write c) f = write-Goes c

pub run-step :
    (e : Event) (events : List Event) (h h1 : Hub)
    → step e h ≡ some h1
    → run (e ∷ events) h ≡ run events h1
unfolding run
run-step e events h h1 r = rw (run, r)

run-Goes :
    (events : List Event) (h : Hub) → IsHub h → All IsFair events → Goes (run events h) h.max_conns
unfolding run
run-Goes [] h i f = (h, refl, i, refl)
run-Goes (e ∷ events) h i (f, fs) =
    let (h1, r, i1, m) = step-Goes h i e f in
    let (h2, r2, i2, m2) = run-Goes events h1 i1 fs in
    (h2, run-step e events h h1 r ∙ r2, i2, m2 ∙ m)

-- From a new hub, any sequence of connections, disconnections, writes and broadcasts, each over
-- every client once in any order, runs to its end: no channel is closed twice, and nothing is sent
-- on a closed one. Then no more than `max_conns` clients are registered, each once; a connection's
-- channel is closed exactly when it is not registered; and no channel holds more than 256
-- messages.
pub run-IsHub :
    (max_conns : ℕ) (events : List Event)
    → All IsFair events
    → (h : Hub) × (run events (new_hub max_conns) ≡ some h) × IsHub h × (h.max_conns ≡ max_conns)
run-IsHub max_conns events fair = run-Goes events (new_hub max_conns) (new_hub-IsHub max_conns) fair
