-- ===== src/Hub/Broadcast.antt =====
-- The broadcast loop, client by client.
use skills.Prelude.{
  ℕ, ◌≤◌, String, true, false, ◌&&◌, not, ◌≡◌, refl, ◌∙◌, some, List, [], ◌∷◌, ◌++◌, length,
  if◌then◌else◌, arith, Bool-cases, inl, inr,
}
use skills.Hub.{Hub, Channel, is_full, put, close_channel, close_client, try_send, broadcast_to}
use skills.Hub.Members.{member, delete, Distinct, member-delete, length-delete, delete-Distinct}

-- What a message does to one channel: it is appended, or the channel is full and is closed.
abbrev pub hear : String → Channel → Channel
hear msg ch =
    if is_full ch
    then record ch { closed = true }
    else record ch { buffer = ch.buffer ++ (msg ∷ []) }

-- The hub `h1` after `msg` went to the clients of `order`, from the hub `h`.
pub record After (msg : String) (order : List ℕ) (h h1 : Hub) : Type 0 where
  pub channels :
      (c : ℕ) → h1.channels c ≡ (if member c order then hear msg (h.channels c) else h.channels c)
  pub clients :
      (c : ℕ)
      → member c h1.clients ≡ (member c h.clients && not (member c order && is_full (h.channels c)))
  pub distinct : Distinct h.clients → Distinct h1.clients
  pub fewer : length h1.clients ≤ length h.clients
  pub max_conns : h1.max_conns ≡ h.max_conns
  pub next : h1.next ≡ h.next

abbrev dropped : ℕ → Hub → Hub
dropped c h =
    put c (record (h.channels c) { closed = true }) (record h { clients = delete c h.clients })

abbrev reached : String → ℕ → Hub → Hub
reached msg c h = put c (record (h.channels c) { buffer = (h.channels c).buffer ++ (msg ∷ []) }) h

module _ (msg : String) (c : ℕ) (order : List ℕ) (h : Hub)
    (is_open : (h.channels c).closed ≡ false) where
  broadcast_to_full :
      is_full (h.channels c) ≡ true
      → broadcast_to msg (c ∷ order) h ≡ broadcast_to msg order (dropped c h)
  unfolding broadcast_to try_send close_client close_channel
  broadcast_to_full f =
      rw (broadcast_to, try_send, is_open, f, close_client, close_channel, is_open)

  broadcast_to_open :
      is_full (h.channels c) ≡ false
      → broadcast_to msg (c ∷ order) h ≡ broadcast_to msg order (reached msg c h)
  unfolding broadcast_to try_send
  broadcast_to_open f = rw (broadcast_to, try_send, is_open, f)

  module _ (fresh : member c order ≡ false) (h1 : Hub) where
    After-dropped :
        is_full (h.channels c) ≡ true
        → After msg order (dropped c h) h1
        → After msg (c ∷ order) h h1
    unfolding member
    After-dropped f a = record {
      channels = λ d. (let e = a.channels d in ground arith);
      clients = λ d. (let e = a.clients d in let m = member-delete c d h.clients in ground arith);
      distinct = λ u. a.distinct (delete-Distinct c h.clients u);
      fewer = (let x = a.fewer in let y = length-delete c h.clients in omega arith);
      max_conns = a.max_conns;
      next = a.next;
    }

    After-reached :
        is_full (h.channels c) ≡ false
        → After msg order (reached msg c h) h1
        → After msg (c ∷ order) h h1
    unfolding member
    After-reached f a = record {
      channels = λ d. (let e = a.channels d in ground arith);
      clients = λ d. (let e = a.clients d in ground arith);
      distinct = a.distinct;
      fewer = a.fewer;
      max_conns = a.max_conns;
      next = a.next;
    }

broadcast_to_nil : (msg : String) (h : Hub) → broadcast_to msg [] h ≡ some h
unfolding broadcast_to
broadcast_to_nil msg h = refl

-- Over distinct clients with open channels, in any order, the loop does not panic, and it appends
-- the message to each of their channels that is not full, and closes and drops the others.
pub broadcast_to-After :
    (msg : String) (order : List ℕ) (h : Hub)
    → Distinct order
    → ((c : ℕ) → member c order ≡ true → (h.channels c).closed ≡ false)
    → (h1 : Hub) × (broadcast_to msg order h ≡ some h1) × After msg order h h1
unfolding member
broadcast_to-After msg [] h u o = (
  h,
  broadcast_to_nil msg h,
  record {
    channels = λ c. refl;
    clients = λ c. ground arith;
    distinct = λ d. d;
    fewer = omega arith;
    max_conns = refl;
    next = refl;
  },
)
broadcast_to-After msg (c ∷ order) h (fresh, u) o =
    let is_open : (h.channels c).closed ≡ false = o c (ground arith) in
    elim (Bool-cases (is_full (h.channels c))) [
      | inl f ↦
          let (h1, e, a) =
            broadcast_to-After msg order (dropped c h) u (λ d m. let x = o d in ground arith) in
          (
            h1,
            broadcast_to_full msg c order h is_open f ∙ e,
            After-dropped msg c order h is_open fresh h1 f a,
          )
      | inr f ↦
          let (h1, e, a) =
            broadcast_to-After msg order (reached msg c h) u (λ d m. let x = o d in ground arith) in
          (
            h1,
            broadcast_to_open msg c order h is_open f ∙ e,
            After-reached msg c order h is_open fresh h1 f a,
          )
    ]
