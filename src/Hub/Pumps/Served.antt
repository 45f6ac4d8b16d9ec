-- ===== src/Hub/Pumps/Served.antt =====
-- The invariant of the goroutines around the hub.
use skills.Prelude.{
  ℕ, ◌≤◌, ◌≡◌, ◌≢◌, refl, String, true, false, some, List, [], ◌++◌, length, arith,
}
use skills.Hub.{buffer_size, Hub, Event, step}
use skills.Hub.Members.{member}
use skills.Hub.Safe.{IsHub, IsFair, new_hub-IsHub, step-Goes}
use skills.Hub.Pumps.{gone, panicked, Sockets, start, take_up}

-- What `WritePump` has taken for `c`, what waits for it in its channel, and what waits for all
-- are the last messages that were sent.
abbrev pub Follows : Sockets → ℕ → Type 0
Follows s c =
    (before : List String) × (before
        ++ ((s.connections c).taken ++ ((s.hub.channels c).buffer ++ s.queue))
      ≡ s.sent)

pub record IsServed (s : Sockets) : Type 0 where
  pub hub : IsHub s.hub
  pub alive : s.loop ≢ panicked
  pub returned : (c : ℕ) → (s.connections c).reader ≡ gone → member c s.hub.clients ≡ false
  pub queued : (before : List String) × (before ++ s.queue ≡ s.sent)
  pub room : length s.queue ≤ buffer_size
  pub follows : (c : ℕ) → member c s.hub.clients ≡ true → Follows s c

-- One event that the loop takes up.
pub record Takes (e : Event) (s t : Sockets) : Type 0 where
  pub result : Hub
  pub event : step e s.hub ≡ some result
  pub sound : IsHub result
  pub state : t ≡ record s { hub = result }

pub take_up-Takes : (e : Event) (s : Sockets) → IsHub s.hub → IsFair e → Takes e s (take_up e s)
unfolding take_up
take_up-Takes e s i f =
    let (h, r, i1, _) = step-Goes s.hub i e f in
    record { result = h; event = r; sound = i1; state = rw (take_up, r) }

pub start-IsServed : (max_conns : ℕ) → IsServed (start max_conns)
unfolding member
start-IsServed max_conns = record {
  hub = new_hub-IsHub max_conns;
  alive = λ e. cc;
  returned = λ c e. refl;
  queued = ([], refl);
  room = omega arith;
  follows = λ c m. cc;
}
