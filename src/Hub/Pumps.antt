-- ===== src/Hub/Pumps.antt =====
-- internal/infra/ws/hub.go and handler.go: the goroutines around the hub, one step of one of them
-- at a time: its loop, the handler of each connection with its `ReadPump`, each `WritePump`, and
-- the callers of `Broadcast`. The context of the loop is that of the connections, as in
-- cmd/daemon/daemon.go. A connection gets its number when the hub takes its registration.
pub mod Served
pub mod Events
pub mod Moves
pub mod Delivers
pub mod Over
pub mod Progress
use skills.Prelude.{
  ℕ, suc, ◌+◌, ◌<◌, ◌≡◌, String, Bool, true, false, Option, none, some, List, [], ◌∷◌, ◌++◌, length,
  ◌==◌, if◌then◌else◌,
}
use skills.Hub.{Hub, Event, buffer_size, new_hub, drain, step}
use skills.Hub.Safe.{IsFair}

-- Where the handler of a registered connection stands: in the loop of `ReadPump`, at the send of
-- its deferred function, or at its end.
pub data Reader : Type 0 where
  reading leaving gone : Reader

pub data Writer : Type 0 where
  writing stopped : Writer

-- `taken` is what `WritePump` has taken from the channel to write it, the oldest first.
pub record Connection : Type 0 where
  pub reader : Reader
  pub writer : Writer
  pub taken : List String

pub data Loop : Type 0 where
  running ended panicked : Loop

-- `waiting` counts the handlers at the send of `Register`, `queue` is the channel `broadcast`, and
-- `sent` what the calls of `Broadcast` have put into it, the oldest first.
pub record Sockets : Type 0 where
  pub hub : Hub
  pub loop : Loop
  pub cancelled : Bool
  pub waiting : ℕ
  pub connections : ℕ → Connection
  pub queue : List String
  pub sent : List String

-- `NewHub` and `go hub.Run`.
abbrev pub start : ℕ → Sockets
start max_conns = record {
  hub = new_hub max_conns;
  loop = running;
  cancelled = false;
  waiting = 0;
  connections = λ c. record { reader = gone; writer = stopped; taken = [] };
  queue = [];
  sent = [];
}

-- One round of the loop of `Run`.
unfoldable pub take_up : Event → Sockets → Sockets
take_up e s = elim (step e s.hub) [
  | none ↦ record s { loop = panicked }
  | some h ↦ record s { hub = h }
]

abbrev pub put_connection : ℕ → Connection → Sockets → Sockets
put_connection c k s = record s { connections = λ d. if d == c then k else s.connections d }

abbrev pub set_reader : ℕ → Reader → Sockets → Sockets
set_reader c r s = put_connection c (record (s.connections c) { reader = r }) s

abbrev pub set_writer : ℕ → Writer → Sockets → Sockets
set_writer c x s = put_connection c (record (s.connections c) { writer = x }) s

-- `WritePump` has taken `msg`; `x` says whether it goes on after the write.
unfoldable pub take_message : ℕ → String → Writer → Sockets → Sockets
take_message c msg x s =
    put_connection c
      (record (s.connections c) { writer = x; taken = (s.connections c).taken ++ (msg ∷ []) })
      (record s { hub = drain c s.hub })

abbrev pub fresh : Connection
fresh = record { reader = reading; writer = writing; taken = [] }

-- `HandleWS`, whose handler waits at the send of `Register`, and goes on with its pumps when the
-- loop has taken the registration up and `k` others still wait.
abbrev pub upgraded : Sockets → Sockets
upgraded s = record s { waiting = s.waiting + 1 }

abbrev pub registered : ℕ → Sockets → Sockets
registered k s = take_up Event.connect (put_connection s.hub.next fresh (record s { waiting = k }))

pub data Step (s : Sockets) : Sockets → Type 0 where
  -- A connection is upgraded, and its handler calls `Register`.
  upgrade : Step s (upgraded s)
  -- The loop receives from `register`; the pumps of the connection start.
  register : (k : ℕ) → s.loop ≡ running → s.waiting ≡ suc k → Step s (registered k s)
  -- A read fails: the peer is gone, `WritePump` has closed the connection, or the context has
  -- ended.
  read_fails : (c : ℕ) → (s.connections c).reader ≡ reading → Step s (set_reader c leaving s)
  -- The loop receives from `unregister`.
  unregister :
      (c : ℕ)
      → s.loop ≡ running
      → (s.connections c).reader ≡ leaving
      → Step s (take_up (Event.disconnect c) (set_reader c gone s))
  -- A call of `Broadcast` returns: there was room in the channel.
  broadcast :
      (msg : String)
      → length s.queue < buffer_size
      → Step s (record s { queue = s.queue ++ (msg ∷ []); sent = s.sent ++ (msg ∷ []) })
  -- The loop receives from `broadcast` and goes through the clients as `arrange` orders them.
  relay :
      (arrange : List ℕ → List ℕ) (msg : String) (rest : List String)
      → s.loop ≡ running
      → s.queue ≡ msg ∷ rest
      → IsFair (Event.broadcast arrange msg)
      → Step s (take_up (Event.broadcast arrange msg) (record s { queue = rest }))
  -- `WritePump` receives a message and writes it, or fails to.
  write :
      (c : ℕ) (msg : String) (rest : List String) (x : Writer)
      → (s.connections c).writer ≡ writing
      → (s.hub.channels c).buffer ≡ msg ∷ rest
      → Step s (take_message c msg x s)
  -- `WritePump` finds its channel closed and empty, or its context ended.
  finish :
      (c : ℕ)
      → (s.connections c).writer ≡ writing
      → (s.hub.channels c).closed ≡ true
      → (s.hub.channels c).buffer ≡ []
      → Step s (set_writer c stopped s)
  stop :
      (c : ℕ)
      → (s.connections c).writer ≡ writing
      → s.cancelled ≡ true
      → Step s (set_writer c stopped s)
  cancel : Step s (record s { cancelled = true })
  -- The loop finds its context ended.
  end : s.loop ≡ running → s.cancelled ≡ true → Step s (record s { loop = ended })

pub data Reach (s : Sockets) : Sockets → Type 0 where
  here : Reach s s
  next : {t u : Sockets} → Reach s t → Step t u → Reach s u
