-- ===== src/Hub.antt =====
-- internal/infra/ws/hub.go and handler.go: the WebSocket hub, as the events that its loop takes up
-- one at a time. A client is the number of its connection; `none` is a Go panic. Pumps has the
-- goroutines around the loop, and its end with its context.
pub mod Members
pub mod Broadcast
pub mod Safe
pub mod Delivery
pub mod Pumps
use skills.Prelude.{
  ℕ, ◌+◌, String, Bool, true, false, Option, none, some, List, [], ◌∷◌, ◌++◌, length, leb, ◌==◌,
  if◌then◌else◌,
}
use skills.Hub.Members.{member, insert, delete}

-- `send chan []byte`, the oldest message first.
pub record Channel : Type 0 where
  pub buffer : List String
  pub closed : Bool

-- `next` is the next connection's number, `channels` the clients' channels.
pub record Hub : Type 0 where
  pub clients : List ℕ
  pub max_conns : ℕ
  pub channels : ℕ → Channel
  pub next : ℕ

abbrev pub buffer_size : ℕ
buffer_size = 256

abbrev pub empty_channel : Channel
empty_channel = record { buffer = []; closed = false }

-- `close(c.send)`: closing a closed channel panics.
unfoldable pub close_channel : Channel → Option Channel
close_channel ch = if ch.closed then none else some (record ch { closed = true })

abbrev pub is_full : Channel → Bool
is_full ch = leb buffer_size (length ch.buffer)

pub data Sent : Type 0 where
  panicked full : Sent
  sent : Channel → Sent

-- `select { case c.send <- msg: default: }`: sending on a closed channel panics.
unfoldable pub try_send : String → Channel → Sent
try_send msg ch =
    if ch.closed
    then Sent.panicked
    else if is_full ch
    then Sent.full
    else Sent.sent (record ch { buffer = ch.buffer ++ (msg ∷ []) })

-- A write to the channel of a client.
abbrev pub put : ℕ → Channel → Hub → Hub
put c ch h = record h { channels = λ d. if d == c then ch else h.channels d }

-- `NewHub`.
abbrev pub new_hub : ℕ → Hub
new_hub max_conns = record {
  clients = [];
  max_conns = max_conns;
  channels = λ _. empty_channel;
  next = 0;
}

unfoldable pub close_client : ℕ → Hub → Option Hub
unfolding close_channel
close_client c h = elim (close_channel (h.channels c)) [ none ↦ none | some ch ↦ some (put c ch h) ]

-- `NewClient`.
unfoldable pub new_client : Hub → ℕ × Hub
new_client h = (h.next, record (put h.next empty_channel h) { next = h.next + 1 })

-- The three cases of the loop of `Run`.
unfoldable pub register_client : ℕ → Hub → Option Hub
register_client c h =
    if leb h.max_conns (length h.clients)
    then close_client c h
    else some (record h { clients = insert c h.clients })

unfoldable pub unregister_client : ℕ → Hub → Option Hub
unregister_client c h =
    if member c h.clients
    then close_client c (record h { clients = delete c h.clients })
    else some h

-- `order` is the order in which `range` yields the clients.
unfoldable pub broadcast_to : String → List ℕ → Hub → Option Hub
broadcast_to msg [] h = some h
broadcast_to msg (c ∷ order) h = elim (try_send msg (h.channels c)) [
  | panicked ↦ none
  | sent ch ↦ broadcast_to msg order (put c ch h)
  | full ↦ elim (close_client c (record h { clients = delete c h.clients })) [
    | none ↦ none
    | some h1 ↦ broadcast_to msg order h1
  ]
]

-- `WritePump` takes a message.
unfoldable pub drain : ℕ → Hub → Hub
drain c h = elim (h.channels c).buffer [
  | [] ↦ h
  | _ ∷ rest ↦ put c (record (h.channels c) { buffer = rest }) h
]

-- `connect` is `HandleWS` up to the registration; `disconnect c` the end of its `ReadPump`.
pub data Event : Type 0 where
  connect : Event
  disconnect : ℕ → Event
  broadcast : (List ℕ → List ℕ) → String → Event
  write : ℕ → Event

unfoldable pub step : Event → Hub → Option Hub
step Event.connect h = let (c, h1) = new_client h in register_client c h1
step (Event.disconnect c) h = unregister_client c h
step (Event.broadcast arrange msg) h = broadcast_to msg (arrange h.clients) h
step (Event.write c) h = some (drain c h)

unfoldable pub run : List Event → Hub → Option Hub
run [] h = some h
run (e ∷ events) h = elim (step e h) [ none ↦ none | some h1 ↦ run events h1 ]
