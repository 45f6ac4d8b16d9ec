-- ===== src/Hub/Pumps/Delivers.antt =====
-- What holds in every state that the goroutines around the hub can reach.
use skills.Prelude.{ℕ, refl}
use skills.Hub.{step}
use skills.Hub.Pumps.{leaving, stopped, Sockets, start, Step, Reach}
use skills.Hub.Pumps.Served.{IsServed, start-IsServed}
use skills.Hub.Pumps.Moves.{
  register-IsServed, unregister-IsServed, relay-IsServed, write-IsServed, broadcast-IsServed,
  put-IsServed,
}

Step-IsServed : {s t : Sockets} → IsServed s → Step s t → IsServed t
Step-IsServed i Step.upgrade = record {
  hub = i.hub;
  alive = i.alive;
  returned = i.returned;
  queued = i.queued;
  room = i.room;
  follows = i.follows;
}
Step-IsServed {s} i (Step.register k on q) = register-IsServed s i k on
Step-IsServed {s} i (Step.read_fails c r) =
    put-IsServed s i c (record (s.connections c) { reader = leaving }) (λ e. cc) refl
Step-IsServed {s} i (Step.unregister c on r) = unregister-IsServed s i c on
Step-IsServed {s} i (Step.broadcast msg room) = broadcast-IsServed s i msg room
Step-IsServed {s} i (Step.relay arrange msg rest on q f) =
    relay-IsServed s i arrange msg rest on q f
Step-IsServed {s} i (Step.write c msg rest x w q) = write-IsServed s i c msg rest x q
Step-IsServed {s} i (Step.finish c w closed empty) =
    put-IsServed s i c (record (s.connections c) { writer = stopped }) (λ e. e) refl
Step-IsServed {s} i (Step.stop c w e) =
    put-IsServed s i c (record (s.connections c) { writer = stopped }) (λ e. e) refl
Step-IsServed i Step.cancel = record {
  hub = i.hub;
  alive = i.alive;
  returned = i.returned;
  queued = i.queued;
  room = i.room;
  follows = i.follows;
}
Step-IsServed i (Step.end on e) = record {
  hub = i.hub;
  alive = λ p. cc;
  returned = i.returned;
  queued = i.queued;
  room = i.room;
  follows = i.follows;
}

-- In every state that the hub's loop, the handlers and the pumps of any connections and any callers
-- of `Broadcast` can reach, in any interleaving of their steps and with any failures of reads and
-- writes: the loop has not panicked and the hub keeps its invariant; a client whose handler has
-- returned is not registered; and for each registered client, what its `WritePump` has taken, then
-- what waits in its channel, then what waits in the hub's channel, are the last messages that were
-- broadcast, in order and each once.
pub Reach-IsServed : (max_conns : ℕ) {s : Sockets} → Reach (start max_conns) s → IsServed s
Reach-IsServed max_conns Reach.here = start-IsServed max_conns
Reach-IsServed max_conns (Reach.next r step) = Step-IsServed (Reach-IsServed max_conns r) step
