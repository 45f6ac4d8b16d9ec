-- ===== src/Hub/Pumps/Progress.antt =====
-- While the hub's loop runs, nobody waits for it in vain.
use skills.Prelude.{ℕ, some, not, ◌+◌, arith, suc, ◌≡◌, refl, String, false, List, ◌∷◌}
use skills.Hub.{Hub, Event, step, new_client, register_client, close_client, close_channel}
use skills.Hub.Members.{member, insert}
use skills.Hub.Pumps.{
  leaving, gone, running, Sockets, start, set_reader, put_connection, fresh, take_up, Step, Reach,
}
use skills.Hub.Pumps.Served.{take_up-Takes}
use skills.Hub.Pumps.Events.{disconnect-gone}
use skills.Hub.Pumps.Delivers.{Reach-IsServed}

connect-next : (h h1 : Hub) → step Event.connect h ≡ some h1 → h1.next ≡ h.next + 1
unfolding step new_client register_client insert close_client close_channel
connect-next h h1 e = ground arith

-- Each wait on the hub has a next step that ends it.
pub record IsHeard (s : Sockets) : Type 0 where
  pub leaves :
      (c : ℕ)
      → (s.connections c).reader ≡ leaving
      → (t : Sockets) × Step s t
        × ((t.connections c).reader ≡ gone)
        × (member c t.hub.clients ≡ false)
        × (t.loop ≡ running)
  pub registers :
      (k : ℕ)
      → s.waiting ≡ suc k
      → (t : Sockets) × Step s t
        × (t.waiting ≡ k)
        × ((t.hub.channels s.hub.next).closed ≡ not (member s.hub.next t.hub.clients))
        × (t.loop ≡ running)
  pub relays :
      (msg : String) (rest : List String)
      → s.queue ≡ msg ∷ rest
      → (t : Sockets) × Step s t × (t.queue ≡ rest) × (t.loop ≡ running)

-- In every state that is reached while the hub's loop runs, one step of the loop is there for
-- each one who waits for it: a handler at the send of its `ReadPump` returns and its client is
-- not registered; a handler that waits for its registration gets it, and its channel is then
-- closed exactly if it was not registered; the oldest message in the channel of the broadcasts is
-- taken out. The loop runs on after each.
pub Reach-IsHeard :
    (max_conns : ℕ) {s : Sockets} → Reach (start max_conns) s → s.loop ≡ running → IsHeard s
Reach-IsHeard max_conns {s} r on =
    let i = Reach-IsServed max_conns r in
    record {
      leaves = λ c e.
          let k = take_up-Takes (Event.disconnect c) (set_reader c gone s) i.hub tt in
          (
            take_up (Event.disconnect c) (set_reader c gone s),
            Step.unregister c on e,
            rw k.state (ground arith),
            rw k.state (disconnect-gone s.hub k.result c k.event),
            rw k.state on,
          );
      registers = λ k e.
          let s1 = put_connection s.hub.next fresh (record s { waiting = k }) in
          let x = take_up-Takes Event.connect s1 i.hub tt in
          (
            take_up Event.connect s1,
            Step.register k on e,
            rw x.state refl,
            rw x.state (
                x.sound.closed s.hub.next
                  (let y = connect-next s.hub x.result x.event in omega arith)),
            rw x.state on,
          );
      relays = λ msg rest e.
          let s1 = record s { queue = rest } in
          let b = Event.broadcast (λ cs. cs) msg in
          let x = take_up-Takes b s1 i.hub (λ cs. (λ d. d, λ c. refl)) in
          (
            take_up b s1,
            Step.relay (λ cs. cs) msg rest on e (λ cs. (λ d. d, λ c. refl)),
            rw x.state refl,
            rw x.state on,
          );
    }
