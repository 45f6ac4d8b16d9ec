-- ===== src/Hub/Pumps/Over.antt =====
-- After the hub's loop has ended: nothing receives from its channels any more.
use skills.Prelude.{
  ℕ, ◌+◌, ◌≤◌, ◌≡◌, refl, ◌∙◌, [], ◌∷◌, ◌++◌, length, ◌==◌, arith, Bool-cases, inl, inr,
}
use skills.Hub.{buffer_size}
use skills.Hub.Safe.{length-snoc}
use skills.Hub.Pumps.{
  leaving, gone, stopped, ended, Connection, Sockets, start, put_connection, take_message, Step,
  Reach,
}
use skills.Hub.Pumps.Events.{drain-clients}
use skills.Hub.Pumps.Delivers.{Reach-IsServed}

-- What the steps from `s` to `t` leave, once the loop has ended.
pub record IsOver (s t : Sockets) : Type 0 where
  pub loop : t.loop ≡ ended
  pub waiting : s.waiting ≤ t.waiting
  pub blocked : (c : ℕ) → (s.connections c).reader ≡ leaving → (t.connections c).reader ≡ leaving
  pub returned : (c : ℕ) → (t.connections c).reader ≡ gone → (s.connections c).reader ≡ gone
  pub clients : t.hub.clients ≡ s.hub.clients
  pub sent : length t.sent + length s.queue ≡ length s.sent + length t.queue

module _ {s t : Sockets} (o : IsOver s t) where
  put-IsOver :
      (c : ℕ) (k : Connection)
      → ((t.connections c).reader ≡ leaving → k.reader ≡ leaving)
      → (k.reader ≡ gone → (t.connections c).reader ≡ gone)
      → IsOver s (put_connection c k t)
  put-IsOver c k stays n = record {
    loop = o.loop;
    waiting = o.waiting;
    blocked = λ d e. elim (Bool-cases (d == c)) [
      | inl p ↦ let here : d ≡ c = ground arith in rw p (stays (rw here at (o.blocked d e)))
      | inr p ↦ rw p (o.blocked d e)
    ];
    returned = λ d e. elim (Bool-cases (d == c)) [
      | inl p ↦ let here : d ≡ c = ground arith in rw here (o.returned c (n (rw p at e)))
      | inr p ↦ o.returned d (rw p at e)
    ];
    clients = o.clients;
    sent = o.sent;
  }

  Step-IsOver : {u : Sockets} → Step t u → IsOver s u
  unfolding take_message
  Step-IsOver Step.upgrade = record {
    loop = o.loop;
    waiting = (let x = o.waiting in omega arith);
    blocked = o.blocked;
    returned = o.returned;
    clients = o.clients;
    sent = o.sent;
  }
  Step-IsOver (Step.register k on q) = absurd (let x = o.loop in cc)
  Step-IsOver (Step.read_fails c r) =
      put-IsOver c (record (t.connections c) { reader = leaving }) (λ e. refl) (λ e. absurd (cc))
  Step-IsOver (Step.unregister c on r) = absurd (let x = o.loop in cc)
  Step-IsOver (Step.broadcast msg free) = record {
    loop = o.loop;
    waiting = o.waiting;
    blocked = o.blocked;
    returned = o.returned;
    clients = o.clients;
    sent =
        (let x = o.sent in
          let y = length-snoc t.queue msg in let z = length-snoc t.sent msg in omega arith);
  }
  Step-IsOver (Step.relay arrange msg rest on q f) = absurd (let x = o.loop in cc)
  Step-IsOver (Step.write c msg rest x w q) =
      let k : Connection = record (t.connections c) {
        writer = x;
        taken = (t.connections c).taken ++ (msg ∷ []);
      } in
      let p = put-IsOver c k (λ e. e) (λ e. e) in
      record {
        loop = p.loop;
        waiting = p.waiting;
        blocked = p.blocked;
        returned = p.returned;
        clients = drain-clients c t.hub ∙ p.clients;
        sent = p.sent;
      }
  Step-IsOver (Step.finish c w closed empty) =
      put-IsOver c (record (t.connections c) { writer = stopped }) (λ e. e) (λ e. e)
  Step-IsOver (Step.stop c w e) =
      put-IsOver c (record (t.connections c) { writer = stopped }) (λ e. e) (λ e. e)
  Step-IsOver Step.cancel = record {
    loop = o.loop;
    waiting = o.waiting;
    blocked = o.blocked;
    returned = o.returned;
    clients = o.clients;
    sent = o.sent;
  }
  Step-IsOver (Step.end on e) = absurd (let x = o.loop in cc)

stays-IsOver : {s t : Sockets} → s.loop ≡ ended → Reach s t → IsOver s t
stays-IsOver {s} over Reach.here = record {
  loop = over;
  waiting = omega arith;
  blocked = λ c e. e;
  returned = λ c e. e;
  clients = refl;
  sent = refl;
}
stays-IsOver over (Reach.next r step) = Step-IsOver (stays-IsOver over r) step

Reach-append : {s t u : Sockets} → Reach s t → Reach t u → Reach s u
Reach-append r Reach.here = r
Reach-append r (Reach.next q step) = Reach.next (Reach-append r q) step

-- Once the hub's loop has ended, whatever the goroutines do from then on: the loop does not run
-- again, a handler at the send of its `ReadPump` stays there, no further handler returns and none
-- that waits for its registration gets it, the client set does not change, and no more calls of
-- `Broadcast` return than the channel has room for, which is at most 256.
pub Reach-IsOver :
    (max_conns : ℕ) {s t : Sockets}
    → Reach (start max_conns) s
    → s.loop ≡ ended
    → Reach s t
    → IsOver s t × (length t.sent + length s.queue ≤ length s.sent + buffer_size)
Reach-IsOver max_conns r over q =
    let o = stays-IsOver over q in
    let served = Reach-IsServed max_conns (Reach-append r q) in
    (o, (let x = o.sent in let y = served.room in omega arith))
