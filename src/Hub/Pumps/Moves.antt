-- ===== src/Hub/Pumps/Moves.antt =====
-- Each step of a goroutine keeps the invariant.
use mathlib.Core.List.{append_assoc, append-nil}
use skills.Prelude.{
  ℕ, ◌<◌, ◌≡◌, refl, sym, ap, ◌∙◌, String, true, false, some, List, [], ◌∷◌, ◌++◌, length, ◌==◌,
  arith, Bool-cases, inl, inr,
}
use skills.Hub.{buffer_size, Hub, Event, drain, step}
use skills.Hub.Members.{member}
use skills.Hub.Safe.{IsFair, step-Goes, length-snoc}
use skills.Hub.Delivery.{written, said, step-Hands}
use skills.Hub.Pumps.{
  gone, Writer, Connection, running, Sockets, take_up, put_connection, take_message, set_reader,
  fresh,
}
use skills.Hub.Pumps.Served.{IsServed, take_up-Takes}
use skills.Hub.Pumps.Events.{
  moved_on, connect-new, connect-empty, disconnect-gone, disconnect-member, broadcast-member,
  drain-clients,
}

module _ (s : Sockets) (i : IsServed s) where
  -- A registered client, after an event that keeps it.
  follow_on :
      (e : Event) (h1 : Hub)
      → IsFair e
      → step e s.hub ≡ some h1
      → (c : ℕ) (taken1 queue1 : List String) → member c s.hub.clients ≡ true
      → member c h1.clients ≡ true
      → taken1 ≡ (s.connections c).taken ++ written e c s.hub
      → s.queue ≡ said e ++ queue1
      → (before : List String) × (before ++ (taken1 ++ ((h1.channels c).buffer ++ queue1)) ≡ s.sent)
  follow_on e h1 f r c taken1 queue1 m m1 p q =
      let hands = step-Hands c s.hub h1 i.hub (i.hub.known c m) e f r in
      let (_, kept) = hands.kept m1 in
      let (before, old) = i.follows c m in
      (
        before,
        moved_on before (s.connections c).taken taken1 (s.hub.channels c).buffer
            (h1.channels c).buffer s.queue queue1 (written e c s.hub) (said e) s.sent p kept q old,
      )

  pub register-IsServed :
      (k : ℕ)
      → s.loop ≡ running
      → IsServed
          (take_up Event.connect (put_connection s.hub.next fresh (record s { waiting = k })))
  unfolding written said
  register-IsServed k on =
      let s1 = put_connection s.hub.next fresh (record s { waiting = k }) in
      let r = take_up-Takes Event.connect s1 i.hub tt in
      rw r.state (record {
        hub = r.sound;
        alive = i.alive;
        returned = λ c e. elim (Bool-cases (member c r.result.clients)) [
          | inr out ↦ out
          | inl m ↦
              let old = connect-new s.hub r.result c r.event m (λ p. ground arith) in
              let x = i.returned c in ground arith
        ];
        queued = i.queued;
        room = i.room;
        follows = λ c m. elim (Bool-cases (c == s.hub.next)) [
          | inl p ↦
              let here : c ≡ s.hub.next = ground arith in
              let (before, sent) = i.queued in
              let none_yet : (r.result.channels c).buffer ≡ [] =
                ap (λ d. (r.result.channels d).buffer) here
                ∙ connect-empty s.hub r.result r.event in
              (before, rw (p, none_yet) sent)
          | inr p ↦
              follow_on Event.connect r.result tt r.event c (s1.connections c).taken s.queue
                (connect-new s.hub r.result c r.event m (λ q. ground arith)) m
                (rw p (sym (append-nil (s.connections c).taken))) refl
        ];
      })

  pub unregister-IsServed :
      (c : ℕ) → s.loop ≡ running → IsServed (take_up (Event.disconnect c) (set_reader c gone s))
  unfolding written said
  unregister-IsServed c on =
      let s1 = set_reader c gone s in
      let r = take_up-Takes (Event.disconnect c) s1 i.hub tt in
      rw r.state (record {
        hub = r.sound;
        alive = i.alive;
        returned = λ d e. elim (Bool-cases (member d r.result.clients)) [
          | inr out ↦ out
          | inl m ↦
              let old = disconnect-member s.hub r.result c d r.event m in
              let x = i.returned d in
              let y = disconnect-gone s.hub r.result c r.event in ground arith
        ];
        queued = i.queued;
        room = i.room;
        follows = λ d m.
            follow_on (Event.disconnect c) r.result tt r.event d (s1.connections d).taken s.queue
              (disconnect-member s.hub r.result c d r.event m) m
              (taken_kept d ∙ sym (append-nil (s.connections d).taken)) refl;
      })
    where
      taken_kept : (d : ℕ) → ((set_reader c gone s).connections d).taken ≡ (s.connections d).taken
      taken_kept d = ground arith

  pub relay-IsServed :
      (arrange : List ℕ → List ℕ) (msg : String) (rest : List String)
      → s.loop ≡ running
      → s.queue ≡ msg ∷ rest
      → IsFair (Event.broadcast arrange msg)
      → IsServed (take_up (Event.broadcast arrange msg) (record s { queue = rest }))
  unfolding written said
  relay-IsServed arrange msg rest on q f =
      let e = Event.broadcast arrange msg in
      let r = take_up-Takes e (record s { queue = rest }) i.hub f in
      let kept = λ (c : ℕ) (m : member c r.result.clients ≡ true).
        broadcast-member s.hub r.result arrange msg c i.hub f r.event m in
      let (before, sent) = i.queued in
      rw r.state (record {
        hub = r.sound;
        alive = i.alive;
        returned = λ c g. elim (Bool-cases (member c r.result.clients)) [
          | inr out ↦ out
          | inl m ↦ let old = kept c m in let x = i.returned c g in absurd (ground arith)
        ];
        room = (let x = i.room in let y = ap length q in omega arith);
        queued = (before ++ (msg ∷ []), append_assoc before (msg ∷ []) rest ∙ (rw (← q) sent));
        follows = λ c m.
            follow_on e r.result f r.event c (s.connections c).taken rest (kept c m) m
              (sym (append-nil (s.connections c).taken)) q;
      })

  taken_next :
      (c : ℕ) (msg : String) (rest : List String) (x : Writer)
      → (s.hub.channels c).buffer ≡ msg ∷ rest
      → (d : ℕ)
      → ((take_message c msg x s).connections d).taken
        ≡ (s.connections d).taken ++ written (Event.write c) d s.hub
  unfolding take_message written
  taken_next c msg rest x q d = elim (Bool-cases (d == c)) [
    | inl p ↦
        let here : d ≡ c = ground arith in
        let back : (c == d) ≡ true = ground arith in rw (p, back, here, q) refl
    | inr p ↦
        let back : (c == d) ≡ false = ground arith in
        rw (p, back) (sym (append-nil (s.connections d).taken))
  ]

  pub write-IsServed :
      (c : ℕ) (msg : String) (rest : List String) (x : Writer)
      → (s.hub.channels c).buffer ≡ msg ∷ rest
      → IsServed (take_message c msg x s)
  unfolding take_message written said step drain
  write-IsServed c msg rest x q =
      let (h1, r, sound, _) = step-Goes s.hub i.hub (Event.write c) tt in
      let same : h1 ≡ drain c s.hub = ground arith in
      record {
        hub = rw same at sound;
        alive = i.alive;
        returned = λ d e. let y = i.returned d in ground arith;
        queued = i.queued;
        room = i.room;
        follows = λ d m.
            follow_on (Event.write c) (drain c s.hub) tt refl d
              ((take_message c msg x s).connections d).taken s.queue
              (rw (← drain-clients c s.hub) m) m (taken_next c msg rest x q d) refl;
      }

  pub broadcast-IsServed :
      (msg : String)
      → length s.queue < buffer_size
      → IsServed (record s { queue = s.queue ++ (msg ∷ []); sent = s.sent ++ (msg ∷ []) })
  broadcast-IsServed msg free = record {
    room = (let x = length-snoc s.queue msg in omega arith);
    hub = i.hub;
    alive = i.alive;
    returned = i.returned;
    queued =
        let (before, e) = i.queued in
        (before, rw (← append_assoc before s.queue (msg ∷ []), e) refl);
    follows = λ c m.
        let (before, e) = i.follows c m in
        let k = (s.connections c).taken in
        let b = (s.hub.channels c).buffer in
        (
          before,
          rw
              (
                ← append_assoc b s.queue (msg ∷ []),
                ← append_assoc k (b ++ s.queue) (msg ∷ []),
                ← append_assoc before (k ++ (b ++ s.queue)) (msg ∷ []),
                e,
              )
              refl,
        );
  }

  -- A step of one connection's goroutines alone.
  pub put-IsServed :
      (c : ℕ) (k : Connection)
      → (k.reader ≡ gone → (s.connections c).reader ≡ gone)
      → k.taken ≡ (s.connections c).taken
      → IsServed (put_connection c k s)
  put-IsServed c k n same = record {
    hub = i.hub;
    alive = i.alive;
    returned = λ d e. elim (Bool-cases (d == c)) [
      | inl p ↦ let here : d ≡ c = ground arith in rw here (i.returned c (n (rw p at e)))
      | inr p ↦ i.returned d (rw p at e)
    ];
    queued = i.queued;
    room = i.room;
    follows = λ d m. let (before, e) = i.follows d m in (before, rw (kept d) e);
  }
    where
      kept : (d : ℕ) → ((put_connection c k s).connections d).taken ≡ (s.connections d).taken
      kept d = elim (Bool-cases (d == c)) [
        | inl p ↦ let here : d ≡ c = ground arith in rw (p, here) same
        | inr p ↦ rw p refl
      ]
