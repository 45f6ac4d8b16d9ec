-- ===== src/Hub/Pumps/Events.antt =====
-- What one event of the hub does to its clients.
use mathlib.Core.List.{append_assoc}
use skills.Prelude.{ℕ, ◌≡◌, ◌≢◌, String, true, false, some, List, [], ◌++◌, arith}
use skills.Hub.{
  Hub, Event, drain, step, new_client, register_client, insert, close_client, close_channel,
  unregister_client,
}
use skills.Hub.Members.{member, insert, member-delete}
use skills.Hub.Broadcast.{broadcast_to-After}
use skills.Hub.Safe.{IsHub, IsFair}

-- Messages that move one place on, from the hub's channel over the client's to `taken`.
pub moved_on :
    (before taken taken1 buffer buffer1 queue queue1 out told sent : List String)
    → taken1 ≡ taken ++ out
    → out ++ buffer1 ≡ buffer ++ told
    → queue ≡ told ++ queue1
    → before ++ (taken ++ (buffer ++ queue)) ≡ sent
    → before ++ (taken1 ++ (buffer1 ++ queue1)) ≡ sent
moved_on before taken taken1 buffer buffer1 queue queue1 out told sent p q r f =
    rw
      (
        p,
        append_assoc taken out (buffer1 ++ queue1),
        ← append_assoc out buffer1 queue1,
        q,
        append_assoc buffer told queue1,
        ← r,
      )
      f

-- The new connection is the only one that a registration adds.
pub connect-new :
    (h h1 : Hub) (c : ℕ)
    → step Event.connect h ≡ some h1
    → member c h1.clients ≡ true
    → c ≢ h.next
    → member c h.clients ≡ true
unfolding step new_client register_client insert member close_client close_channel
connect-new h h1 c e m n = ground arith

pub connect-empty : (h h1 : Hub) → step Event.connect h ≡ some h1 → (h1.channels h.next).buffer ≡ []
unfolding step new_client register_client insert close_client close_channel
connect-empty h h1 e = ground arith

pub disconnect-gone :
    (h h1 : Hub) (c : ℕ) → step (Event.disconnect c) h ≡ some h1 → member c h1.clients ≡ false
unfolding step unregister_client close_client close_channel
disconnect-gone h h1 c e = let m = member-delete c c h.clients in ground arith

pub disconnect-member :
    (h h1 : Hub) (d c : ℕ)
    → step (Event.disconnect d) h ≡ some h1
    → member c h1.clients ≡ true
    → member c h.clients ≡ true
unfolding step unregister_client close_client close_channel
disconnect-member h h1 d c e m = let x = member-delete d c h.clients in ground arith

pub broadcast-member :
    (h h1 : Hub) (arrange : List ℕ → List ℕ) (msg : String) (c : ℕ)
    → IsHub h
    → IsFair (Event.broadcast arrange msg)
    → step (Event.broadcast arrange msg) h ≡ some h1
    → member c h1.clients ≡ true
    → member c h.clients ≡ true
unfolding step
broadcast-member h h1 arrange msg c i fair e m =
    let (u, n) = fair h.clients in
    let (h2, e2, a) =
      broadcast_to-After msg (arrange h.clients) h (u i.distinct)
        (λ d k. let x = n d in let l = i.known d in let o = i.closed d in ground arith) in
    let same : h2 ≡ h1 = ground arith in
    let kept : member c h2.clients ≡ true → member c h.clients ≡ true =
      (λ k. let x = a.clients c in ground arith) in
    kept (rw same m)

pub drain-clients : (c : ℕ) (h : Hub) → (drain c h).clients ≡ h.clients
unfolding drain
drain-clients c h = ground arith
