-- ===== src/Tests/Pumps.antt =====
-- Theorems on the goroutines around the hub at concrete inputs.
use skills.Prelude.{◌+◌, ◌≤◌, ◌≡◌, refl, [], ◌∷◌, ◌++◌, ◌<◌, length, arith, true}
use skills.Hub.{Hub, Event, step, buffer_size}
use skills.Hub.Members.{member, insert}
use skills.Hub.Pumps.{
  Reader, Writer, running, ended, Sockets, start, set_reader, put_connection, fresh, take_up,
  take_message, Step, Reach,
}
use skills.Hub.Pumps.Served.{IsServed}
use skills.Hub.Pumps.Delivers.{Reach-IsServed}
use skills.Hub.Pumps.Over.{IsOver, Reach-IsOver}
use skills.Hub.Pumps.Progress.{IsHeard, Reach-IsHeard}

-- A client connects, and one message goes through the loop to its `WritePump`.
abbrev connected : Sockets
connected =
    take_up Event.connect
      (put_connection 0 fresh (record (record (start 1) { waiting = 1 }) { waiting = 0 }))

abbrev told : Sockets
told = record connected { queue = "a" ∷ []; sent = "a" ∷ [] }

abbrev relayed : Sockets
relayed = take_up (Event.broadcast (λ cs. cs) "a") (record told { queue = [] })

abbrev delivered : Sockets
delivered = take_message 0 "a" Writer.writing relayed

connected_reached : Reach (start 1) connected
connected_reached = Reach.next (Reach.next Reach.here Step.upgrade) (Step.register 0 refl refl)

delivered_reached : Reach (start 1) delivered
unfolding take_up step skills.Hub.new_client skills.Hub.register_client skills.Hub.broadcast_to
    skills.Hub.try_send member insert
delivered_reached =
    Reach.next
      (Reach.next (Reach.next connected_reached (Step.broadcast "a" (omega arith)))
        (Step.relay (λ cs. cs) "a" [] refl refl (λ cs. (λ d. d, λ c. refl))))
      (Step.write 0 "a" [] Writer.writing refl refl)

Reach-IsServed_example : IsServed delivered
Reach-IsServed_example = Reach-IsServed 1 delivered_reached

abbrev left : Sockets
left = set_reader 0 Reader.leaving connected

left_reached : Reach (start 1) left
unfolding take_up step skills.Hub.new_client skills.Hub.register_client member insert
left_reached = Reach.next connected_reached (Step.read_fails 0 refl)

left_running : left.loop ≡ running
unfolding take_up step skills.Hub.new_client skills.Hub.register_client member insert
left_running = refl

Reach-IsHeard_example : IsHeard left
Reach-IsHeard_example = Reach-IsHeard 1 left_reached left_running

-- The loop ends with the client's handler at its send, and one more message is accepted.
abbrev over : Sockets
over = record (record left { cancelled = true }) { loop = ended }

over_reached : Reach (start 1) over
over_reached = Reach.next (Reach.next left_reached Step.cancel) (Step.end left_running refl)

abbrev later : Sockets
later = record over { queue = over.queue ++ ("b" ∷ []); sent = over.sent ++ ("b" ∷ []) }

over_room : length over.queue < buffer_size
unfolding take_up step skills.Hub.new_client skills.Hub.register_client member insert
over_room = omega arith

Reach-IsOver_example :
    IsOver over later × (length later.sent + length over.queue ≤ length over.sent + buffer_size)
Reach-IsOver_example =
    Reach-IsOver 1 over_reached refl (Reach.next Reach.here (Step.broadcast "b" over_room))
