-- ===== src/Requestor/Abandoned.antt =====
-- Promises of lib/utils/ws-requestor.js after a reconnect and after a close.
use jambonz_feature_server.Prelude.{
  ℕ, ◌≡◌, ◌≢◌, refl, true, false, Option, none, some, List, [], ◌∷◌, arith,
}
use jambonz_feature_server.Prelude.Maps.{
  lookup, insert, remove, lookup-insert, lookup-insert_self, lookup-remove, lookup-remove_self,
}
use jambonz_feature_server.Requestor.Socket.{
  Pending, Socket, cancel, entry, send_reconnect, time_out, abandon_all, clear_pending_messages,
  close,
}
use jambonz_feature_server.Requestor.InFlight.{mem, HasTimers, mem-cancel}
use jambonz_feature_server.Requestor.Settling.{IsTracked, abandon_all_lem}

send_reconnect_moves :
    (s : Socket) (p : Pending) (id new q : ℕ)
    → s.init_msg_id ≡ some id
    → lookup id s.in_flight ≡ some (some p)
    → send_reconnect new q s
      ≡ record s { in_flight = insert new (some p) (remove id s.in_flight); init_msg_id = some new }
unfolding send_reconnect
send_reconnect_moves s p id new q i e = rw (i, send_reconnect) (rw (e, entry))

time_out_missing :
    (id : ℕ) (s : Socket)
    → lookup id s.in_flight ≡ none
    → time_out id s ≡ record s { timers = cancel id s.timers; in_flight = remove id s.in_flight }
unfolding time_out
time_out_missing id s e = rw (e, time_out)

-- Where the first message is in flight and the session reconnects under another id before its ack,
-- the time-out of the first message settles no promise, and the message stays in flight with no
-- time-out running that was set for it.
pub reconnect_loses_time_out :
    (s : Socket) (p : Pending) (id new q : ℕ)
    → s.init_msg_id ≡ some id
    → lookup id s.in_flight ≡ some (some p)
    → id ≢ new
    → ((time_out id (send_reconnect new q s)).settled ≡ s.settled)
      × (lookup new (time_out id (send_reconnect new q s)).in_flight ≡ some (some p))
      × (mem id (time_out id (send_reconnect new q s)).timers ≡ false)
reconnect_loses_time_out s p id new q i e ne =
    let m = remove id s.in_flight in
    let t : Socket = record s { in_flight = insert new (some p) m; init_msg_id = some new } in
    let gone : lookup id t.in_flight ≡ none =
      ground (arith, lookup-insert new id (some p) m, lookup-remove_self id s.in_flight) in
    rw (send_reconnect_moves s p id new q i e, time_out_missing id t gone)
      (
        refl,
        ground (arith, lookup-remove id new t.in_flight, lookup-insert_self new (some p) m),
        ground (arith, mem-cancel id id s.timers),
      )

abandon_all_keeps :
    (ts : List ℕ) (m : List (ℕ × Option Pending)) (s : Socket) (id : ℕ)
    → HasTimers ts m
    → s.init_msg_id ≡ some id
    → (abandon_all m s).0.settled ≡ s.settled
unfolding abandon_all
abandon_all_keeps ts [] s id h i = refl
abandon_all_keeps ts ((j, none) ∷ m) s id h i = refl
abandon_all_keeps ts ((j, some p) ∷ m) s id (_, _, _, h) i =
    let quiet : Socket = record s { timers = cancel p.timer s.timers } in
    rw (i, abandon_all) (abandon_all_keeps ts m quiet id h i)

-- Where messages are tracked and the ack to the first message has not come, `close` settles no
-- promise and drops every message in flight.
pub close_abandons :
    (s : Socket) (n id : ℕ)
    → IsTracked n s
    → s.init_msg_id ≡ some id
    → ((close s).settled ≡ s.settled) × ((close s).in_flight ≡ [])
unfolding close clear_pending_messages
close_abandons s n id h i =
    let closing : Socket = record s { closed_gracefully = true } in
    let (ran, _) = abandon_all_lem s.timers s.in_flight closing h.timers in
    rw ran (abandon_all_keeps s.timers s.in_flight closing id h.timers i, refl)
