-- ===== src/Requestor/Settling.antt =====
-- Whether the promises of lib/utils/ws-requestor.js are settled. The ids of the messages and of the
-- promises are numbers here, taken in the order of the requests, since `short.generate()` gives each
-- message an id of its own.
use jambonz_feature_server.Prelude.{
  ℕ, suc, ◌+◌, ◌≤◌, ◌≡◌, refl, ap, ◌∙◌, Bool, true, false, Option, none, some, List, [], ◌∷◌, ◌++◌,
  if◌then◌else◌, arith, Option-cases, inl, inr,
}
use jambonz_feature_server.Prelude.Maps.{lookup, remove}
use jambonz_feature_server.Requestor.Socket.{
  Pending, Socket, cancel, settle, send, time_out, recv_ack, abandon_all, clear_pending_messages,
  close, on_socket_closed,
}
use jambonz_feature_server.Requestor.InFlight.{
  mem, times_settled, in_flight_for, HasTimers, mem-cancel, mem-append, times_settled-append,
  HasTimers-remove, in_flight_for-remove, in_flight_for-remove-le, HasTimers-insert,
  in_flight_for-insert, lookup-HasTimers,
}

-- What can happen to the messages, but for a reconnect. A time-out rings only while it runs.
pub data Op : Type 0 where
  sends : Bool → Op
  acked rings : ℕ → Op
  closes : Op
  drops : Bool → Op

abbrev pub step : Op → ℕ → Socket → Socket
step (sends is_new) n s = send is_new n n s
step (acked id) n s = recv_ack id s
step (rings id) n s = if mem id s.timers then time_out id s else s
step closes n s = close s
step (drops reconnects) n s = on_socket_closed reconnects s

abbrev pub next : Op → ℕ → ℕ
next (sends _) n = suc n
next _ n = n

unfoldable pub run : List Op → ℕ → Socket → Socket
run [] n s = s
run (op ∷ ops) n s = run ops (next op n) (step op n s)

-- Before the request of number `n`.
pub record IsTracked (n : ℕ) (s : Socket) : Type 0 where
  pub timers : HasTimers s.timers s.in_flight
  pub once : (q : ℕ) → times_settled q s.settled + in_flight_for q s.in_flight ≤ 1
  pub fresh : (q : ℕ) → n ≤ q → times_settled q s.settled + in_flight_for q s.in_flight ≡ 0

send-IsTracked :
    (is_new : Bool) (n : ℕ) (s : Socket) → IsTracked n s → IsTracked (suc n) (send is_new n n s)
unfolding send
send-IsTracked is_new n s h = record {
  timers =
      HasTimers-insert n s.timers (s.timers ++ n ∷ []) s.in_flight
        (λ j r. ground (arith, mem-append n j s.timers)) (ground (arith, mem-append n n s.timers))
        h.timers;
  once = λ q. ground (
    arith,
    h.once q,
    h.fresh q,
    in_flight_for-insert q n (some (record { timer = n; promise = n })) s.in_flight,
  );
  fresh = λ q le. ground (
    arith,
    h.fresh q,
    in_flight_for-insert q n (some (record { timer = n; promise = n })) s.in_flight,
  );
}

-- Taking the entry of an id out, with or without settling its promise.
taken-IsTracked :
    (n id : ℕ) (resolved : Bool) (p : Pending) (s : Socket)
    → IsTracked n s
    → lookup id s.in_flight ≡ some (some p)
    → IsTracked n (settle resolved p (record s { in_flight = remove id s.in_flight }))
unfolding settle
taken-IsTracked n id resolved p s h e =
    let (p', same, timer, promise) = lookup-HasTimers s.timers id s.in_flight (some p) h.timers e in
    record {
      timers =
          HasTimers-remove id s.timers (cancel p.timer s.timers) s.in_flight
            (λ j ne r. ground (arith, mem-cancel p.timer j s.timers)) h.timers;
      once = λ q. ground (
        arith,
        h.once q,
        in_flight_for-remove q id s.in_flight (some p),
        times_settled-append q s.settled (record { promise = p.promise; resolved = resolved }),
      );
      fresh = λ q le. ground (
        arith,
        h.fresh q,
        in_flight_for-remove q id s.in_flight (some p),
        times_settled-append q s.settled (record { promise = p.promise; resolved = resolved }),
      );
    }

recv_ack-IsTracked : (id n : ℕ) (s : Socket) → IsTracked n s → IsTracked n (recv_ack id s)
unfolding recv_ack
recv_ack-IsTracked id n s h =
    let known : Socket = record s { init_msg_id = none } in
    let k : IsTracked n known = record { timers = h.timers; once = h.once; fresh = h.fresh } in
    elim (Option-cases (lookup id s.in_flight)) [
      | inl missing ↦ rw (missing, recv_ack) k
      | inr (o, found) ↦
          let (p, same, _, _) = lookup-HasTimers s.timers id s.in_flight o h.timers found in
          rw (found, same, recv_ack) (taken-IsTracked n id true p known k (found ∙ ap some same))
    ]

time_out-IsTracked : (id n : ℕ) (s : Socket) → IsTracked n s → IsTracked n (time_out id s)
unfolding settle time_out
time_out-IsTracked id n s h = elim (Option-cases (lookup id s.in_flight)) [
  | inl missing ↦
      rw (missing, time_out)
        (record {
          timers =
              HasTimers-remove id s.timers (cancel id s.timers) s.in_flight
                (λ j ne r. ground (arith, mem-cancel id j s.timers)) h.timers;
          once = λ q. ground (arith, h.once q, in_flight_for-remove-le q id s.in_flight);
          fresh = λ q le. ground (arith, h.fresh q, in_flight_for-remove-le q id s.in_flight);
        })
  | inr (o, found) ↦
      let (p, same, timer, _) = lookup-HasTimers s.timers id s.in_flight o h.timers found in
      let at_p : lookup id s.in_flight ≡ some (some p) = found ∙ ap some same in
      rw (at_p, time_out)
        (record {
          timers =
              HasTimers-remove id s.timers (cancel p.timer (cancel id s.timers)) s.in_flight
                (λ j ne r.
                  ground
                    (arith, mem-cancel p.timer j (cancel id s.timers), mem-cancel id j s.timers))
                h.timers;
          once = λ q. ground (
            arith,
            h.once q,
            in_flight_for-remove q id s.in_flight (some p),
            times_settled-append q s.settled (record { promise = p.promise; resolved = false }),
          );
          fresh = λ q le. ground (
            arith,
            h.fresh q,
            in_flight_for-remove q id s.in_flight (some p),
            times_settled-append q s.settled (record { promise = p.promise; resolved = false }),
          );
        })
]

-- Abandoning every entry settles each promise at most as often as there are entries for it.
pub abandon_all_lem :
    (ts : List ℕ) (m : List (ℕ × Option Pending)) (s : Socket)
    → HasTimers ts m
    → ((abandon_all m s).1 ≡ true)
      × ((q : ℕ)
          → times_settled q (abandon_all m s).0.settled
            ≤ times_settled q s.settled + in_flight_for q m)
unfolding abandon_all settle
abandon_all_lem ts [] s h = (refl, λ q. omega arith)
abandon_all_lem ts ((id, none) ∷ m) s h = absurd h
abandon_all_lem ts ((id, some p) ∷ m) s (_, _, _, h) =
    let quiet : Socket = record s { timers = cancel p.timer s.timers } in
    let settled : Socket = settle false p quiet in
    elim (Option-cases s.init_msg_id) [
      | inl none_new ↦
          let (ran, few) = abandon_all_lem ts m settled h in
          (
            rw (none_new, abandon_all) ran,
            λ q.
                let once_more =
                  times_settled-append q s.settled
                    (record { promise = p.promise; resolved = false }) in
                rw (none_new, abandon_all) (ground (arith, few q, once_more)),
          )
      | inr (i, waiting) ↦
          let (ran, few) = abandon_all_lem ts m quiet h in
          (rw (waiting, abandon_all) ran, λ q. rw (waiting, abandon_all) (ground (arith, few q)))
    ]

clear_pending_messages-IsTracked :
    (n : ℕ) (s : Socket) → IsTracked n s → IsTracked n (clear_pending_messages s)
unfolding clear_pending_messages
clear_pending_messages-IsTracked n s h =
    let (ran, few) = abandon_all_lem s.timers s.in_flight s h.timers in
    rw ran (record {
      timers = tt;
      once = λ q. omega (arith, few q, h.once q);
      fresh = λ q le. omega (arith, few q, h.fresh q le);
    })

on_socket_closed-IsTracked :
    (reconnects : Bool) (n : ℕ) (s : Socket)
    → IsTracked n s
    → IsTracked n (on_socket_closed reconnects s)
unfolding on_socket_closed
on_socket_closed-IsTracked reconnects n s h = ground (arith, clear_pending_messages-IsTracked n s h)

step-IsTracked :
    (op : Op) (n : ℕ) (s : Socket) → IsTracked n s → IsTracked (next op n) (step op n s)
unfolding close
step-IsTracked (sends is_new) n s h = send-IsTracked is_new n s h
step-IsTracked (acked id) n s h = recv_ack-IsTracked id n s h
step-IsTracked (rings id) n s h = ground (arith, time_out-IsTracked id n s h)
step-IsTracked closes n s h =
    clear_pending_messages-IsTracked n (record s { closed_gracefully = true })
      (record { timers = h.timers; once = h.once; fresh = h.fresh })
step-IsTracked (drops reconnects) n s h = on_socket_closed-IsTracked reconnects n s h

abbrev pub count_sends : ℕ → List Op → ℕ
count_sends n [] = n
count_sends n (op ∷ ops) = count_sends (next op n) ops

-- After any list of requests, acks, time-outs that ring, closes and drops of the socket, without a
-- reconnect of the session, from a state where every message in flight has a time-out that runs,
-- and each promise is settled or in flight at most once and not yet if its number is still to come,
-- the same holds.
pub run-IsTracked :
    (ops : List Op) (n : ℕ) (s : Socket)
    → IsTracked n s
    → IsTracked (count_sends n ops) (run ops n s)
unfolding run
run-IsTracked [] n s h = h
run-IsTracked (op ∷ ops) n s h =
    run-IsTracked ops (next op n) (step op n s) (step-IsTracked op n s h)
