-- ===== src/Requestor/Socket.antt =====
-- The messages of lib/utils/ws-requestor.js that wait for an ack. A message is known by its id and by
-- the promise that `request` returned for it; `timers` holds the ids that the running time-outs were
-- set for, since the callback of a time-out keeps the id under which the message was first sent.
use jambonz_feature_server.Prelude.{
  ℕ, Bool, true, false, not, ◌&&◌, Option, none, some, List, [], ◌∷◌, ◌++◌, ◌==◌, if◌then◌else◌,
}
use jambonz_feature_server.Prelude.Maps.{lookup, insert, remove}

-- An entry of `messagesInFlight`: its `timer`, by the id it was set for, and the promise that its
-- `success` and `failure` settle.
pub record Pending : Type 0 where
  pub timer : ℕ
  pub promise : ℕ

pub record Settled : Type 0 where
  pub promise : ℕ
  pub resolved : Bool

pub record Socket : Type 0 where
  -- An entry may hold `undefined`, here `none`.
  pub in_flight : List (ℕ × Option Pending)
  pub timers : List ℕ
  pub settled : List Settled
  pub init_msg_id : Option ℕ
  pub closed_gracefully : Bool

abbrev pub init : Socket
init = record {
  in_flight = [];
  timers = [];
  settled = [];
  init_msg_id = none;
  closed_gracefully = false;
}

-- `clearTimeout`
unfoldable pub cancel : ℕ → List ℕ → List ℕ
cancel t [] = []
cancel t (u ∷ us) = let rest = cancel t us in if u == t then rest else u ∷ rest

abbrev pub entry : ℕ → Socket → Option Pending
entry msgid s = elim (lookup msgid s.in_flight) [ none ↦ none | some p ↦ p ]

-- `success` and `failure` of an entry.
unfoldable pub settle : Bool → Pending → Socket → Socket
settle resolved p s = record s {
  timers = cancel p.timer s.timers;
  settled = s.settled ++ record { promise = p.promise; resolved = resolved } ∷ [];
}

-- The end of `request`, for a message that wants an ack; `is_new` is `type === 'session:new'`.
unfoldable pub send : Bool → ℕ → ℕ → Socket → Socket
send is_new msgid promise s = record s {
  in_flight = insert msgid (some (record { timer = msgid; promise = promise })) s.in_flight;
  timers = s.timers ++ msgid ∷ [];
  init_msg_id = if is_new then some msgid else s.init_msg_id;
}

-- The same for `session:reconnect`: before the ack to `session:new` came, its entry moves to the new id.
unfoldable pub send_reconnect : ℕ → ℕ → Socket → Socket
send_reconnect msgid promise s = elim s.init_msg_id [
  | none ↦ send false msgid promise s
  | some id ↦ record s {
    in_flight = insert msgid (entry id s) (remove id s.in_flight);
    init_msg_id = some msgid;
  }
]

-- The callback of a time-out that was set for `msgid`.
unfoldable pub time_out : ℕ → Socket → Socket
time_out msgid s =
    let rung = record s { timers = cancel msgid s.timers } in
    let told = elim (entry msgid s) as (λ _. Socket) [
      | none ↦ rung
      | some p ↦ settle false p rung
    ] in
    record told { in_flight = remove msgid told.in_flight }

-- `_recvAck`
unfoldable pub recv_ack : ℕ → Socket → Socket
recv_ack msgid s =
    let known = record s { init_msg_id = none } in
    elim (entry msgid known) [
      | none ↦ known
      | some p ↦ settle true p (record known { in_flight = remove msgid known.in_flight })
    ]

-- The loop of `_clearPendingMessages`; `none` stands for the error that an `undefined` entry throws.
unfoldable pub abandon_all : List (ℕ × Option Pending) → Socket → Socket × Bool
abandon_all [] s = (s, true)
abandon_all ((id, none) ∷ m) s = (s, false)
abandon_all ((id, some p) ∷ m) s =
    let quiet = record s { timers = cancel p.timer s.timers } in
    elim s.init_msg_id [
      | none ↦ abandon_all m (settle false p quiet)
      | some _ ↦ abandon_all m quiet
    ]

-- `_clearPendingMessages`
unfoldable pub clear_pending_messages : Socket → Socket
clear_pending_messages s =
    let (t, ran) = abandon_all s.in_flight s in if ran then record t { in_flight = [] } else t

-- What `close` does to the messages; its `catch` keeps the error.
unfoldable pub close : Socket → Socket
close s = clear_pending_messages (record s { closed_gracefully = true })

-- The messages after `_onSocketClosed`, where `reconnects` is its test of the connections made so far.
unfoldable pub on_socket_closed : Bool → Socket → Socket
on_socket_closed reconnects s =
    if reconnects && not s.closed_gracefully
    then (elim s.init_msg_id [ none ↦ clear_pending_messages s | some _ ↦ s ])
    else s
