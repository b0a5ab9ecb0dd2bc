-- ===== src/Requestor/Line.antt =====
-- The connection of lib/utils/ws-requestor.js: which messages are sent, and which wait in `queuedMsg`
-- for the connection or for the ack to a `session:reconnect`. A message is known by a number. The
-- answers to messages, the callbacks of `ws.send` and the timers are the events; what becomes of the
-- messages in flight is in Socket, and the attempts to connect are in Retry.
pub mod Runs
mod Examples
use jambonz_feature_server.Prelude.{
  ℕ, zero, suc, ◌+◌, ◌-◌, Bool, true, false, not, ◌&&◌, ◌||◌, Option, none, some, List, [], ◌∷◌,
  ◌++◌, ◌==◌, ltb, if◌then◌else◌,
}

-- `wants_ack` is that of `request`, `is_new` is `type === 'session:new'`.
pub record Msg : Type 0 where
  pub id : ℕ
  pub wants_ack : Bool
  pub is_new : Bool

pub data Sent : Type 0 where
  message : Msg → Sent
  reconnect : Sent

-- `_reconnectPromise`
pub data Wait : Type 0 where
  pending resolved rejected : Wait

-- The callback of `ws.send`: the one of a message that wants an ack holds for `_reconnectPromise`.
pub data Callback : Type 0 where
  flushes holds : Callback

-- `is_open` says that there is a `ws`. `first` is the message whose `request` connects. `has_init` says
-- that `_initMsgId` is set. `deferred` are the requests in `setImmediate`, `holders` counts the
-- callbacks that await `_reconnectPromise`, `scheduled` the timers of `_scheduleReconnect`.
pub record Line : Type 0 where
  pub is_open : Bool
  pub connecting : Bool
  pub closed_gracefully : Bool
  pub connections : ℕ
  pub scheduled : ℕ
  pub first : Option Msg
  pub queued : List Msg
  pub deferred : List Msg
  pub has_init : Bool
  pub reconnect_promise : Option Wait
  pub holders : ℕ
  pub callbacks : List Callback
  pub sent : List Sent

abbrev pub create : Line
create = record {
  is_open = false;
  connecting = false;
  closed_gracefully = false;
  connections = 0;
  scheduled = 0;
  first = none;
  queued = [];
  deferred = [];
  has_init = false;
  reconnect_promise = none;
  holders = 0;
  callbacks = [];
  sent = [];
}

-- `queueMsg`
abbrev pub queue_msg : Msg → Line → Line
queue_msg m l = record l { queued = l.queued ++ m ∷ [] }

-- The end of `request`, of a message other than `session:reconnect`.
abbrev pub transmit : Msg → Line → Line
transmit m l = record l {
  has_init = l.has_init || m.is_new;
  sent = l.sent ++ message m ∷ [];
  callbacks = l.callbacks ++ (if m.wants_ack then holds else flushes) ∷ [];
}

-- `request` once there is a connection.
abbrev pub pass : Option Wait → Msg → Line → Line
pass none m l = transmit m l
pass (some w) m l = queue_msg m l

-- `request`, of a message other than `session:reconnect`; where there is no connection, up to
-- `_connect`.
unfoldable pub request : Msg → Line → Line
request m l =
    if l.closed_gracefully
    then l
    else if l.is_open
    then pass l.reconnect_promise m l
    else if l.connecting
    then queue_msg m l
    else record l { connecting = true; first = some m }

-- `request('session:reconnect')`, over a connection.
abbrev pub request_reconnect : Line → Line
request_reconnect l = if l.closed_gracefully then l else record l {
  reconnect_promise = some pending;
  sent = l.sent ++ reconnect ∷ [];
  callbacks = l.callbacks ++ (if l.has_init then flushes else holds) ∷ [];
}

-- The loop of `sendQueuedMsgs` over `queuedMsg`, of which `queued` is what it has still to visit, with
-- what the requests add to it meanwhile. The fuel is the number of steps, and `none` where it is short.
unfoldable pub send_queued_msgs : ℕ → Line → Option Line
unfolding request
send_queued_msgs zero l = none
send_queued_msgs (suc n) l = elim l.queued [
  | [] ↦ some l
  | m ∷ ms ↦
      (let rest = record l { queued = ms } in
        send_queued_msgs n (
          if m.wants_ack
          then request m rest
          else record rest { deferred = rest.deferred ++ m ∷ [] }))
]

-- The callback of a message that holds, once `_reconnectPromise` is settled, or is not there.
abbrev pub release : ℕ → Option Wait → Line → Option Line
release n none l = send_queued_msgs n l
release n (some resolved) l =
    send_queued_msgs n (record l { reconnect_promise = none; holders = 0 })
release n (some rejected) l = some (record l { reconnect_promise = none; holders = 0; queued = [] })
release n (some pending) l = some (record l { holders = suc l.holders })

-- The next callback of `ws.send`.
abbrev pub written_in : List Callback → ℕ → Line → Option Line
written_in [] n l = some l
written_in (flushes ∷ cs) n l = send_queued_msgs n (record l { callbacks = cs })
written_in (holds ∷ cs) n l = release n l.reconnect_promise (record l { callbacks = cs })

unfoldable pub written : ℕ → Line → Option Line
written n l = written_in l.callbacks n l

-- `success` and `failure` of a message in flight settle `_reconnectPromise`, which lets the callbacks
-- go on that await it.
abbrev pub settle_wait : Bool → Wait → Wait
settle_wait ok pending = if ok then resolved else rejected
settle_wait ok resolved = resolved
settle_wait ok rejected = rejected

abbrev pub settled_in : Option Wait → ℕ → Bool → Line → Option Line
settled_in none n ok l = some l
settled_in (some w) n ok l =
    let now = some (settle_wait ok w) in
    elim l.holders [ zero ↦ some (record l { reconnect_promise = now }) | suc k ↦ release n now l ]

-- An ack comes, or a message in flight fails; `_recvAck` forgets `_initMsgId`.
unfoldable pub acked : ℕ → Line → Option Line
acked n l = settled_in l.reconnect_promise n true (record l { has_init = false })

unfoldable pub on_failure : ℕ → Line → Option Line
on_failure n l = settled_in l.reconnect_promise n false l

-- The next `setImmediate`.
abbrev pub run_deferred_in : List Msg → Line → Line
unfolding request
run_deferred_in [] l = l
run_deferred_in (m ∷ ms) l = request m (record l { deferred = ms })

unfoldable pub run_deferred : Line → Line
run_deferred l = run_deferred_in l.deferred l

-- `_onOpen`, with the listener of `ready` and the rest of the `request` that connected.
abbrev pub go_on : Option Msg → Line → Line
go_on none l = l
go_on (some m) l = pass l.reconnect_promise m (record l { first = none })

unfoldable pub on_open : Line → Line
on_open l =
    let up = record l { is_open = true; connecting = false; connections = suc l.connections } in
    let met = if ltb 1 up.connections then request_reconnect up else up in go_on met.first met

-- The attempts of the `request` that connects all failed, or the attempt of `_scheduleReconnect`.
unfoldable pub connect_failed : Line → Line
connect_failed l = record l { connecting = false; first = none }

-- `_onClose`, for a code other than 1000, with `_onSocketClosed`.
unfoldable pub on_close : ℕ → Line → Line
on_close max_reconnects l =
    let down = record l { is_open = false } in
    if ltb 0 l.connections && ltb l.connections max_reconnects && not l.closed_gracefully
    then record down { scheduled = suc l.scheduled }
    else down

-- The timer of `_scheduleReconnect`.
abbrev pub time_to_reconnect_in : ℕ → Line → Line
time_to_reconnect_in zero l = l
time_to_reconnect_in (suc k) l =
    let rung = record l { scheduled = k } in
    if not l.is_open && not l.connecting then record rung { connecting = true } else rung

unfoldable pub time_to_reconnect : Line → Line
time_to_reconnect l = time_to_reconnect_in l.scheduled l

-- `close`, and `_onClose` for the code 1000.
unfoldable pub close_gracefully : Line → Line
close_gracefully l = record l { closed_gracefully = true; is_open = false }
