-- ===== src/Queues/Dequeue.antt =====
-- lib/tasks/dequeue.js: a call that takes the next member of a queue, or a given one, and is bridged
-- to it. A url is a number. `loop` says where the loop of `_getMemberFromQueue` is, which goes on by
-- itself after the promise has resolved; `phase` says where `exec` is. The answers of the database and
-- of the partner, the ends of the sleeps and the timers are the events.
pub mod Runs
pub mod Once
pub mod Waiting
pub mod Timed
mod Examples
use jambonz_feature_server.Prelude.{
  ℕ, Bool, true, false, not, ◌&&◌, Option, none, some, List, [], ◌∷◌, ◌++◌, ◌==◌, if◌then◌else◌,
}

-- `DequeueResults`, as far as the task tells them apart in its `state`.
pub data State : Type 0 where
  timeout bridged : State

-- `dequeueResult`.
pub data Outcome : Type 0 where
  timed_out complete hangup : Outcome

-- `starting` is in the first sleep, `resting` in the sleep at the end of a round.
pub data Loop : Type 0 where
  starting looking resting left : Loop

-- `getting` awaits `_getMemberFromQueue`, `joining` awaits `_dequeueUrl`.
pub data Phase : Type 0 where
  getting joining over : Phase

-- `popped` are the urls taken from the queue and `told` those that got the `dequeue` event; `parted`
-- are those that got the `hangup` event. `performed` are the results given to the action hook.
-- `hears` says that the listeners of `_dequeueUrl` are there, `posting` that its POST is in flight.
pub record Dequeuer : Type 0 where
  pub phase : Phase
  pub loop : Loop
  pub timer : Bool
  pub timedout : Bool
  pub found : Bool
  pub killed : Bool
  pub state : State
  pub partner_url : Option ℕ
  pub hears : Bool
  pub posting : Bool
  pub bridge_timer : Bool
  pub popped : List ℕ
  pub told : List ℕ
  pub parted : List ℕ
  pub performed : List Outcome

-- The constructor and `exec`, up to the first sleep. The argument is the time-out, in seconds.
unfoldable pub exec : ℕ → Dequeuer
exec seconds = record {
  phase = getting;
  loop = starting;
  timer = not (seconds == 0);
  timedout = false;
  found = false;
  killed = false;
  state = timeout;
  partner_url = none;
  hears = false;
  posting = false;
  bridge_timer = false;
  popped = [];
  told = [];
  parted = [];
  performed = [];
}

abbrev pub perform : Outcome → Dequeuer → Dequeuer
perform r d = record d { phase = over; performed = d.performed ++ r ∷ [] }

-- The timer of the time-out fires; its `resolve` counts only for the first.
abbrev pub give_up : Phase → Dequeuer → Dequeuer
give_up getting d = perform timed_out d
give_up joining d = d
give_up over d = d

unfoldable pub on_timeout : Dequeuer → Dequeuer
on_timeout d = if d.timer then give_up d.phase (record d { timer = false; timedout = true }) else d

-- The condition of the loop.
abbrev pub goes_on : Dequeuer → Bool
goes_on d = not d.killed && not d.timedout && not d.found

-- A sleep of the loop ends.
abbrev pub woken : Loop → Dequeuer → Dequeuer
woken starting d = record d { loop = looking }
woken looking d = d
woken resting d = if goes_on d then record d { loop = looking } else record d { loop = left }
woken left d = d

unfoldable pub slept : Dequeuer → Dequeuer
slept d = woken d.loop d

-- `_dequeueUrl`, up to the POST of the `dequeue` event.
abbrev pub dequeue_url : ℕ → Dequeuer → Dequeuer
dequeue_url url d = record d {
  phase = joining;
  partner_url = some url;
  hears = true;
  posting = true;
  told = d.told ++ url ∷ [];
}

-- `resolve(url)` of `_getMemberFromQueue`.
abbrev pub got : Phase → ℕ → Dequeuer → Dequeuer
got getting url d = dequeue_url url d
got joining url d = d
got over url d = d

-- The database answers a look: with a url, which it removes from the queue, with none or with an
-- error.
abbrev pub answer : Loop → Option ℕ → Dequeuer → Dequeuer
answer looking (some url) d =
    got d.phase url
      (record d { loop = resting; found = true; timer = false; popped = d.popped ++ url ∷ [] })
answer looking none d = record d { loop = resting }
answer starting r d = d
answer resting r d = d
answer left r d = d

unfoldable pub looked : Option ℕ → Dequeuer → Dequeuer
looked r d = answer d.loop r d

-- `resolve` and `reject` of `_dequeueUrl`; after a rejection the listeners are removed.
abbrev pub finish : Phase → Dequeuer → Dequeuer
finish getting d = d
finish joining d = perform complete d
finish over d = d

abbrev pub fail : Phase → Dequeuer → Dequeuer
fail getting d = d
fail joining d = perform hangup (record d { hears = false })
fail over d = d

-- The POST of the `dequeue` event is answered, or fails.
unfoldable pub posted : Bool → Dequeuer → Dequeuer
posted ok d =
    let heard = record d { posting = false } in
    if d.posting then if ok then record heard { bridge_timer = true } else fail d.phase heard else d

unfoldable pub on_bridge_timeout : Dequeuer → Dequeuer
on_bridge_timeout d = if d.bridge_timer then fail d.phase (record d { bridge_timer = false }) else d

-- `notifyQueueEvent`: the event `ready` of the given partner, once the endpoints are bridged, and the
-- event `hangup`.
unfoldable pub on_ready : ℕ → Dequeuer → Dequeuer
on_ready url d =
    let met = record d { partner_url = some url } in
    if d.hears then record met { state = bridged; bridge_timer = false } else met

unfoldable pub on_hangup : Dequeuer → Dequeuer
on_hangup d = if d.hears then finish d.phase d else d

-- `kill`
abbrev pub part : State → Option ℕ → Dequeuer → Dequeuer
part bridged (some url) d = record d { parted = d.parted ++ url ∷ [] }
part bridged none d = d
part timeout u d = d

unfoldable pub kill : Dequeuer → Dequeuer
unfolding on_hangup
kill d = let gone = record d { killed = true } in on_hangup (part d.state d.partner_url gone)
