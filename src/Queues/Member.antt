-- ===== src/Queues/Member.antt =====
-- lib/tasks/enqueue.js, with `transferCallToFeatureServer` of lib/tasks/task.js: a caller in a queue.
-- `phase` says where `exec` is, `bridge` where `_doBridge` is, which may run beside it, and `hook` where
-- the loop of the wait hook is. The answers of the database, of the partner and of the hooks are the
-- events; `out` records what the task sends.
pub mod Events
pub mod Runs
pub mod Early
pub mod Late
mod Examples
use jambonz_feature_server.Prelude.{
  ℕ, zero, suc, Bool, true, false, not, ◌&&◌, Option, none, some, List, [], ◌∷◌, ◌++◌, ◌==◌,
  if◌then◌else◌,
}

-- `QueueResults`, of which `wait` is spelled `hangup`.
pub data State : Type 0 where
  wait bridged error leave : State

pub data Reason : Type 0 where
  hangup replaced other : Reason

pub data Phase : Type 0 where
  adding counting waiting bridging acting settling over : Phase

pub data Bridge : Type 0 where
  apart storing referring joined done : Bridge

-- `playing` holds how many tasks the session runs.
pub data Hook : Type 0 where
  idle silent asking ended : Hook
  playing : ℕ → Hook

-- The queue events `join` and `leave`, the events sent to the partner, the unbridging of the endpoint,
-- and the result given to the action hook, which says whether tasks are expected.
pub data Event : Type 0 where
  join left_abandoned left_dequeued told_ready told_hangup unbridged : Event
  performed : State → Bool → Event

-- `bridge_now` is set on the server that a waiting call was moved to.
pub record Settings : Type 0 where
  pub has_wait_hook : Bool
  pub has_action_hook : Bool
  pub bridge_now : Bool

-- `hears_dequeue` and `hears_kill` are the listeners of `_doWait`, `hears_partner` those of
-- `_bridgeLocal`. `removing` and `announcing` count the calls that await the database after a kill and
-- after a `dequeue` event. `is_posting` says that the `ready` event is in flight.
pub record Member : Type 0 where
  pub phase : Phase
  pub bridge : Bridge
  pub hook : Hook
  pub state : State
  pub in_queue : Bool
  pub killed : Bool
  pub kill_reason : Option Reason
  pub task_done : Bool
  pub leaves : Bool
  pub has_session : Bool
  pub has_details : Bool
  pub dequeued : Bool
  pub call_moved : Bool
  pub hears_dequeue : Bool
  pub hears_kill : Bool
  pub hears_partner : Bool
  pub is_posting : Bool
  pub removing : ℕ
  pub announcing : ℕ
  pub out : List Event

abbrev pub log : Event → Member → Member
log e m = record m { out = m.out ++ e ∷ [] }

-- `_bridgeLocal`
abbrev pub bridge_local : Member → Member
bridge_local m = record (log told_ready m) {
  bridge = joined;
  state = bridged;
  hears_partner = true;
  is_posting = true;
}

-- The constructor and `exec`, up to the first await.
unfoldable pub exec : Settings → Member
exec o =
    let new : Member = record {
      phase = adding;
      bridge = apart;
      hook = idle;
      state = wait;
      in_queue = false;
      killed = false;
      kill_reason = none;
      task_done = false;
      leaves = false;
      has_session = false;
      has_details = false;
      dequeued = false;
      call_moved = false;
      hears_dequeue = false;
      hears_kill = false;
      hears_partner = false;
      is_posting = false;
      removing = 0;
      announcing = 0;
      out = [];
    } in
    if o.bridge_now then record (bridge_local new) { phase = bridging; has_details = true } else new

-- `awaitTaskDone`, and `notifyTaskDone`, which may end it.
abbrev pub settle : Member → Member
settle m = if m.task_done then record m { phase = over } else record m { phase = settling }

abbrev pub end_wait : Phase → Member → Member
end_wait settling m = record m { phase = over }
end_wait adding m = m
end_wait counting m = m
end_wait waiting m = m
end_wait bridging m = m
end_wait acting m = m
end_wait over m = m

abbrev pub notify_task_done : Member → Member
notify_task_done m = end_wait m.phase (record m { task_done = true })

-- The rest of `exec` after `_doWait` or `_doBridge`, with `performAction`.
abbrev pub expects : Option Reason → Bool
expects (some replaced) = false
expects _ = true

abbrev pub act : Settings → Member → Member
act o m =
    if m.call_moved
    then settle m
    else if o.has_action_hook
    then record (log (performed m.state (expects m.kill_reason)) m) { phase = acting }
    else settle m

-- The action hook answers, or fails: then `exec` ends in its `catch`.
abbrev pub answered_in : Phase → Bool → Member → Member
answered_in acting ok m = if ok then settle m else record m { phase = over }
answered_in adding ok m = m
answered_in counting ok m = m
answered_in waiting ok m = m
answered_in bridging ok m = m
answered_in settling ok m = m
answered_in over ok m = m

unfoldable pub answered : Bool → Member → Member
answered ok m = answered_in m.phase ok m

-- The promise of `_doWait` is resolved, or that of `_doBridge`.
abbrev pub resolve_in : Phase → Settings → Member → Member
resolve_in waiting o m = act o m
resolve_in adding o m = m
resolve_in counting o m = m
resolve_in bridging o m = m
resolve_in acting o m = m
resolve_in settling o m = m
resolve_in over o m = m

abbrev pub bridge_over : Phase → Settings → Member → Member
bridge_over bridging o m = act o m
bridge_over adding o m = m
bridge_over counting o m = m
bridge_over waiting o m = m
bridge_over acting o m = m
bridge_over settling o m = m
bridge_over over o m = m

-- `_addToQueue`: the database says whether the url was added, and then what the length is; a failed
-- call ends `exec`.
abbrev pub added_in : Phase → Option Bool → Member → Member
added_in adding (some ok) m = record m { phase = counting; in_queue = ok }
added_in adding none m = record m { phase = over }
added_in counting r m = m
added_in waiting r m = m
added_in bridging r m = m
added_in acting r m = m
added_in settling r m = m
added_in over r m = m

unfoldable pub added : Option Bool → Member → Member
added r m = added_in m.phase r m

-- `_doWait`, up to the first await.
abbrev pub do_wait : Settings → Member → Member
do_wait o m =
    let heard = record m { phase = waiting; hears_dequeue = true; hears_kill = true } in
    if o.has_wait_hook && not m.killed then record heard { hook = silent } else heard

abbrev pub counted_in : Phase → Settings → Bool → Member → Member
counted_in counting o ok m = if ok then do_wait o (log join m) else record m { phase = over }
counted_in adding o ok m = m
counted_in waiting o ok m = m
counted_in bridging o ok m = m
counted_in acting o ok m = m
counted_in settling o ok m = m
counted_in over o ok m = m

unfoldable pub counted : Settings → Bool → Member → Member
counted o ok m = counted_in m.phase o ok m
