-- ===== src/Queues/Member/Runs.antt =====
-- What can happen to a caller in a queue, in lib/tasks/enqueue.js.
use jambonz_feature_server.Prelude.{ℕ, ◌+◌, Bool, false, Option, List, [], ◌∷◌}
use jambonz_feature_server.Queues.Member.{
  Reason, Settings, Member, Event, performed, answered, added, counted,
}
use jambonz_feature_server.Queues.Member.Events.{
  posted, stored, referred, removed, kill, notify_dequeue, announced, notify_hangup, silence_over,
  hook_answered, session_over,
}

-- `is_popped` is what the partner does to the queue before it sends `dequeue`.
pub data Op : Type 0 where
  session_ends partner_leaves is_popped : Op
  counts posts stores announces removes acts silence_ends : Bool → Op
  adds refers : Option Bool → Op
  dequeues : Bool → Op
  is_killed : Reason → Op
  hook_answers : Option (ℕ × Bool) → Op

unfoldable pub step : Settings → Op → Member → Member
unfolding answered added counted posted stored referred removed kill notify_dequeue announced
    notify_hangup silence_over hook_answered session_over
step o session_ends m = session_over o m
step o partner_leaves m = notify_hangup o m
step o is_popped m = record m { in_queue = false }
step o (adds r) m = added r m
step o (counts ok) m = counted o ok m
step o (posts ok) m = posted ok m
step o (stores ok) m = stored o ok m
step o (announces ok) m = announced ok m
step o (removes ok) m = removed o ok m
step o (acts ok) m = answered ok m
step o (silence_ends ok) m = silence_over ok m
step o (refers r) m = referred o r m
step o (dequeues local) m = notify_dequeue o local m
step o (is_killed r) m = kill o r m
step o (hook_answers r) m = hook_answered o r m

unfoldable pub run : Settings → List Op → Member → Member
unfolding step
run o [] m = m
run o (op ∷ ops) m = run o ops (step o op m)

-- How many results the action hook was given, in what was sent.
abbrev pub performed_in : Event → ℕ
performed_in (performed s e) = 1
performed_in _ = 0

unfoldable pub count_performed : List Event → ℕ
count_performed [] = 0
count_performed (e ∷ es) = performed_in e + count_performed es
