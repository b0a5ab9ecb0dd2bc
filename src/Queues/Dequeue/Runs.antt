-- ===== src/Queues/Dequeue/Runs.antt =====
-- What can happen to a call that dequeues, in lib/tasks/dequeue.js.
use jambonz_feature_server.Prelude.{ℕ, Bool, Option, List, [], ◌∷◌}
use jambonz_feature_server.Queues.Dequeue.{
  Dequeuer, on_timeout, slept, looked, posted, on_bridge_timeout, on_ready, on_hangup, kill,
}

pub data Op : Type 0 where
  times_out sleeps bridge_times_out partner_leaves is_killed : Op
  looks : Option ℕ → Op
  posts : Bool → Op
  partner_ready : ℕ → Op

unfoldable pub step : Op → Dequeuer → Dequeuer
unfolding on_timeout slept looked posted on_bridge_timeout on_ready on_hangup kill
step times_out d = on_timeout d
step sleeps d = slept d
step bridge_times_out d = on_bridge_timeout d
step partner_leaves d = on_hangup d
step is_killed d = kill d
step (looks r) d = looked r d
step (posts ok) d = posted ok d
step (partner_ready url) d = on_ready url d

unfoldable pub run : List Op → Dequeuer → Dequeuer
unfolding step
run [] d = d
run (op ∷ ops) d = run ops (step op d)
