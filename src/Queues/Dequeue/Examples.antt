-- ===== src/Queues/Dequeue/Examples.antt =====
-- Calls of lib/tasks/dequeue.js that dequeue.
use jambonz_feature_server.Prelude.{◌≤◌, ◌≡◌, refl, true, false, none, some, [], ◌∷◌, ◌++◌, length}
use jambonz_feature_server.Queues.Dequeue.{Dequeuer, exec, timed_out, getting, resting}
use jambonz_feature_server.Queues.Dequeue.Runs.{
  times_out, sleeps, partner_leaves, is_killed, looks, posts, partner_ready, run,
}
use jambonz_feature_server.Queues.Dequeue.Once.{run_takes_once}
use jambonz_feature_server.Queues.Dequeue.Waiting.{killed_look_waits, late_look_loses}
use jambonz_feature_server.Queues.Dequeue.Timed.{is_getting, time_out_ends_look}

run_takes_once_example :
    length
        (run
          (sleeps ∷ looks (some 7) ∷ posts true ∷ partner_ready 8 ∷ partner_leaves ∷ [])
          (exec 5)).popped
      ≤ 1
    × length
        (run
          (sleeps ∷ looks (some 7) ∷ posts true ∷ partner_ready 8 ∷ partner_leaves ∷ [])
          (exec 5)).performed
      ≤ 1
run_takes_once_example =
    run_takes_once 5 (sleeps ∷ looks (some 7) ∷ posts true ∷ partner_ready 8 ∷ partner_leaves ∷ [])

time_out_ends_look_example :
    is_getting (run ((sleeps ∷ looks none ∷ []) ++ times_out ∷ []) (exec 5)).phase ≡ false
time_out_ends_look_example = time_out_ends_look 5 (sleeps ∷ looks none ∷ []) refl

-- A call without a time-out that found nobody.
abbrev none_found : Dequeuer
unfolding exec
none_found = record (exec 0) { loop = resting }

killed_look_waits_example :
    (run (is_killed ∷ sleeps ∷ sleeps ∷ []) none_found).phase ≡ getting
    × (run (is_killed ∷ sleeps ∷ sleeps ∷ []) none_found).performed ≡ none_found.performed
unfolding none_found exec
killed_look_waits_example =
    killed_look_waits none_found (sleeps ∷ sleeps ∷ []) refl refl refl refl refl refl

late_look_loses_example :
    (run (sleeps ∷ times_out ∷ looks (some 7) ∷ sleeps ∷ []) (exec 1)).told ≡ []
    × (run (sleeps ∷ times_out ∷ looks (some 7) ∷ sleeps ∷ []) (exec 1)).popped ≡ 7 ∷ []
    × (run (sleeps ∷ times_out ∷ looks (some 7) ∷ sleeps ∷ []) (exec 1)).performed ≡ timed_out ∷ []
late_look_loses_example = late_look_loses 1 7 (sleeps ∷ []) refl
