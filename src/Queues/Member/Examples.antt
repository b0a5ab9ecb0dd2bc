-- ===== src/Queues/Member/Examples.antt =====
-- Callers of lib/tasks/enqueue.js in a queue.
use jambonz_feature_server.Prelude.{◌≡◌, refl, true, false, some, [], ◌∷◌}
use jambonz_feature_server.Queues.Member.{
  Settings, Member, replaced, waiting, asking, playing, joined, done, exec,
}
use jambonz_feature_server.Queues.Member.Runs.{
  adds, counts, removes, dequeues, is_killed, hook_answers, run,
}
use jambonz_feature_server.Queues.Member.Early.{early_kill_strands}
use jambonz_feature_server.Queues.Member.Late.{in_wait, late_hook_plays}
use jambonz_feature_server.Queues.Member.Late.{count_left, killed_leaves_twice}
use jambonz_feature_server.Queues.Member.Runs.{announces}
use jambonz_feature_server.Prelude.{◌+◌}

abbrev with_hooks : Settings
with_hooks = record { has_wait_hook = true; has_action_hook = true; bridge_now = false }

abbrev new_member : Member
unfolding exec
new_member = exec with_hooks

early_kill_strands_example :
    (run with_hooks
        (is_killed replaced ∷ adds (some true) ∷ counts true ∷ removes true ∷ [])
        (exec with_hooks)).phase
      ≡ waiting
    × (run with_hooks
        (is_killed replaced ∷ adds (some true) ∷ counts true ∷ removes true ∷ [])
        (exec with_hooks)).in_queue
      ≡ true
early_kill_strands_example = early_kill_strands with_hooks replaced (removes true ∷ []) refl refl

late_hook_plays_example :
    (run with_hooks
        (dequeues true ∷ hook_answers (some (2, false)) ∷ [])
        (in_wait asking new_member)).hook
      ≡ playing 2
    × (run with_hooks
        (dequeues true ∷ hook_answers (some (2, false)) ∷ [])
        (in_wait asking new_member)).bridge
      ≡ joined
    × (run with_hooks
        (dequeues true ∷ hook_answers (some (0, true)) ∷ [])
        (in_wait asking new_member)).bridge
      ≡ done
    × (run with_hooks
        (dequeues true ∷ hook_answers (some (0, true)) ∷ [])
        (in_wait asking new_member)).killed
      ≡ true
late_hook_plays_example = late_hook_plays with_hooks new_member 2 refl refl

killed_leaves_twice_example :
    count_left
      (run with_hooks
        (dequeues true ∷ is_killed replaced ∷ announces true ∷ removes true ∷ [])
        (in_wait asking new_member)).out
    ≡ count_left new_member.out + 2
killed_leaves_twice_example = killed_leaves_twice with_hooks replaced asking new_member refl
