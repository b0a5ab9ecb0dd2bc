-- ===== src/HookDelay/Examples.antt =====
-- An action of lib/utils/action-hook-delay.js that is started again.
use jambonz_feature_server.Prelude.{◌≤◌, ◌≡◌, refl, true, false, none, some, List, [], ◌∷◌}
use jambonz_feature_server.HookDelay.State.{Opts, Processor, init, create, say, blank}
use jambonz_feature_server.HookDelay.Timers.{start}
use jambonz_feature_server.HookDelay.Turns.{
  Op, timer, playback_start, playback_stop, stopping, run, count_started, allowed,
}
use jambonz_feature_server.HookDelay.Retries.{IsFresh, run_starts_few}

abbrev opts : Opts
opts = record {
  actions = some (say ∷ []);
  retries = some 2;
  no_response_timeout = 3;
  no_response_give_up_timeout = 20;
  give_up_actions = false;
  enable = some true;
  enabled = none;
}

abbrev idle : Processor
unfolding init
idle = (init opts (blank true)).0

idle_created : create opts true ≡ some idle
unfolding create init idle
idle_created = refl

abbrev slow : List Op
slow = timer true 0 ∷ playback_start ∷ playback_stop ∷ timer true 2 ∷ playback_stop ∷ stopping ∷ []

run_starts_few_example : count_started (run slow (start idle)).out ≤ allowed idle
unfolding IsFresh init idle
run_starts_few_example = run_starts_few slow idle (refl, refl, refl, refl)

-- While the first action is played.
abbrev playing : Processor
unfolding idle
playing = record idle { active = true; retry_count = 1; task_in_progress = some say; listeners = 1 }
