-- ===== src/Dial/Examples.antt =====
-- Dials of lib/tasks/dial.js that run.
use jambonz_feature_server.Prelude.{◌≡◌, refl, true, false, [], ◌∷◌}
use jambonz_feature_server.Dial.{Settings, Dial, mem, is_none, create, place}
use jambonz_feature_server.Dial.Race.{accepts, propagates, kill_ends, is_killed, run}
use jambonz_feature_server.Dial.Late.{three_legs, late_winner_strands}
use jambonz_feature_server.Dial.{kill, busy}
use jambonz_feature_server.Dial.Race.{step, Op, places, reports}
use jambonz_feature_server.Dial.Orderly.{all_orderly}
use jambonz_feature_server.Dial.Draining.{kills_left, ends_of, kill_leaves_no_leg}
use jambonz_feature_server.Prelude.{◌≤◌, List, arith}
use jambonz_feature_server.Dial.Flaws.{two_legs, second_winner_strands}

abbrev plain : Settings
plain = record {
  early_media = false;
  a_leg_already_answered = true;
  has_time_limit = false;
  bridges_early_media = false;
  can_release_media = true;
}

abbrev on_bridge : Settings
on_bridge = record plain { early_media = true; a_leg_already_answered = false }

abbrev dialled : Dial
unfolding create place
dialled = place 2 (place 1 create)

late_winner_strands_example :
    let ended =
      run plain
        (accepts 1 ∷ accepts 3 ∷ kill_ends 0 ∷ kill_ends 0 ∷ kill_ends 0 ∷ is_killed ∷ [])
        (three_legs 1 2 3 dialled) in
    (mem 1 ended.live ≡ true)
    × (mem 3 ended.live ≡ false)
    × (is_none ended.sd ≡ true)
    × (ended.dials ≡ [])
    × (ended.task_done ≡ true)
late_winner_strands_example = late_winner_strands plain refl 1 2 3 dialled refl refl refl

second_winner_strands_example :
    let ended =
      run on_bridge
        (accepts 1 ∷ accepts 2 ∷ propagates 1 true ∷ propagates 2 true ∷ is_killed ∷ [])
        (two_legs 1 2 dialled) in
    (mem 1 ended.live ≡ true)
    × (is_none ended.sd ≡ true)
    × (ended.dials ≡ [])
    × (ended.task_done ≡ true)
second_winner_strands_example = second_winner_strands on_bridge 1 2 refl refl refl dialled

-- Three legs, of which one is busy and another accepted.
abbrev answered : List Op
answered = places 1 ∷ places 2 ∷ places 3 ∷ reports 1 busy 486 true ∷ accepts 2 ∷ []

answered_left : kills_left (kill (run plain answered create)).loops ≤ 2
unfolding kill create run step kills_left
answered_left = omega arith

kill_leaves_no_leg_example :
    mem 2 (run plain (ends_of 2) (kill (run plain answered create))).live ≡ false
unfolding all_orderly create step
kill_leaves_no_leg_example = kill_leaves_no_leg plain answered 2 2 refl answered_left
