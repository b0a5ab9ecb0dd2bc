-- ===== src/Outdial/Examples.antt =====
-- Legs of lib/utils/place-outdial.js that run.
use jambonz_feature_server.Prelude.{◌≤◌, ◌≡◌, refl, true, false, List, [], ◌∷◌}
use jambonz_feature_server.Outdial.{inviting, SingleDialer, create}
use jambonz_feature_server.Outdial.Calls.{
  Op, gets_endpoint, sends_request, gets_dialog, connects_stream, hangs_up, is_killed, run, step,
  ends_reported,
}
use jambonz_feature_server.Outdial.Ends.{run_ends_once}
use jambonz_feature_server.Outdial.Ends.{late_answer_stays}
use jambonz_feature_server.Outdial.{over}
use jambonz_feature_server.Prelude.{◌+◌}

abbrev call : List Op
call = gets_endpoint ∷ sends_request ∷ gets_dialog ∷ connects_stream ∷ hangs_up ∷ is_killed ∷ []

run_ends_once_example :
    (ends_reported (run call (create false)).out ≤ 1)
    × (ends_reported (run call (create false)).out ≡ 1
        → (run call (create false)).dlg_connected ≡ false)
unfolding create step
run_ends_once_example = run_ends_once false call refl

abbrev cancelled_late : SingleDialer
cancelled_late = record {
  phase = inviting;
  has_confirm_hook = false;
  killed = true;
  invite_in_progress = true;
  dlg_connected = false;
  has_ep = true;
  out = [];
}

late_answer_stays_example :
    let next = run (gets_dialog ∷ connects_stream ∷ []) cancelled_late in
    (ends_reported next.out ≡ ends_reported cancelled_late.out + 1)
    × (next.dlg_connected ≡ true)
    × (next.phase ≡ over)
late_answer_stays_example = late_answer_stays cancelled_late refl refl
