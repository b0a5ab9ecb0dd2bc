-- ===== src/Outdial/Calls.antt =====
-- What can happen to a leg of lib/utils/place-outdial.js.
use jambonz_feature_server.Prelude.{ℕ, ◌+◌, Bool, true, false, ◌&&◌, List, [], ◌∷◌, if◌then◌else◌}
use jambonz_feature_server.Dial.{ends_leg}
use jambonz_feature_server.Outdial.{
  Phase, making_endpoint, inviting, connecting, answered, over, Event, call_status_change,
  SingleDialer, endpoint_created, request_sent, provisional, dialog_created, stream_connected,
  exec_failed, kill, on_destroy, app_executed,
}

-- A final response comes to an invite, or the making of the endpoint fails.
pub data Op : Type 0 where
  gets_endpoint sends_request gets_dialog connects_stream : Op
  gets_provisional : ℕ → Bool → Op
  fails : ℕ → Op
  is_killed hangs_up : Op
  ran_app : Bool → Op

abbrev pub at_endpoint : Phase → Bool
at_endpoint making_endpoint = true
at_endpoint _ = false

abbrev pub at_invite : Phase → Bool
at_invite inviting = true
at_invite _ = false

abbrev pub at_stream : Phase → Bool
at_stream connecting = true
at_stream _ = false

abbrev pub at_answered : Phase → Bool
at_answered answered = true
at_answered _ = false

abbrev pub is_over : Phase → Bool
is_over answered = true
is_over over = true
is_over _ = false

unfoldable pub step : Op → SingleDialer → SingleDialer
unfolding endpoint_created request_sent provisional dialog_created stream_connected exec_failed kill
    on_destroy app_executed
step gets_endpoint d = if at_endpoint d.phase then endpoint_created d else d
step sends_request d = if at_invite d.phase then request_sent d else d
step (gets_provisional status body) d = if at_invite d.phase then provisional status body d else d
step gets_dialog d = if at_invite d.phase then dialog_created d else d
step connects_stream d = if at_stream d.phase then stream_connected d else d
step (fails status) d = if is_over d.phase then d else exec_failed status d
step is_killed d = kill d
step hangs_up d = if at_answered d.phase && d.dlg_connected then on_destroy d else d
step (ran_app ok) d = if at_answered d.phase && d.has_confirm_hook then app_executed ok d else d

unfoldable pub run : List Op → SingleDialer → SingleDialer
unfolding step
run [] d = d
run (op ∷ ops) d = run ops (step op d)

-- How often the end of the leg was reported.
abbrev pub end_in : Event → ℕ
end_in (call_status_change status sip) = if ends_leg status then 1 else 0
end_in _ = 0

unfoldable pub ends_reported : List Event → ℕ
ends_reported [] = 0
ends_reported (e ∷ es) = end_in e + ends_reported es
