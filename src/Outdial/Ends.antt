-- ===== src/Outdial/Ends.antt =====
-- How often the end of a leg of lib/utils/place-outdial.js is reported.
use jambonz_feature_server.Prelude.{
  ℕ, ◌+◌, ◌≤◌, ◌≡◌, refl, ap, Bool, true, false, not, ◌&&◌, ◌||◌, List, [], ◌∷◌, ◌++◌, arith,
  if-cases, and-true,
}
use jambonz_feature_server.Dial.{trying, in_progress, completed}
use jambonz_feature_server.Outdial.{
  Phase, making_endpoint, inviting, connecting, answered, over, call_status_change, decline,
  hung_up, destroyed_endpoint, SingleDialer, create, log, request_sent, dialog_created,
  stream_connected, app_executed,
}
use jambonz_feature_server.Outdial.Calls.{
  Op, gets_endpoint, sends_request, gets_dialog, connects_stream, gets_provisional, fails,
  is_killed, hangs_up, ran_app, at_endpoint, at_invite, at_stream, at_answered, is_over, step, run,
  ends_reported,
}
use jambonz_feature_server.Outdial.Reporting.{
  ends_reported-append, weight, has_dialog, IsReported, log-IsReported, endpoint_created-IsReported,
  dialog_created-IsReported, stream_connected-IsReported, exec_failed-IsReported, kill-IsReported,
  on_destroy-IsReported, app_executed-IsReported, provisional-IsReported,
}

-- The leg is not killed between its answer and the end of `connectStream`, nor before its answer, and
-- its stream connects.
abbrev pub is_calm : Op → SingleDialer → Bool
is_calm gets_dialog d = not d.killed
is_calm is_killed d = not (at_stream d.phase)
is_calm (fails status) d = not (at_stream d.phase)
is_calm _ d = true

abbrev pub all_calm : List Op → SingleDialer → Bool
all_calm [] d = true
all_calm (op ∷ ops) d = is_calm op d && all_calm ops (step op d)

step-IsReported :
    (op : Op) (d : SingleDialer) → is_calm op d ≡ true → IsReported d → IsReported (step op d)
unfolding step request_sent
step-IsReported gets_endpoint d c h =
    if-cases IsReported (at_endpoint d.phase) _ _ (λ a. endpoint_created-IsReported d h a) (λ _. h)
step-IsReported sends_request d c h =
    if-cases IsReported (at_invite d.phase) _ _
      (λ _.
        log-IsReported (call_status_change trying 100) (record d { invite_in_progress = true }) refl
          h)
      (λ _. h)
step-IsReported (gets_provisional status body) d c h =
    if-cases IsReported (at_invite d.phase) _ _ (λ _. provisional-IsReported d h status body)
      (λ _. h)
step-IsReported gets_dialog d c h =
    if-cases IsReported (at_invite d.phase) _ _ (λ a. dialog_created-IsReported d h a c) (λ _. h)
step-IsReported connects_stream d c h =
    if-cases IsReported (at_stream d.phase) _ _ (λ a. stream_connected-IsReported d h a) (λ _. h)
step-IsReported (fails status) d c h =
    if-cases IsReported (is_over d.phase) _ _ (λ _. h) (λ o. exec_failed-IsReported d h status o c)
step-IsReported is_killed d c h = kill-IsReported d h c
step-IsReported hangs_up d c h =
    if-cases IsReported (at_answered d.phase && d.dlg_connected) _ _
      (λ b. on_destroy-IsReported d h b) (λ _. h)
step-IsReported (ran_app ok) d c h =
    if-cases IsReported (at_answered d.phase && d.has_confirm_hook) _ _
      (λ b. app_executed-IsReported d h ok (and-true (at_answered d.phase) d.has_confirm_hook b).0)
      (λ _. h)

run-IsReported :
    (ops : List Op) (d : SingleDialer)
    → all_calm ops d ≡ true
    → IsReported d
    → IsReported (run ops d)
unfolding run
run-IsReported [] d c h = h
run-IsReported (op ∷ ops) d c h =
    let (first, rest) = and-true (is_calm op d) (all_calm ops (step op d)) c in
    run-IsReported ops (step op d) rest (step-IsReported op d first h)

reported_facts :
    (p : Phase) (up : Bool) (n : ℕ)
    → n + weight p up ≤ 1
    → (not up || has_dialog p) ≡ true
    → (n ≤ 1) × (n ≡ 1 → up ≡ false)
reported_facts p false n le e = (omega arith, λ _. refl)
reported_facts connecting true n le e = (omega arith, λ o. absurd (omega arith))
reported_facts answered true n le e = (omega arith, λ o. absurd (omega arith))
reported_facts making_endpoint true n le e = cc
reported_facts inviting true n le e = cc
reported_facts over true n le e = cc

create-IsReported : (hook : Bool) → IsReported (create hook)
unfolding create ends_reported
create-IsReported hook = (omega arith, refl, refl)

-- From the start of a leg, take any list of events in which the leg is not answered after a kill,
-- and is neither killed nor failed while its stream is being connected. Its end is reported at most
-- once, and once it is reported the dialog is not connected.
pub run_ends_once :
    (hook : Bool) (ops : List Op)
    → all_calm ops (create hook) ≡ true
    → (ends_reported (run ops (create hook)).out ≤ 1)
      × (ends_reported (run ops (create hook)).out ≡ 1
          → (run ops (create hook)).dlg_connected ≡ false)
run_ends_once hook ops c =
    let h = run-IsReported ops (create hook) c (create-IsReported hook) in
    let d : SingleDialer = run ops (create hook) in
    reported_facts d.phase d.dlg_connected (ends_reported d.out) h.0 h.1

-- Where an invite was sent for a leg that has been killed, and it is answered and its stream
-- connected all the same, one end more is reported and the leg is over, but its dialog is still
-- connected.
pub late_answer_stays :
    (d : SingleDialer)
    → d.phase ≡ inviting
    → d.killed ≡ true
    → let next = run (gets_dialog ∷ connects_stream ∷ []) d in
      (ends_reported next.out ≡ ends_reported d.out + 1)
      × (next.dlg_connected ≡ true)
      × (next.phase ≡ over)
unfolding run step dialog_created stream_connected
late_answer_stays d i k =
    let up : SingleDialer = record d {
      phase = over;
      killed = true;
      invite_in_progress = false;
      dlg_connected = true;
      out = d.out ++ call_status_change in_progress 200 ∷ [];
    } in
    let told : SingleDialer = log (call_status_change completed 487) up in
    let one = ends_reported-append (call_status_change in_progress 200) d.out in
    let two = ends_reported-append (call_status_change completed 487) up.out in
    rw (i, k)
      (if-cases Stays d.has_ep (log destroyed_endpoint told) told
        (λ _.
          (omega (arith, one, two, ends_reported-append destroyed_endpoint told.out), refl, refl))
        (λ _. (omega (arith, one, two), refl, refl)))
  where
    Stays : SingleDialer → Type 0
    Stays next =
        (ends_reported next.out ≡ ends_reported d.out + 1)
        × (next.dlg_connected ≡ true)
        × (next.phase ≡ over)

-- A connected leg that its confirm application declines is hung up without a report of its end.
pub declined_unreported :
    (d : SingleDialer)
    → d.phase ≡ answered
    → d.has_confirm_hook ≡ true
    → d.dlg_connected ≡ true
    → let next = step (ran_app false) d in
      (ends_reported next.out ≡ ends_reported d.out) × (next.dlg_connected ≡ false)
unfolding step app_executed
declined_unreported d a c u =
    let declined : SingleDialer = log decline d in
    let down : SingleDialer = log hung_up (record declined { dlg_connected = false }) in
    let one = ends_reported-append decline d.out in
    let two = ends_reported-append hung_up declined.out in
    let three = ends_reported-append destroyed_endpoint down.out in
    if-cases Unreported (at_answered d.phase && d.has_confirm_hook) _ d
      (λ _.
        if-cases Unreported d.dlg_connected (log destroyed_endpoint down) declined
          (λ _. (omega (arith, one, two, three), refl)) (λ n. absurd (ground (arith, u, n))))
      (λ n. absurd (ground (arith, ap at_answered a, c, n)))
  where
    Unreported : SingleDialer → Type 0
    Unreported next = (ends_reported next.out ≡ ends_reported d.out) × (next.dlg_connected ≡ false)
