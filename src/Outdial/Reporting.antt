-- ===== src/Outdial/Reporting.antt =====
-- What each event of a leg of lib/utils/place-outdial.js does to the report of its end.
use jambonz_feature_server.Prelude.{
  ℕ, ◌+◌, ◌≤◌, ◌≡◌, refl, Bool, true, false, not, ◌&&◌, ◌||◌, List, [], ◌∷◌, ◌++◌, ◌==◌,
  if◌then◌else◌, arith, if-cases, and-true,
}
use jambonz_feature_server.Dial.{Status, ringing, early_media, in_progress, completed}
use jambonz_feature_server.Outdial.{
  Phase, making_endpoint, inviting, connecting, answered, over, Event, call_status_change,
  had_early_media, accept, decline, cancelled, hung_up, destroyed_endpoint, SingleDialer, log,
  destroy_ep, endpoint_created, provisional, dialog_created, stream_connected, status_of,
  exec_failed, kill, on_destroy, app_executed,
}
use jambonz_feature_server.Outdial.Calls.{
  at_endpoint, at_invite, at_stream, at_answered, is_over, end_in, ends_reported,
}

pub ends_reported-append :
    (e : Event) (es : List Event) → ends_reported (es ++ e ∷ []) ≡ ends_reported es + end_in e
unfolding ends_reported
ends_reported-append e [] = omega arith
ends_reported-append e (x ∷ es) = omega (arith, ends_reported-append e es)

-- Whether an end is still to be reported.
abbrev pub weight : Phase → Bool → ℕ
weight answered up = if up then 1 else 0
weight over up = 0
weight _ up = 1

abbrev pub has_dialog : Phase → Bool
has_dialog connecting = true
has_dialog answered = true
has_dialog _ = false

abbrev pub IsReported : SingleDialer → Type 0
IsReported d =
    (ends_reported d.out + weight d.phase d.dlg_connected ≤ 1)
    × ((not d.dlg_connected || has_dialog d.phase) ≡ true)
    × ((not d.killed || not (at_stream d.phase)) ≡ true)

pub log-IsReported :
    (e : Event) (d : SingleDialer) → end_in e ≡ 0 → IsReported d → IsReported (log e d)
log-IsReported e d z (n, u, k) = (omega (arith, ends_reported-append e d.out), u, k)

pub destroy_ep-IsReported : (d : SingleDialer) → IsReported d → IsReported (destroy_ep d)
destroy_ep-IsReported d h =
    if-cases IsReported d.has_ep _ _ (λ _. log-IsReported destroyed_endpoint d refl h) (λ _. h)

-- The end is reported where one was still to be, and the dialog is gone.
pub report-IsReported :
    (status : Status) (sip : ℕ) (d : SingleDialer)
    → ends_reported d.out ≡ 0
    → weight d.phase d.dlg_connected ≡ 0
    → IsReported d
    → IsReported (log (call_status_change status sip) d)
report-IsReported status sip d z w (n, u, k) =
    (ground (arith, ends_reported-append (call_status_change status sip) d.out), u, k)

pub early_facts :
    (p : Phase) (up : Bool)
    → (at_endpoint p || at_invite p) ≡ true
    → (weight p up ≡ 1) × (has_dialog p ≡ false)
early_facts making_endpoint up h = (refl, refl)
early_facts inviting up h = (refl, refl)
early_facts connecting up h = cc
early_facts answered up h = cc
early_facts over up h = cc

pub stream_facts : (p : Phase) (up : Bool) → at_stream p ≡ true → weight p up ≡ 1
stream_facts connecting up h = refl
stream_facts making_endpoint up h = cc
stream_facts inviting up h = cc
stream_facts answered up h = cc
stream_facts over up h = cc

pub talk_facts :
    (p : Phase)
    → has_dialog p ≡ true
    → not (at_stream p) ≡ true
    → (weight p true ≡ 1) × (weight p false ≡ 0)
talk_facts answered h n = (refl, refl)
talk_facts connecting h n = cc
talk_facts making_endpoint h n = cc
talk_facts inviting h n = cc
talk_facts over h n = cc

pub open_facts :
    (p : Phase) (up : Bool)
    → is_over p ≡ false
    → not (at_stream p) ≡ true
    → (weight p up ≡ 1) × (has_dialog p ≡ false)
open_facts making_endpoint up h n = (refl, refl)
open_facts inviting up h n = (refl, refl)
open_facts connecting up h n = cc
open_facts answered up h n = cc
open_facts over up h n = cc

pub answered_facts :
    (p : Phase) → at_answered p ≡ true → has_dialog p ≡ true × not (at_stream p) ≡ true
answered_facts answered h = (refl, refl)
answered_facts making_endpoint h = cc
answered_facts inviting h = cc
answered_facts connecting h = cc
answered_facts over h = cc

module _ (d : SingleDialer) (h : IsReported d) where
  pub endpoint_created-IsReported : at_endpoint d.phase ≡ true → IsReported (endpoint_created d)
  unfolding endpoint_created
  endpoint_created-IsReported a =
      let (one, no_dialog) = early_facts d.phase d.dlg_connected (rw a) in
      let made : SingleDialer = record d { has_ep = true } in
      if-cases IsReported d.killed _ _
        (λ k.
          destroy_ep-IsReported (record made { phase = over })
            (omega arith, ground (arith, h.1, no_dialog), rw k))
        (λ n. (omega arith, ground (arith, h.1, no_dialog), rw n))

  pub dialog_created-IsReported :
      at_invite d.phase ≡ true → not d.killed ≡ true → IsReported (dialog_created d)
  unfolding dialog_created
  dialog_created-IsReported a n =
      let (one, _) = early_facts d.phase d.dlg_connected (ground (arith, a)) in
      (omega arith, refl, rw n)

  pub stream_connected-IsReported : at_stream d.phase ≡ true → IsReported (stream_connected d)
  unfolding stream_connected
  stream_connected-IsReported a =
      let one = stream_facts d.phase d.dlg_connected a in
      let rest : SingleDialer =
        log (call_status_change in_progress 200) (record d { invite_in_progress = false }) in
      let more = ends_reported-append (call_status_change in_progress 200) d.out in
      let up : SingleDialer = record rest { phase = answered } in
      let kept : IsReported up = (ground (arith, more, h.0, one), ground arith, ground arith) in
      if-cases IsReported d.killed _ _ (λ k. absurd (ground (arith, h.2, a, k)))
        (λ _.
          if-cases IsReported d.has_confirm_hook _ _ (λ _. kept)
            (λ _. log-IsReported accept up refl kept))

  pub exec_failed-IsReported :
      (status : ℕ)
      → is_over d.phase ≡ false
      → not (at_stream d.phase) ≡ true
      → IsReported (exec_failed status d)
  unfolding exec_failed
  exec_failed-IsReported status o n =
      let (one, no_dialog) = open_facts d.phase d.dlg_connected o n in
      let failing : SingleDialer = record d { invite_in_progress = false; phase = over } in
      destroy_ep-IsReported (log (call_status_change (status_of status) status) failing) (
        report-IsReported (status_of status) status failing (omega (arith, h.0, one)) refl
          (omega (arith, h.0, one), ground (arith, h.1, no_dialog), ground arith))

  pub hang_up :
      (e : ℕ)
      → d.dlg_connected ≡ true
      → has_dialog d.phase ≡ true
      → not (at_stream d.phase) ≡ true
      → (k : Bool)
      → IsReported
          (log (call_status_change completed e) (record d { dlg_connected = false; killed = k }))
  hang_up e up there n k =
      let (one, none_left) = talk_facts d.phase there n in
      let zero_yet : ends_reported d.out ≡ 0 = ground (arith, h.0, one, up) in
      report-IsReported completed e (record d { dlg_connected = false; killed = k }) zero_yet
        none_left (omega (arith, zero_yet, none_left), refl, ground (arith, n))

  pub kill-IsReported : not (at_stream d.phase) ≡ true → IsReported (kill d)
  unfolding kill
  kill-IsReported a =
      let dying : SingleDialer = record d { killed = true } in
      let dead : IsReported dying = (h.0, h.1, a) in
      let gone : SingleDialer =
        log (call_status_change completed 0) (record dying { dlg_connected = false }) in
      let ended : SingleDialer =
        if d.invite_in_progress
        then log cancelled dying
        else if d.dlg_connected
        then log hung_up gone
        else dying in
      destroy_ep-IsReported ended (
        if-cases IsReported d.invite_in_progress _ _ (λ _. log-IsReported cancelled dying refl dead)
          (λ _.
            if-cases IsReported d.dlg_connected _ _
              (λ up.
                log-IsReported hung_up gone refl (hang_up 0 up (ground (arith, h.1, up)) a true))
              (λ _. dead)))

  pub on_destroy-IsReported :
      (at_answered d.phase && d.dlg_connected) ≡ true → IsReported (on_destroy d)
  unfolding on_destroy
  on_destroy-IsReported b =
      let (there, up) = and-true (at_answered d.phase) d.dlg_connected b in
      let (dialog, n) = answered_facts d.phase there in
      destroy_ep-IsReported
        (log (call_status_change completed 0) (record d { dlg_connected = false }))
        (hang_up 0 up dialog n d.killed)

  pub app_executed-IsReported :
      (ok : Bool) → at_answered d.phase ≡ true → IsReported (app_executed ok d)
  unfolding app_executed
  app_executed-IsReported true a =
      if-cases IsReported d.dlg_connected _ _ (λ _. log-IsReported accept d refl h)
        (λ _. log-IsReported decline d refl h)
  app_executed-IsReported false a =
      let declined : SingleDialer = log decline d in
      let kept : IsReported declined = log-IsReported decline d refl h in
      let down : SingleDialer = record declined { dlg_connected = false } in
      let (dialog, n) = answered_facts d.phase a in
      if-cases IsReported d.dlg_connected _ _
        (λ up. log-IsReported destroyed_endpoint (log hung_up down) refl (
          log-IsReported hung_up down refl
            (ground (arith, kept.0, (talk_facts d.phase dialog n).1), refl, h.2)))
        (λ _. kept)

  pub provisional-IsReported : (status : ℕ) (body : Bool) → IsReported (provisional status body d)
  unfolding provisional
  provisional-IsReported status body =
      if-cases IsReported ((status == 180 || status == 183) && body) _ _
        (λ _.
          log-IsReported (call_status_change early_media status) (log had_early_media d) refl
            (log-IsReported had_early_media d refl h))
        (λ _. log-IsReported (call_status_change ringing status) d refl h)
