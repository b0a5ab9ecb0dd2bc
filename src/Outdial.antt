-- ===== src/Outdial.antt =====
-- lib/utils/place-outdial.js: one leg of a dial, from the making of its endpoint to its end. The sip
-- stack and the media server are what they report and what is logged of them; the headers, the media
-- of the leg, its re-invites and its adulting are left out.
pub mod Calls
pub mod Reporting
pub mod Ends
mod Examples
use jambonz_feature_server.Prelude.{
  ℕ, Bool, true, false, not, ◌&&◌, ◌||◌, List, [], ◌∷◌, ◌++◌, ◌==◌, if◌then◌else◌,
}
use jambonz_feature_server.Dial.{
  Status, trying, ringing, early_media, in_progress, completed, failed, busy, no_answer,
}

-- Where `exec` is: awaiting its endpoint, `createUAC` or `connectStream`, past them, or at its end.
pub data Phase : Type 0 where
  making_endpoint inviting connecting answered over : Phase

pub data Event : Type 0 where
  call_status_change : Status → ℕ → Event
  had_early_media accept decline : Event
  cancelled hung_up destroyed_endpoint : Event

pub record SingleDialer : Type 0 where
  pub phase : Phase
  pub has_confirm_hook : Bool
  pub killed : Bool
  pub invite_in_progress : Bool
  -- `this.dlg.connected`
  pub dlg_connected : Bool
  pub has_ep : Bool
  pub out : List Event

-- `constructor`, and `exec` up to `_createMediaEndpoint`.
unfoldable pub create : Bool → SingleDialer
create has_confirm_hook = record {
  phase = making_endpoint;
  has_confirm_hook = has_confirm_hook;
  killed = false;
  invite_in_progress = false;
  dlg_connected = false;
  has_ep = false;
  out = [];
}

abbrev pub log : Event → SingleDialer → SingleDialer
log e d = record d { out = d.out ++ e ∷ [] }

abbrev pub destroy_ep : SingleDialer → SingleDialer
destroy_ep d = if d.has_ep then log destroyed_endpoint d else d

-- `exec` has its endpoint.
unfoldable pub endpoint_created : SingleDialer → SingleDialer
endpoint_created d =
    let made = record d { has_ep = true } in
    if d.killed then destroy_ep (record made { phase = over }) else record made { phase = inviting }

-- `cbRequest`, without an error.
unfoldable pub request_sent : SingleDialer → SingleDialer
request_sent d = log (call_status_change trying 100) (record d { invite_in_progress = true })

-- `cbProvisional`
unfoldable pub provisional : ℕ → Bool → SingleDialer → SingleDialer
provisional status has_body d =
    if (status == 180 || status == 183) && has_body
    then log (call_status_change early_media status) (log had_early_media d)
    else log (call_status_change ringing status) d

-- `createUAC` has its dialog.
unfoldable pub dialog_created : SingleDialer → SingleDialer
dialog_created d = record d { phase = connecting; dlg_connected = true }

-- The rest of `exec`, after `connectStream`.
unfoldable pub stream_connected : SingleDialer → SingleDialer
stream_connected d =
    let up = log (call_status_change in_progress 200) (record d { invite_in_progress = false }) in
    if d.killed
    then destroy_ep (log (call_status_change completed 487) (record up { phase = over }))
    else if d.has_confirm_hook
    then record up { phase = answered }
    else log accept (record up { phase = answered })

-- What a sip status that ends the invite is reported as.
unfoldable pub status_of : ℕ → Status
status_of status =
    if status == 487 then no_answer else if status == 486 || status == 600 then busy else failed

-- The `catch` of `exec`: a `SipError` with its status, or another error.
unfoldable pub exec_failed : ℕ → SingleDialer → SingleDialer
unfolding status_of
exec_failed status d = destroy_ep (
    log (call_status_change (status_of status) status)
      (record d { invite_in_progress = false; phase = over }))

-- `kill`
unfoldable pub kill : SingleDialer → SingleDialer
kill d =
    let dying = record d { killed = true } in
    let ended =
      if d.invite_in_progress
      then log cancelled dying
      else if d.dlg_connected
      then log hung_up
          (log (call_status_change completed 0) (record dying { dlg_connected = false }))
      else dying in
    destroy_ep ended

-- The handler of `destroy` of the dialog: the called party hangs up.
unfoldable pub on_destroy : SingleDialer → SingleDialer
on_destroy d =
    destroy_ep (log (call_status_change completed 0) (record d { dlg_connected = false }))

-- The end of `_executeApp`: whether its application ran.
unfoldable pub app_executed : Bool → SingleDialer → SingleDialer
app_executed true d = if d.dlg_connected then log accept d else log decline d
app_executed false d =
    let declined = log decline d in
    if d.dlg_connected
    then log destroyed_endpoint (log hung_up (record declined { dlg_connected = false }))
    else declined
