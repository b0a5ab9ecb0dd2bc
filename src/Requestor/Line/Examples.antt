-- ===== src/Requestor/Line/Examples.antt =====
-- Connections of lib/utils/ws-requestor.js at work.
use jambonz_feature_server.Prelude.{suc, ◌≡◌, refl, true, false, none, some, [], ◌∷◌, ◌++◌, length}
use jambonz_feature_server.Requestor.Line.{Msg, Line, create, reconnect, pending, send_queued_msgs}
use jambonz_feature_server.Requestor.Line.Runs.{opens, writes, acks, requests, run}
use jambonz_feature_server.Requestor.Queueing.{Flushed, clear_flushes, waiting_never_flushes}
use jambonz_feature_server.Requestor.Muted.{lost_early, early_reconnect_mutes}

abbrev hook : Msg
hook = record { id = 1; wants_ack = true; is_new = false }

abbrev status : Msg
status = record { id = 2; wants_ack = false; is_new = false }

abbrev connected : Line
connected = record create { is_open = true; connections = 1 }

clear_flushes_example : Flushed (status ∷ hook ∷ []) connected (
    send_queued_msgs
      (suc (length (status ∷ hook ∷ [])))
      (record connected { queued = status ∷ hook ∷ [] }))
clear_flushes_example = clear_flushes (status ∷ hook ∷ []) connected (refl, refl, refl)

waiting_never_flushes_example :
    send_queued_msgs 9
      (record connected { queued = status ∷ hook ∷ []; reconnect_promise = some pending })
    ≡ none
waiting_never_flushes_example =
    waiting_never_flushes 9
      (record connected { queued = status ∷ hook ∷ []; reconnect_promise = some pending }) refl refl
      refl refl

early_reconnect_mutes_example :
    (r : Line) × (run 9
        (opens ∷ writes ∷ acks ∷ requests hook ∷ requests status ∷ [])
        (lost_early (record create { connections = 1 }))
      ≡ some r)
    × (r.sent ≡ create.sent ++ reconnect ∷ [])
early_reconnect_mutes_example =
    early_reconnect_mutes 8 (acks ∷ requests hook ∷ requests status ∷ [])
      (record create { connections = 1 }) refl refl
