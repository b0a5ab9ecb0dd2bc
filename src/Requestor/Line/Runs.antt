-- ===== src/Requestor/Line/Runs.antt =====
-- What can happen to a connection of lib/utils/ws-requestor.js.
use jambonz_feature_server.Prelude.{ℕ, Option, none, some, List, [], ◌∷◌}
use jambonz_feature_server.Requestor.Line.{
  Msg, Line, request, written, acked, on_failure, run_deferred, on_open, connect_failed, on_close,
  time_to_reconnect, close_gracefully,
}

pub data Op : Type 0 where
  opens connect_fails fires runs_deferred writes acks fails closes : Op
  requests : Msg → Op
  drops : ℕ → Op

unfoldable pub step : ℕ → Op → Line → Option Line
unfolding request written acked on_failure run_deferred on_open connect_failed on_close
    time_to_reconnect close_gracefully
step n opens l = some (on_open l)
step n connect_fails l = some (connect_failed l)
step n fires l = some (time_to_reconnect l)
step n runs_deferred l = some (run_deferred l)
step n writes l = written n l
step n acks l = acked n l
step n fails l = on_failure n l
step n closes l = some (close_gracefully l)
step n (requests m) l = some (request m l)
step n (drops max) l = some (on_close max l)

unfoldable pub run : ℕ → List Op → Line → Option Line
unfolding step
run n [] l = some l
run n (op ∷ ops) l = elim (step n op l) [ none ↦ none | some k ↦ run n ops k ]
