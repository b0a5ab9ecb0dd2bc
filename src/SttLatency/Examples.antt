-- ===== src/SttLatency/Examples.antt =====
-- A calculator of lib/utils/stt-latency-calculator.js that is started and stopped.
use jambonz_feature_server.Prelude.{◌+◌, ◌≡◌, refl, false, none, some}
use jambonz_feature_server.SttLatency.{Endpoint, create}
use jambonz_feature_server.SttLatency.Cycles.{cycles, idle_at, listeners_of, cycles_leave}

abbrev quiet : Endpoint
quiet = record { has_handler = false; listeners = 0; detecting = false }

cycles_leave_example : listeners_of (cycles 3 (idle_at (create none) quiet)) ≡ some (3 + 0)
cycles_leave_example = cycles_leave 3 (create none) quiet refl
