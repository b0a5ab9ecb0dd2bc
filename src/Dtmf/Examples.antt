-- ===== src/Dtmf/Examples.antt =====
-- Digits that are keyed in, for lib/tasks/dialogflow/digit-buffer.js and lib/utils/dtmf-collector.js.
use jambonz_feature_server.Prelude.{◌≡◌, refl, none, some, List, [], ◌∷◌, ◌++◌, units}
use jambonz_feature_server.Dtmf.DigitBuffer.{Opts, create, report}
use jambonz_feature_server.Dtmf.Buffering.{
  Op, digit, timeout, IsReady, run, process_all, run-create-IsReady, process_all_fills,
}
use jambonz_feature_server.Dtmf.Collector.{DtmfCollector, create as collector}

-- Three digits, ended by a hash.
abbrev three : Opts
three = record { min = none; max = some 3; term = some (units "#"); idt = none; template = none }

abbrev keyed : List Op
keyed = digit 49 ∷ timeout ∷ digit 50 ∷ digit 35 ∷ []

run-create-IsReady_example : IsReady (run keyed (create three))
run-create-IsReady_example = run-create-IsReady three keyed

process_all_fills_example :
    ((process_all (49 ∷ 50 ∷ 51 ∷ []) (create three)).buffer ≡ [])
    × ((process_all (49 ∷ 50 ∷ 51 ∷ []) (create three)).out
        ≡ [] ++ report none (49 ∷ 50 ∷ 51 ∷ []) ∷ [])
unfolding create
process_all_fills_example =
    process_all_fills (49 ∷ 50 ∷ []) 51 (create three) (refl, (refl, (refl, tt))) refl

-- A collector that waits for a star and a nine.
abbrev star_nine : DtmfCollector
unfolding collector
star_nine = collector (units "*9" ∷ []) none
