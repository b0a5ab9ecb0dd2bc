-- ===== src/Amd/Examples.antt =====
-- Detections of lib/utils/amd-utils.js.
use jambonz_feature_server.Prelude.{◌≡◌, true, false, none, some, List, [], ◌∷◌, units}
use jambonz_feature_server.Amd.{Settings, Transcript, start_amd}
use jambonz_feature_server.Amd.Told.{
  Op, decision_timer, no_speech_timer, tone_timer, greeting_timer, beep, transcription, run,
  count_decided, made,
}
use jambonz_feature_server.Amd.Decisions.{run_decides_once}

abbrev settings : Settings
settings = record {
  threshold_word_count = 9;
  digit_count = 0;
  greeting_completion_timeout_ms = 2000;
  hints = units "leave a message" ∷ [];
  lower = λ text. text;
}

abbrev hello : Transcript
hello = record { transcript = units "hello"; is_final = true }

abbrev voicemail : Transcript
voicemail = record { transcript = units "please leave a message"; is_final = false }

abbrev answered : List Op
answered =
    transcription (some voicemail)
    ∷ beep
    ∷ transcription none
    ∷ decision_timer
    ∷ greeting_timer
    ∷ []

run_decides_once_example :
    count_decided (run settings answered (start_amd true)).out
    ≡ made (run settings answered (start_amd true)).decision
run_decides_once_example = run_decides_once settings true answered

abbrev late : List Op
late = transcription (some hello) ∷ tone_timer ∷ greeting_timer ∷ []

abbrev quiet : List Op
quiet = decision_timer ∷ no_speech_timer ∷ beep ∷ []
