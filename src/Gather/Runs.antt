-- ===== src/Gather/Runs.antt =====
-- What can happen to a gather of lib/tasks/gather.js, in any order.
use jambonz_feature_server.Prelude.{ℕ, ◌+◌, true, List, [], ◌∷◌, if◌then◌else◌}
use jambonz_feature_server.Gather.{
  Settings, Gather, Event, told, stt_error, action_performed, resolve, kill,
}
use jambonz_feature_server.Gather.Events.{
  handling, prompt_ended, on_dtmf, on_timeout, on_inter_digit_timeout, on_asr_timer,
  on_final_asr_timer, on_fast_recognition_timer,
}
use jambonz_feature_server.Gather.Speech.{SttEvent, on_transcription}

pub data Op : Type 0 where
  starts prompt_ends : Op
  presses : ℕ → Op
  hears : SttEvent → Op
  -- A vendor error that there is no fallback for.
  fails : Op
  timeout_fires inter_digit_fires asr_fires final_asr_fires fast_fires : Op
  hook_answers call_ends is_killed : Op

-- A listener is called while the endpoint has it, and a timer fires only while it runs.
unfoldable pub step : Settings → Op → Gather → Gather
unfolding handling prompt_ended on_dtmf on_timeout on_inter_digit_timeout on_asr_timer
    on_final_asr_timer on_fast_recognition_timer on_transcription resolve kill
step o starts g = handling o g
step o prompt_ends g = prompt_ended o g
step o (presses d) g = if g.hears_dtmf then on_dtmf o d g else g
step o (hears e) g = if g.hears_speech then on_transcription o e g else g
step o fails g = resolve o stt_error [] g
step o timeout_fires g = if g.timeout_runs then on_timeout o g else g
step o inter_digit_fires g = if g.inter_digit_timer then on_inter_digit_timeout o g else g
step o asr_fires g = if g.asr_timer then on_asr_timer o g else g
step o final_asr_fires g = if g.final_asr_timer then on_final_asr_timer o g else g
step o fast_fires g = on_fast_recognition_timer o g
step o hook_answers g = action_performed g
step o call_ends g = record g { call_gone = true }
step o is_killed g = kill o g

unfoldable pub run : Settings → List Op → Gather → Gather
unfolding step
run o [] g = g
run o (op ∷ ops) g = run o ops (step o op g)

-- How many results were emitted.
abbrev pub told_one : Event → ℕ
told_one (told r) = 1
told_one _ = 0

unfoldable pub count_told : List Event → ℕ
count_told [] = 0
count_told (e ∷ es) = told_one e + count_told es
