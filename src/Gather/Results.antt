-- ===== src/Gather/Results.antt =====
-- What holds of a gather of lib/tasks/gather.js whatever happens to it.
use jambonz_feature_server.Prelude.{
  ◌≤◌, ◌≡◌, refl, Bool, true, false, List, [], ◌∷◌, ◌==◌, if◌then◌else◌, arith, if-cases,
}
use jambonz_feature_server.Gather.{Settings, Gather, task_done, stt_error, create, log}
use jambonz_feature_server.Gather.Runs.{
  Op, starts, prompt_ends, presses, hears, fails, timeout_fires, inter_digit_fires, asr_fires,
  final_asr_fires, fast_fires, hook_answers, call_ends, is_killed, step, run, count_told,
}
use jambonz_feature_server.Gather.Progress.{
  IsGoing, is_awaited, SameProgress-IsGoing, log-SameProgress, resolve-IsGoing, kill-IsGoing,
}
use jambonz_feature_server.Gather.Handling.{
  handling-IsGoing, prompt_ended-IsGoing, on_dtmf-IsGoing, on_timeout-IsGoing,
  on_inter_digit_timeout-IsGoing, on_asr_timer-IsGoing, on_final_asr_timer-IsGoing,
  on_fast_recognition_timer-IsGoing,
}
use jambonz_feature_server.Gather.Hearing.{on_transcription-IsGoing}

module _ (w : Bool) (o : Settings)
    (timed : w ≡ true → (o.is_continuous_asr ≡ false) × ((o.timeout == 0) ≡ false)) where
  step-IsGoing : (op : Op) (g : Gather) → IsGoing w g → IsGoing w (step o op g)
  unfolding step
  step-IsGoing starts g h = handling-IsGoing w o timed g h
  step-IsGoing prompt_ends g h = prompt_ended-IsGoing w o timed g h
  step-IsGoing (presses d) g h =
      if-cases (IsGoing w) g.hears_dtmf _ _ (λ _. on_dtmf-IsGoing w o timed d g h) (λ _. h)
  step-IsGoing (hears e) g h =
      if-cases (IsGoing w) g.hears_speech _ _ (λ _. on_transcription-IsGoing w o timed e g h)
        (λ _. h)
  step-IsGoing fails g h = resolve-IsGoing w o stt_error [] g h.0
  step-IsGoing timeout_fires g h =
      if-cases (IsGoing w) g.timeout_runs _ _ (λ _. on_timeout-IsGoing w o timed g h.0) (λ _. h)
  step-IsGoing inter_digit_fires g h =
      if-cases (IsGoing w) g.inter_digit_timer _ _
        (λ _. on_inter_digit_timeout-IsGoing w o timed g h.0) (λ _. h)
  step-IsGoing asr_fires g h =
      if-cases (IsGoing w) g.asr_timer _ _ (λ _. on_asr_timer-IsGoing w o timed g h) (λ _. h)
  step-IsGoing final_asr_fires g h =
      if-cases (IsGoing w) g.final_asr_timer _ _ (λ _. on_final_asr_timer-IsGoing w o timed g h.0)
        (λ _. h)
  step-IsGoing fast_fires g h = on_fast_recognition_timer-IsGoing w o timed g h
  step-IsGoing hook_answers g h =
      SameProgress-IsGoing w g (log task_done g) (log-SameProgress task_done g refl) h
  step-IsGoing call_ends g h = h
  step-IsGoing is_killed g h = kill-IsGoing w o g h.0

  run-IsGoing : (ops : List Op) (g : Gather) → IsGoing w g → IsGoing w (run o ops g)
  unfolding run
  run-IsGoing [] g h = h
  run-IsGoing (op ∷ ops) g h = run-IsGoing ops (step o op g) (step-IsGoing op g h)

-- From a new gather with any settings, after any list of starts, ends of the prompt, keys,
-- transcriptions, errors, timers that run and fire, answers of the action hook, hang-ups and kills,
-- at most one result was emitted, and none if the gather is not resolved.
pub run_tells_once :
    (o : Settings) (say play : Bool) (ops : List Op)
    → count_told (run o ops (create say play)).out
      ≤ (if (run o ops (create say play)).resolved then 1 else 0)
unfolding create count_told
run_tells_once o say play ops =
    (run-IsGoing false o (λ t. cc) ops (create say play) (omega arith, λ t. cc)).0

-- Where recognition is not continuous and there is a time-out, take a gather that emitted at most
-- one result, none before it was resolved, and that is resolved or has the time-out or the
-- inter-digit timer running, with the handle of the time-out set exactly if it runs. After any list
-- of events it is again resolved or one of the two timers runs, with the handle so set.
pub run_keeps_timer :
    (o : Settings) (g : Gather) (ops : List Op)
    → o.is_continuous_asr ≡ false
    → (o.timeout == 0) ≡ false
    → count_told g.out ≤ (if g.resolved then 1 else 0)
    → is_awaited g ≡ true
    → is_awaited (run o ops g) ≡ true
run_keeps_timer o g ops c t once going =
    (run-IsGoing true o (λ _. (c, t)) ops g (once, λ _. going)).1 refl
