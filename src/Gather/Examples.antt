-- ===== src/Gather/Examples.antt =====
-- Gathers of lib/tasks/gather.js that run.
use jambonz_feature_server.Prelude.{
  ◌≤◌, ◌≡◌, refl, true, false, none, some, [], ◌∷◌, map, units, arith, if◌then◌else◌,
}
use jambonz_feature_server.Gather.{google, Settings, Gather, digits, create}
use jambonz_feature_server.Gather.Runs.{starts, presses, timeout_fires, run, count_told}
use jambonz_feature_server.Gather.Progress.{is_awaited}
use jambonz_feature_server.Gather.Results.{run_tells_once, run_keeps_timer}
use jambonz_feature_server.Gather.Waiting.{IsStuck, first_digit_strands}
use jambonz_feature_server.Gather.Holding.{results_in}
use jambonz_feature_server.Gather.Keys.{keys_reported}

abbrev pin : Settings
pin = record {
  wants_digits = true;
  needs_stt = true;
  vendor = google;
  finish_on_key = some b'#';
  num_digits = some 4;
  max_digits = none;
  min_digits = some 1;
  inter_digit_timeout = 0;
  timeout = 15000;
  bargein = false;
  dtmf_bargein = true;
  min_bargein_word_count = 1;
  is_continuous_asr = false;
  asr_dtmf_termination_digit = none;
  min_confidence = 0;
  fast_recognition_timeout = 0;
  early_hints_match = false;
  hints = [];
  lower = λ text. text;
  listen_during_prompt = false;
  is_background = false;
  has_parent = false;
  has_partial_result_hook = false;
}

abbrev dictation : Settings
dictation = record pin { is_continuous_asr = true }

abbrev listening : Gather
listening = record (create false false) {
  timeout_timer = true;
  timeout_runs = true;
  hears_dtmf = true;
  hears_speech = true;
}

run_tells_once_example :
    count_told (run pin (starts ∷ presses b'#' ∷ timeout_fires ∷ []) (create false false)).out ≤ (
      if (run pin (starts ∷ presses b'#' ∷ timeout_fires ∷ []) (create false false)).resolved
      then 1
      else 0)
run_tells_once_example = run_tells_once pin false false (starts ∷ presses b'#' ∷ timeout_fires ∷ [])

run_keeps_timer_example : is_awaited (run pin (presses b'1' ∷ presses b'2' ∷ []) listening) ≡ true
unfolding create count_told
run_keeps_timer_example =
    run_keeps_timer pin listening (presses b'1' ∷ presses b'2' ∷ []) refl refl (omega arith) refl

first_digit_strands_example : IsStuck (run dictation (timeout_fires ∷ presses b'1' ∷ []) listening)
unfolding create
first_digit_strands_example =
    first_digit_strands dictation b'1' listening refl refl refl refl refl refl

keys_reported_example :
    results_in (run pin (map presses (units "1234")) listening).out ≡ digits (units "1234") ∷ []
unfolding create results_in
keys_reported_example =
    keys_reported pin 4 refl refl refl refl refl (units "1234") [] [] listening refl refl
      (omega arith) (refl, refl, refl, refl, refl)
