-- ===== src/Amd.antt =====
-- lib/utils/amd-utils.js: whether a human or a machine answered. One `Amd` of one endpoint is modelled,
-- from `startDecisionTimer` on; each timer is armed or not. A transcription is the first alternative of
-- what `normalizeTranscription` makes of an event, and `toLowerCase` a parameter.
pub mod Told
pub mod Decisions
pub mod Silence
mod Examples
use jambonz_feature_server.Prelude.{
  ℕ, zero, suc, ◌+◌, Bool, true, false, not, ◌&&◌, ◌||◌, Option, none, some, List, [], ◌∷◌, ◌++◌,
  ◌==◌, ltb, leb, Units, is_digit, is_prefix, if◌then◌else◌,
}

-- `AmdEvents`, as far as they are decisions.
pub data Decision : Type 0 where
  no_speech_detected human_detected machine_detected decision_timeout : Decision

-- What the task emits: an `amd` event, or the event of the vendor's own no-speech detection.
pub data Event : Type 0 where
  decided : Decision → Event
  machine_stopped_speaking tone_detected stopped no_speech : Event

pub record Settings : Type 0 where
  pub threshold_word_count : ℕ
  pub digit_count : ℕ
  pub greeting_completion_timeout_ms : ℕ
  -- The hints of `VMD_HINTS_FILE` for the language.
  pub hints : List Units
  pub lower : Units → Units

pub record Transcript : Type 0 where
  pub transcript : Units
  pub is_final : Bool

pub record Amd : Type 0 where
  -- Whether the endpoint still has it as its `amd`, and is connected.
  pub attached : Bool
  pub connected : Bool
  pub decision : Option Decision
  pub decision_timer : Bool
  pub no_speech_timer : Bool
  pub tone_timer : Bool
  -- The time that the greeting timer was set to, where it is armed.
  pub greeting_completion_timer : Option ℕ
  pub beep_detected : Bool
  pub out : List Event

-- `new Amd` and `startDecisionTimer`.
unfoldable pub start_amd : Bool → Amd
start_amd connected = record {
  attached = true;
  connected = connected;
  decision = none;
  decision_timer = true;
  no_speech_timer = true;
  tone_timer = true;
  greeting_completion_timer = none;
  beep_detected = false;
  out = [];
}

abbrev pub log : Event → Amd → Amd
log e a = record a { out = a.out ++ e ∷ [] }

-- `stopAllTimers`
abbrev pub stop_all_timers : Amd → Amd
stop_all_timers a = record a {
  decision_timer = false;
  no_speech_timer = false;
  tone_timer = false;
  greeting_completion_timer = none;
}

-- `stopAmd`, but for the listeners of the endpoint.
unfoldable pub stop_amd : Amd → Amd
stop_amd a =
    let b = if a.attached then record (stop_all_timers a) { attached = false } else a in
    if a.connected then log stopped b else b

-- The handlers that `startAmd` adds for the decisions.
unfoldable pub on_decision : Decision → Amd → Amd
unfolding stop_amd
on_decision machine_detected a = log (decided machine_detected) a
on_decision d a = stop_amd (log (decided d) a)

-- `this.emit(this.decision = d)`
abbrev pub decide : Decision → Amd → Amd
decide d a = on_decision d (record a { decision = some d })

-- `_onDecisionTimeout`
unfoldable pub on_decision_timeout : Amd → Amd
unfolding on_decision
on_decision_timeout a = record (decide decision_timeout (record a { decision_timer = false })) {
  no_speech_timer = false;
}

-- `_onNoSpeechTimeout`
unfoldable pub on_no_speech_timeout : Amd → Amd
unfolding on_decision
on_no_speech_timeout a = record (decide no_speech_detected (record a { no_speech_timer = false })) {
  decision_timer = false;
}

-- `_onToneTimeout`
unfoldable pub on_tone_timeout : Amd → Amd
unfolding stop_amd
on_tone_timeout a = stop_amd (record a { tone_timer = false })

-- `_onGreetingCompletionTimeout`
unfoldable pub on_greeting_completion_timeout : Amd → Amd
unfolding stop_amd
on_greeting_completion_timeout a =
    stop_amd (log machine_stopped_speaking (record a { greeting_completion_timer = none }))

-- `startGreetingCompletionTimer`, which also restarts it.
abbrev pub start_greeting_completion_timer : Settings → Amd → Amd
start_greeting_completion_timer s a = record a {
  greeting_completion_timer =
      some (if a.beep_detected then 1000 else s.greeting_completion_timeout_ms);
}

-- `text.split(' ').length`
unfoldable pub word_count : Units → ℕ
word_count [] = 1
word_count (c ∷ text) = let rest = word_count text in if c == b' ' then suc rest else rest

-- `text.includes(pattern)`
unfoldable pub includes : Units → Units → Bool
includes pattern [] = is_prefix pattern []
includes pattern (c ∷ text) = is_prefix pattern (c ∷ text) || includes pattern text

unfoldable pub find_hint : (Units → Units) → List Units → Units → Bool
unfolding includes
find_hint lower [] text = false
find_hint lower (h ∷ hints) text = includes (lower h) text || find_hint lower hints text

-- Whether the text starts with `n` digits, and `numberRegEx.test(text)`.
unfoldable pub starts_with_digits : ℕ → Units → Bool
starts_with_digits zero text = true
starts_with_digits (suc n) [] = false
starts_with_digits (suc n) (c ∷ text) = is_digit c && starts_with_digits n text

unfoldable pub has_digits : ℕ → Units → Bool
unfolding starts_with_digits
has_digits n [] = starts_with_digits n []
has_digits n (c ∷ text) = starts_with_digits n (c ∷ text) || has_digits n text

-- The four tests of `evaluateTranscription`.
unfoldable pub classify : Settings → Transcript → Option Decision
unfolding word_count find_hint has_digits
classify s t =
    if find_hint s.lower s.hints (s.lower t.transcript)
    then some machine_detected
    else if not (s.digit_count == 0) && has_digits s.digit_count t.transcript
    then some machine_detected
    else if t.is_final && ltb (word_count t.transcript) s.threshold_word_count
    then some human_detected
    else if leb s.threshold_word_count (word_count t.transcript)
    then some machine_detected
    else none

-- What follows a decision of `evaluateTranscription`.
abbrev pub after_decision : Settings → Decision → Amd → Amd
after_decision s machine_detected a =
    start_greeting_completion_timer s (record a { decision_timer = false })
after_decision s d a = record a { decision_timer = false }

abbrev pub conclude : Settings → Option Decision → Amd → Amd
conclude s none a = a
conclude s (some d) a = after_decision s d (decide d a)

-- `evaluateTranscription` while there is no decision; `none` is an event without alternatives.
unfoldable pub evaluate_first : Settings → Option Transcript → Amd → Amd
unfolding classify on_decision
evaluate_first s none a = record a { no_speech_timer = false }
evaluate_first s (some t) a = conclude s (classify s t) (record a { no_speech_timer = false })

-- `evaluateTranscription`
unfoldable pub evaluate_transcription : Settings → Option Transcript → Amd → Amd
unfolding evaluate_first
evaluate_transcription s t a = elim a.decision [
  | none ↦ evaluate_first s t a
  | some machine_detected ↦ start_greeting_completion_timer s a
  | some _ ↦ a
]

-- `onTranscription`, of an event of its own bug.
unfoldable pub on_transcription : Settings → Option Transcript → Amd → Amd
unfolding evaluate_transcription
on_transcription s t a = if a.attached then evaluate_transcription s t a else a

-- `onNoSpeechDetected`; `none` where the endpoint has no `amd`.
unfoldable pub on_no_speech_detected : Amd → Option Amd
on_no_speech_detected a = if a.attached then some (log no_speech (stop_all_timers a)) else none

-- `onBeep`
unfoldable pub on_beep : Amd → Amd
on_beep a =
    let b = log tone_detected a in
    if a.attached then record b { tone_timer = false; beep_detected = true } else b
