-- ===== src/Gather.antt =====
-- lib/tasks/gather.js: collecting digits and speech from the caller. A gather is modelled from its
-- constructor to the end of its action hook. The filler noise, the action hook delay, the latency
-- metrics and the spans are left out; the media server, the recognizer and the session are what is
-- logged of them.
pub mod Events
pub mod Speech
pub mod Runs
pub mod Progress
pub mod Handling
pub mod Hearing
pub mod Results
pub mod Waiting
pub mod Holding
pub mod Keys
mod Examples
use jambonz_feature_server.Prelude.{
  ℕ, zero, suc, ◌+◌, ◌*◌, Bool, true, false, not, ◌&&◌, ◌||◌, Option, none, some, List, [], ◌∷◌,
  ◌++◌, ◌==◌, ltb, leb, length, Units, is_some, if◌then◌else◌,
}
use jambonz_feature_server.Transcripts.{Transcript, Word}

-- The vendors of speech recognition that the code tells apart.
pub data Vendor : Type 0 where
  deepgram deepgramflux soniox speechmatics microsoft aws nuance ibm google custom other : Vendor

-- What the constructor and `handling` make of the options. Times are milliseconds, and 0 also stands
-- for a time that is not set.
pub record Settings : Type 0 where
  pub wants_digits : Bool
  pub needs_stt : Bool
  pub vendor : Vendor
  pub finish_on_key : Option ℕ
  pub num_digits : Option ℕ
  pub max_digits : Option ℕ
  pub min_digits : Option ℕ
  pub inter_digit_timeout : ℕ
  pub timeout : ℕ
  pub bargein : Bool
  pub dtmf_bargein : Bool
  pub min_bargein_word_count : ℕ
  pub is_continuous_asr : Bool
  pub asr_dtmf_termination_digit : Option ℕ
  pub min_confidence : ℕ
  pub fast_recognition_timeout : ℕ
  pub early_hints_match : Bool
  -- The hints, and what `toLowerCase` does.
  pub hints : List Units
  pub lower : Units → Units
  pub listen_during_prompt : Bool
  pub is_background : Bool
  -- Whether a task that it is nested in takes its results.
  pub has_parent : Bool
  pub has_partial_result_hook : Bool

pub data Reason : Type 0 where
  dtmf_terminator_key dtmf_num_digits dtmf_inter_digit_timeout : Reason
  speech timeout killed stt_error stt_low_confidence : Reason

-- What is emitted, by the gather or its parent, and what the action hook is given.
pub data Result : Type 0 where
  digits : Units → Result
  said : Units → Result
  low_confidence : Units → Result
  nothing failed : Result
  -- The event of a key, whose `evt` is undefined.
  keyed : Result

pub data Event : Type 0 where
  -- The emitted result, and the action hook that is called with it.
  told : Result → Event
  performed : Result → Event
  -- `notifyTaskDone`
  task_done : Event
  dtmf : ℕ → Event
  partial : Units → Event
  bargein_detected : Event
  killed_audio : Event
  started_transcribing stopped_transcribing : Event

pub record Gather : Type 0 where
  pub digit_buffer : Units
  pub buffered_transcripts : List Transcript
  pub soniox_transcripts : List (List Word)
  pub dg_time_of_last_unprocessed_word : ℕ
  pub partial_transcripts_count : ℕ
  -- `_timeoutTimer` keeps its value after the timer fired: whether it is set, and whether it runs.
  pub timeout_timer : Bool
  pub timeout_runs : Bool
  pub inter_digit_timer : Bool
  pub asr_timer : Bool
  pub final_asr_timer : Bool
  pub fast_recognition_timer : Option Units
  pub say_task : Bool
  pub play_task : Bool
  pub play_complete : Bool
  pub ep_connected : Bool
  pub call_gone : Bool
  pub is_killed : Bool
  pub resolved : Bool
  -- Whether the endpoint calls `_onDtmf` and `_onTranscription`.
  pub hears_dtmf : Bool
  pub hears_speech : Bool
  pub out : List Event

-- `constructor`; whether there is a nested say or play is given.
unfoldable pub create : Bool → Bool → Gather
create say play = record {
  digit_buffer = [];
  buffered_transcripts = [];
  soniox_transcripts = [];
  dg_time_of_last_unprocessed_word = 0;
  partial_transcripts_count = 0;
  timeout_timer = false;
  timeout_runs = false;
  inter_digit_timer = false;
  asr_timer = false;
  final_asr_timer = false;
  fast_recognition_timer = none;
  say_task = say;
  play_task = play;
  play_complete = false;
  ep_connected = true;
  call_gone = false;
  is_killed = false;
  resolved = false;
  hears_dtmf = false;
  hears_speech = false;
  out = [];
}

abbrev pub log : Event → Gather → Gather
log e g = record g { out = g.out ++ e ∷ [] }

-- `a >= b`, which is false for an undefined `b`.
abbrev pub at_least : ℕ → Option ℕ → Bool
at_least n none = false
at_least n (some m) = leb m n

abbrev pub equals : ℕ → Option ℕ → Bool
equals n none = false
equals n (some m) = n == m

-- `_clearTimer`
abbrev pub clear_timer : Gather → Gather
clear_timer g = record g { timeout_timer = false; timeout_runs = false }

-- `_startTimer`
unfoldable pub start_timer : Settings → Gather → Gather
start_timer o g =
    if o.timeout == 0 then g else record g { timeout_timer = true; timeout_runs = true }

-- `_startAsrTimer`, after its assertion.
abbrev pub start_asr_timer : Gather → Gather
start_asr_timer g = record g { asr_timer = true }

-- `_killAudio`, of a gather without filler noise.
unfoldable pub kill_audio : Settings → Gather → Gather
kill_audio o g =
    if not g.say_task && not g.play_task && o.bargein
    then (if g.ep_connected && not g.play_complete
        then log killed_audio (record g { play_complete = true })
        else g)
    else (let quiet = record g { say_task = false; play_task = false; play_complete = true } in
        if g.say_task || g.play_task then log killed_audio quiet else quiet)

-- `_stopTranscribing`
abbrev pub stop_transcribing : Gather → Gather
stop_transcribing g = log stopped_transcribing g

-- What a reason leads to; `text` is the transcript that it comes with.
abbrev pub result_of : Reason → Units → Gather → Option Result
result_of dtmf_terminator_key text g = some (digits g.digit_buffer)
result_of dtmf_num_digits text g = some (digits g.digit_buffer)
result_of dtmf_inter_digit_timeout text g = some (digits g.digit_buffer)
result_of speech text g = some (said text)
result_of timeout text g = some nothing
result_of killed text g = none
result_of stt_error text g = some failed
result_of stt_low_confidence text g = some (low_confidence text)

-- What `_resolve` stops before it reports.
abbrev pub quieten : Settings → Gather → Gather
quieten o g =
    let silent = kill_audio o (record g { resolved = true; hears_speech = false }) in
    record silent {
      hears_dtmf = false;
      inter_digit_timer = false;
      timeout_timer = false;
      timeout_runs = false;
      fast_recognition_timer = none;
      asr_timer = false;
      final_asr_timer = false;
    }

-- Only the action hook is given the digits.
abbrev pub emission_of : Result → Result
emission_of (digits ds) = keyed
emission_of (said text) = said text
emission_of (low_confidence text) = low_confidence text
emission_of nothing = nothing
emission_of failed = failed
emission_of keyed = keyed

-- The end of `_resolve`: with an action hook the task is done when that has answered.
unfoldable pub report : Settings → Option Result → Gather → Gather
report o none g = log task_done g
report o (some r) g =
    if g.call_gone
    then log task_done g
    else if o.has_parent
    then log task_done (log (told (emission_of r)) g)
    else log (performed r) (log (told (emission_of r)) g)

-- `_resolve`
unfoldable pub resolve : Settings → Reason → Units → Gather → Gather
unfolding kill_audio report
resolve o reason text g =
    let stopped = if o.needs_stt && g.ep_connected then stop_transcribing g else g in
    if g.resolved then stopped else report o (result_of reason text g) (quieten o stopped)

-- The action hook has answered.
abbrev pub action_performed : Gather → Gather
action_performed g = log task_done g

-- `kill`
unfoldable pub kill : Settings → Gather → Gather
unfolding kill_audio resolve
kill o g =
    let quiet = kill_audio o (record g { is_killed = true }) in
    resolve o killed []
      (record quiet { hears_dtmf = false; inter_digit_timer = false; asr_timer = false })
