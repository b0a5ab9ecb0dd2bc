-- ===== src/Gather/Events.antt =====
-- What starts a gather of lib/tasks/gather.js, the keys that it hears and the timers that fire.
use jambonz_feature_server.Prelude.{
  ℕ, Bool, true, false, not, ◌&&◌, ◌||◌, none, some, List, [], ◌∷◌, ◌++◌, ◌==◌, ltb, length, Units,
  is_some, if◌then◌else◌,
}
use jambonz_feature_server.Transcripts.{consolidate_transcripts}
use jambonz_feature_server.Gather.{
  Vendor, speechmatics, Settings, Gather, dtmf, bargein_detected, started_transcribing,
  dtmf_terminator_key, dtmf_num_digits, dtmf_inter_digit_timeout, speech, timeout, log, at_least,
  equals, clear_timer, start_timer, start_asr_timer, kill_audio, stop_transcribing, resolve,
}

abbrev pub is_speechmatics : Vendor → Bool
is_speechmatics speechmatics = true
is_speechmatics _ = false

abbrev pub is_none {ℓ} : {A : Type ℓ} → List A → Bool
is_none [] = true
is_none (_ ∷ _) = false

-- `startDtmfListener`
unfoldable pub start_dtmf_listener : Settings → Gather → Gather
start_dtmf_listener o g =
    if o.wants_digits || o.dtmf_bargein || is_some o.asr_dtmf_termination_digit
    then record g { hears_dtmf = true }
    else g

-- `_setSpeechHandlers` and `_startTranscribing`
abbrev pub transcribe : Gather → Gather
transcribe g = log started_transcribing (record g { hears_speech = true })

-- `startListening`
unfoldable pub start_listening : Settings → Gather → Gather
unfolding start_timer
start_listening o g =
    let timed = start_timer o g in
    let extended =
      if o.is_continuous_asr && o.timeout == 0 && not o.is_background
      then start_asr_timer timed
      else timed in
    if o.needs_stt && not o.listen_during_prompt then transcribe extended else extended

abbrev pub has_prompt : Gather → Bool
has_prompt g = g.say_task || g.play_task

-- The rest of `handling`, from its recognizer on.
abbrev pub listen_during : Settings → Gather → Gather
listen_during o g =
    let heard =
      if o.needs_stt && o.listen_during_prompt
      then (if not g.resolved && not g.is_killed
          then transcribe g
          else record g { hears_speech = true })
      else g in
    if o.listen_during_prompt || not (has_prompt g) then start_dtmf_listener o heard else heard

-- `handling`, up to its wait for the end of the task.
unfoldable pub handling : Settings → Gather → Gather
unfolding start_listening start_dtmf_listener
handling o g =
    if has_prompt g
    then listen_during o g
    else if g.is_killed
    then g
    else listen_during o (start_listening o g)

-- `process`, once the nested say or play has ended.
unfoldable pub prompt_ended : Settings → Gather → Gather
unfolding start_listening start_dtmf_listener
prompt_ended o g =
    let played = record g { play_complete = true } in
    let heard = if o.listen_during_prompt then played else start_dtmf_listener o played in
    if not g.is_killed && not g.resolved then start_listening o heard else heard

-- The first part of `_onDtmf`.
abbrev pub barge : Settings → ℕ → Gather → Gather
barge o d g =
    if o.dtmf_bargein
    then log (dtmf d) (kill_audio o (if g.play_complete then g else log bargein_detected g))
    else g

-- The inter-digit timer at the end of `_onDtmf`.
unfoldable pub await_digit : Settings → Gather → Gather
await_digit o g =
    if ltb 0 o.inter_digit_timeout && at_least (length g.digit_buffer) o.min_digits
    then clear_timer (record g { inter_digit_timer = true })
    else g

-- Digits go before speech.
abbrev pub prefer_digits : Settings → Gather → Gather
prefer_digits o g =
    if is_none g.digit_buffer && o.needs_stt
    then stop_transcribing (record g { hears_speech = false; asr_timer = false })
    else g

unfoldable pub add_digit : Settings → ℕ → Gather → Gather
unfolding resolve await_digit
add_digit o d g =
    let first = prefer_digits o g in
    let added = record first { digit_buffer = g.digit_buffer ++ d ∷ [] } in
    let len = length added.digit_buffer in
    if equals len o.num_digits || equals len o.max_digits
    then resolve o dtmf_num_digits [] added
    else await_digit o added

unfoldable pub take_digit : Settings → ℕ → Gather → Gather
unfolding resolve add_digit await_digit
take_digit o d g =
    if equals d o.finish_on_key && o.wants_digits
    then resolve o dtmf_terminator_key [] g
    else if o.wants_digits
    then add_digit o d g
    else await_digit o g

-- `_onDtmf`
unfoldable pub on_dtmf : Settings → ℕ → Gather → Gather
unfolding start_timer kill_audio take_digit
on_dtmf o d g =
    let timed = if not g.timeout_timer && ltb 0 o.timeout then start_timer o g else g in
    let barged = barge o d (record timed { inter_digit_timer = false }) in
    if o.is_continuous_asr
      && equals d o.asr_dtmf_termination_digit
      && not (is_none g.buffered_transcripts)
    then record (clear_timer barged) { asr_timer = false; final_asr_timer = true }
    else take_digit o d barged

-- What the buffered transcripts are put together to.
abbrev pub consolidated : Settings → Gather → Units
consolidated o g =
    (consolidate_transcripts (is_speechmatics o.vendor) g.buffered_transcripts).transcript

-- The callback of `_startTimer`.
unfoldable pub on_timeout : Settings → Gather → Gather
unfolding resolve
on_timeout o g =
    let rung = record g { timeout_runs = false } in
    if o.is_continuous_asr
    then start_asr_timer rung
    else resolve o
        (if at_least (length g.digit_buffer) o.min_digits then dtmf_num_digits else timeout) [] rung

unfoldable pub on_inter_digit_timeout : Settings → Gather → Gather
unfolding resolve
on_inter_digit_timeout o g =
    resolve o dtmf_inter_digit_timeout [] (record g { inter_digit_timer = false })

abbrev pub speech_or_timeout : Settings → Gather → Gather
speech_or_timeout o g =
    resolve o (if is_none g.buffered_transcripts then timeout else speech) (consolidated o g) g

-- The callback of `_startAsrTimer`.
unfoldable pub on_asr_timer : Settings → Gather → Gather
unfolding resolve
on_asr_timer o g =
    let rung = record g { asr_timer = false } in
    if is_speechmatics o.vendor && is_none g.buffered_transcripts
    then start_asr_timer rung
    else speech_or_timeout o rung

-- The callback of `_startFinalAsrTimer`.
unfoldable pub on_final_asr_timer : Settings → Gather → Gather
unfolding resolve
on_final_asr_timer o g = speech_or_timeout o (record g { final_asr_timer = false })

-- The callback of `_startFastRecognitionTimer`.
unfoldable pub on_fast_recognition_timer : Settings → Gather → Gather
unfolding resolve
on_fast_recognition_timer o g = elim g.fast_recognition_timer [
  | none ↦ g
  | some text ↦ resolve o speech text (record g { fast_recognition_timer = none })
]
