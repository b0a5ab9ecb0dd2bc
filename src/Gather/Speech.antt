-- ===== src/Gather/Speech.antt =====
-- The transcriptions that a gather of lib/tasks/gather.js hears. `normalizeTranscription` has made an
-- event its first alternative, and the events are those of the gather's own media bug.
use jambonz_feature_server.Prelude.{
  ℕ, suc, ◌+◌, Bool, true, false, not, ◌&&◌, ◌||◌, some, List, [], ◌∷◌, ◌++◌, ◌==◌, ltb, leb,
  length, same, Units, if◌then◌else◌,
}
use jambonz_feature_server.Amd.{word_count}
use jambonz_feature_server.Transcripts.{Transcript, Word, is_empty, compile_soniox_transcripts}
use jambonz_feature_server.Gather.{
  Vendor, deepgram, deepgramflux, soniox, microsoft, aws, custom, Settings, Gather, partial,
  performed, said, bargein_detected, started_transcribing, speech, stt_low_confidence, log,
  clear_timer, start_timer, start_asr_timer, kill_audio, resolve,
}
use jambonz_feature_server.Gather.Events.{is_speechmatics, is_none, consolidated, speech_or_timeout}

-- A normalized event; `original_is_final`, `words_end` and `is_turn` are of the event of Deepgram: the
-- time at which its last word ends, and whether it is an `EagerEndOfTurn` or a `TurnResumed`.
pub record Heard : Type 0 where
  pub first : Transcript
  pub original_is_final : Bool
  pub words_end : ℕ
  pub is_turn : Bool
  pub final_words : List Word

-- `utterance_end` has the end of the last word, 0 if it is -1 or not given.
pub data SttEvent : Type 0 where
  utterance_end : ℕ → SttEvent
  metadata listening no_alternatives : SttEvent
  heard : Heard → SttEvent

abbrev pub is_deepgram : Vendor → Bool
is_deepgram deepgram = true
is_deepgram _ = false

abbrev pub is_deepgramflux : Vendor → Bool
is_deepgramflux deepgramflux = true
is_deepgramflux _ = false

abbrev pub is_soniox : Vendor → Bool
is_soniox soniox = true
is_soniox _ = false

-- The engines that keep listening after a final response.
abbrev pub keeps_listening : Vendor → Bool
keeps_listening soniox = true
keeps_listening aws = true
keeps_listening microsoft = true
keeps_listening deepgram = true
keeps_listening Vendor.speechmatics = true
keeps_listening custom = true
keeps_listening _ = false

-- `/[,;:\.!\?]$/`, and the text without its last unit if that matches.
abbrev pub is_punctuation : ℕ → Bool
is_punctuation c = c == b',' || c == b';' || c == b':' || c == b'.' || c == b'!' || c == b'?'

unfoldable pub unpunctuated : Units → Units
unpunctuated [] = []
unpunctuated (c ∷ []) = if is_punctuation c then [] else c ∷ []
unpunctuated (c ∷ d ∷ text) = c ∷ unpunctuated (d ∷ text)

unfoldable pub find_exact : (Units → Units) → List Units → Units → Bool
find_exact lower [] text = false
find_exact lower (h ∷ hints) text = same (lower h) text || find_exact lower hints text

unfoldable pub words_of : List Transcript → ℕ
words_of [] = 0
words_of (t ∷ ts) = word_count t.transcript + words_of ts

unfoldable pub count_words : Transcript → Gather → ℕ
unfolding words_of
count_words t g =
    word_count t.transcript + length g.soniox_transcripts + words_of g.buffered_transcripts

unfoldable pub on_utterance_end : Settings → ℕ → Gather → Gather
unfolding resolve
on_utterance_end o at g =
    if is_none g.buffered_transcripts
    then g
    else if not (at == 0)
        && not (g.dg_time_of_last_unprocessed_word == 0)
        && ltb at g.dg_time_of_last_unprocessed_word
    then g
    else resolve o speech (consolidated o g) (record g { buffered_transcripts = [] })

-- A final transcript during continuous recognition.
unfoldable pub on_final_continuous : Settings → Transcript → Gather → Gather
unfolding resolve
on_final_continuous o t g =
    let text = if is_speechmatics o.vendor then t.transcript else unpunctuated t.transcript in
    let pushed = clear_timer (record g {
      buffered_transcripts = g.buffered_transcripts ++ record t { transcript = text } ∷ [];
    }) in
    let restarted = start_asr_timer pushed in
    if g.final_asr_timer
    then speech_or_timeout o (record pushed { final_asr_timer = false })
    else if keeps_listening o.vendor
    then restarted
    else log started_transcribing restarted

-- Any other final transcript.
unfoldable pub on_final_deepgram : Settings → Bool → Transcript → Gather → Gather
unfolding resolve
on_final_deepgram o empty t g =
    let pushed =
      if empty then g else record g { buffered_transcripts = g.buffered_transcripts ++ t ∷ [] } in
    if is_none pushed.buffered_transcripts
    then pushed
    else resolve o speech (consolidated o pushed) (record pushed { buffered_transcripts = [] })

abbrev pub compiled : List Word → Gather → Units
compiled ws g = (compile_soniox_transcripts (g.soniox_transcripts ++ ws ∷ [])).transcript

unfoldable pub on_final_single : Settings → Bool → Heard → Gather → Gather
unfolding resolve on_final_deepgram
on_final_single o empty e g =
    if is_soniox o.vendor
    then resolve o speech (compiled e.final_words g) (record g { soniox_transcripts = [] })
    else if is_deepgram o.vendor
    then on_final_deepgram o empty e.first g
    else resolve o speech e.first.transcript g

unfoldable pub on_final : Settings → Heard → Gather → Gather
unfolding on_final_continuous on_final_single
on_final o e g =
    let empty = is_empty e.first.transcript && not g.call_gone && not g.is_killed in
    if empty && (not (is_deepgram o.vendor) || o.is_continuous_asr)
    then g
    else if o.is_continuous_asr
    then on_final_continuous o e.first g
    else on_final_single o empty e g

-- What Deepgram has finished is buffered.
unfoldable pub buffer_partial : Settings → Heard → Gather → Gather
buffer_partial o e g =
    if not (is_deepgram o.vendor) || is_empty e.first.transcript
    then g
    else if e.original_is_final
    then record g {
      buffered_transcripts = g.buffered_transcripts ++ e.first ∷ [];
      dg_time_of_last_unprocessed_word = 0;
    }
    else if e.words_end == 0
    then g
    else record g { dg_time_of_last_unprocessed_word = e.words_end }

-- What words that are not final do: the number of words is given.
unfoldable pub heard_words : Settings → ℕ → Gather → Gather
unfolding start_timer kill_audio
heard_words o words g =
    let timed = if g.timeout_timer then start_timer o g else g in
    if o.bargein && leb o.min_bargein_word_count words
    then kill_audio o (if g.play_complete then timed else log bargein_detected timed)
    else timed

unfoldable pub tell_partial : Settings → Heard → Gather → Gather
tell_partial o e g =
    if o.has_partial_result_hook
    then log (partial e.first.transcript) g
    else if is_deepgramflux o.vendor && e.is_turn
    then log (performed (said e.first.transcript)) g
    else g

unfoldable pub on_partial : Settings → Heard → Gather → Gather
unfolding buffer_partial heard_words tell_partial start_timer count_words
on_partial o e g =
    let empty = is_deepgram o.vendor && is_empty e.first.transcript in
    let buffered = buffer_partial o e g in
    let words = if empty then buffered else heard_words o (count_words e.first g) buffered in
    let fast =
      if o.fast_recognition_timeout == 0
      then words
      else record words { fast_recognition_timer = some e.first.transcript } in
    let told = tell_partial o e fast in
    let kept =
      if is_soniox o.vendor && not (is_none e.final_words)
      then record told { soniox_transcripts = told.soniox_transcripts ++ e.final_words ∷ [] }
      else told in
    let timed = if kept.timeout_timer && not empty then start_timer o kept else kept in
    if o.is_continuous_asr && timed.asr_timer then start_asr_timer timed else timed

-- The fast path, where the first transcript that is not final is a hint.
unfoldable pub on_heard : Settings → Heard → Gather → Gather
unfolding resolve on_final on_partial find_exact
on_heard o e g =
    let counted = record g { partial_transcripts_count = suc g.partial_transcripts_count } in
    if e.first.is_final
    then on_final o e g
    else if not o.early_hints_match
    then on_partial o e g
    else if g.partial_transcripts_count == 0
        && find_exact o.lower o.hints (o.lower e.first.transcript)
    then resolve o speech e.first.transcript counted
    else on_partial o e counted

-- `_onTranscription`
unfoldable pub on_transcription : Settings → SttEvent → Gather → Gather
unfolding resolve on_utterance_end on_heard
on_transcription o (utterance_end at) g = on_utterance_end o at g
on_transcription o metadata g = g
on_transcription o listening g = g
on_transcription o no_alternatives g = g
on_transcription o (heard e) g =
    if not (e.first.confidence == 0)
      && not (o.min_confidence == 0)
      && ltb e.first.confidence o.min_confidence
    then resolve o stt_low_confidence e.first.transcript g
    else on_heard o e g
