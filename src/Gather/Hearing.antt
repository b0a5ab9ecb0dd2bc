-- ===== src/Gather/Hearing.antt =====
-- The transcriptions of lib/tasks/gather.js keep the gather reporting once, and timed.
use jambonz_feature_server.Prelude.{
  ℕ, suc, ◌≡◌, refl, Bool, true, false, not, ◌&&◌, ◌||◌, some, [], ◌∷◌, ◌++◌, ◌==◌, ltb, leb,
  if◌then◌else◌, if-cases,
}
use jambonz_feature_server.Transcripts.{Transcript, is_empty}
use jambonz_feature_server.Gather.{
  Settings, Gather, partial, performed, said, bargein_detected, started_transcribing, speech,
  stt_low_confidence, log, clear_timer, start_timer, start_asr_timer, kill_audio,
}
use jambonz_feature_server.Gather.Events.{is_speechmatics, is_none, consolidated}
use jambonz_feature_server.Gather.Speech.{
  Heard, SttEvent, utterance_end, metadata, listening, no_alternatives, heard, is_deepgram,
  is_deepgramflux, is_soniox, keeps_listening, unpunctuated, find_exact, count_words,
  on_utterance_end, on_final_continuous, on_final_deepgram, compiled, on_final_single, on_final,
  buffer_partial, heard_words, tell_partial, on_partial, on_heard, on_transcription,
}
use jambonz_feature_server.Gather.Progress.{
  IsOnce, IsGoing, SameProgress, SameProgress-IsGoing, log-SameProgress, kill_audio-SameProgress,
  resolve-IsGoing, start_timer-IsGoing, never_continuous,
}
use jambonz_feature_server.Gather.Handling.{speech_or_timeout-IsGoing}

buffer_partial-SameProgress :
    (o : Settings) (e : Heard) (g : Gather) → SameProgress g (buffer_partial o e g)
unfolding buffer_partial
buffer_partial-SameProgress o e g =
    if-cases (SameProgress g) (not (is_deepgram o.vendor) || is_empty e.first.transcript) _ _
      (λ _. (refl, refl, refl, refl, refl))
      (λ _.
        if-cases (SameProgress g) e.original_is_final _ _ (λ _. (refl, refl, refl, refl, refl))
          (λ _.
            if-cases (SameProgress g) (e.words_end == 0) _ _ (λ _. (refl, refl, refl, refl, refl))
              (λ _. (refl, refl, refl, refl, refl))))

tell_partial-SameProgress :
    (o : Settings) (e : Heard) (g : Gather) → SameProgress g (tell_partial o e g)
unfolding tell_partial
tell_partial-SameProgress o e g =
    if-cases (SameProgress g) o.has_partial_result_hook _ _
      (λ _. log-SameProgress (partial e.first.transcript) g refl)
      (λ _.
        if-cases (SameProgress g) (is_deepgramflux o.vendor && e.is_turn) _ _
          (λ _. log-SameProgress (performed (said e.first.transcript)) g refl)
          (λ _. (refl, refl, refl, refl, refl)))

module _ (w : Bool) (o : Settings)
    (timed : w ≡ true → (o.is_continuous_asr ≡ false) × ((o.timeout == 0) ≡ false)) where
  on_utterance_end-IsGoing :
      (at : ℕ) (g : Gather) → IsGoing w g → IsGoing w (on_utterance_end o at g)
  unfolding on_utterance_end
  on_utterance_end-IsGoing at g h =
      if-cases (IsGoing w) (is_none g.buffered_transcripts) _ _ (λ _. h)
        (λ _.
          if-cases (IsGoing w)
            (not (at == 0)
              && not (g.dg_time_of_last_unprocessed_word == 0)
              && ltb at g.dg_time_of_last_unprocessed_word)
            _ _ (λ _. h)
            (λ _.
              resolve-IsGoing w o speech (consolidated o g) (record g { buffered_transcripts = [] })
                h.0))

  on_final_continuous-IsGoing :
      (t : Transcript) (g : Gather)
      → o.is_continuous_asr ≡ true
      → IsOnce g
      → IsGoing w (on_final_continuous o t g)
  unfolding on_final_continuous
  on_final_continuous-IsGoing t g c h =
      let text = if is_speechmatics o.vendor then t.transcript else unpunctuated t.transcript in
      let pushed : Gather = clear_timer (record g {
        buffered_transcripts = g.buffered_transcripts ++ record t { transcript = text } ∷ [];
      }) in
      let restarted : Gather = start_asr_timer pushed in
      let kept : IsGoing w restarted = (h, λ t. absurd (never_continuous w o timed c t)) in
      if-cases (IsGoing w) g.final_asr_timer _ _
        (λ _. speech_or_timeout-IsGoing w o timed (record pushed { final_asr_timer = false }) h)
        (λ _.
          if-cases (IsGoing w) (keeps_listening o.vendor) _ _ (λ _. kept)
            (λ _.
              SameProgress-IsGoing w restarted (log started_transcribing restarted)
                (log-SameProgress started_transcribing restarted refl) kept))

  on_final_deepgram-IsGoing :
      (empty : Bool) (t : Transcript) (g : Gather)
      → IsGoing w g
      → IsGoing w (on_final_deepgram o empty t g)
  unfolding on_final_deepgram
  on_final_deepgram-IsGoing empty t g h =
      let pushed : Gather =
        if empty then g else record g { buffered_transcripts = g.buffered_transcripts ++ t ∷ [] } in
      let kept : IsGoing w pushed = if-cases (IsGoing w) empty _ _ (λ _. h) (λ _. h) in
      if-cases (IsGoing w) (is_none pushed.buffered_transcripts) _ _ (λ _. kept)
        (λ _.
          resolve-IsGoing w o speech (consolidated o pushed)
            (record pushed { buffered_transcripts = [] }) kept.0)

  on_final_single-IsGoing :
      (empty : Bool) (e : Heard) (g : Gather)
      → IsGoing w g
      → IsGoing w (on_final_single o empty e g)
  unfolding on_final_single
  on_final_single-IsGoing empty e g h =
      if-cases (IsGoing w) (is_soniox o.vendor) _ _
        (λ _.
          resolve-IsGoing w o speech (compiled e.final_words g)
            (record g { soniox_transcripts = [] }) h.0)
        (λ _.
          if-cases (IsGoing w) (is_deepgram o.vendor) _ _
            (λ _. on_final_deepgram-IsGoing empty e.first g h)
            (λ _. resolve-IsGoing w o speech e.first.transcript g h.0))

  on_final-IsGoing : (e : Heard) (g : Gather) → IsGoing w g → IsGoing w (on_final o e g)
  unfolding on_final
  on_final-IsGoing e g h =
      let empty = is_empty e.first.transcript && not g.call_gone && not g.is_killed in
      if-cases (IsGoing w) (empty && (not (is_deepgram o.vendor) || o.is_continuous_asr)) _ _
        (λ _. h)
        (λ _.
          if-cases (IsGoing w) o.is_continuous_asr _ _
            (λ c. on_final_continuous-IsGoing e.first g c h.0)
            (λ _. on_final_single-IsGoing empty e g h))

  heard_words-IsGoing : (words : ℕ) (g : Gather) → IsGoing w g → IsGoing w (heard_words o words g)
  unfolding heard_words
  heard_words-IsGoing words g h =
      let running : Gather = if g.timeout_timer then start_timer o g else g in
      let kept : IsGoing w running =
        if-cases (IsGoing w) g.timeout_timer _ _ (λ _. start_timer-IsGoing w o timed g h.0)
          (λ _. h) in
      let told : Gather = if g.play_complete then running else log bargein_detected running in
      let same : SameProgress running told =
        if-cases (SameProgress running) g.play_complete _ _ (λ _. (refl, refl, refl, refl, refl))
          (λ _. log-SameProgress bargein_detected running refl) in
      if-cases (IsGoing w) (o.bargein && leb o.min_bargein_word_count words) _ _
        (λ _.
          SameProgress-IsGoing w told (kill_audio o told) (kill_audio-SameProgress o told)
            (SameProgress-IsGoing w running told same kept))
        (λ _. kept)

  on_partial-IsGoing : (e : Heard) (g : Gather) → IsGoing w g → IsGoing w (on_partial o e g)
  unfolding on_partial
  on_partial-IsGoing e g h =
      let empty = is_deepgram o.vendor && is_empty e.first.transcript in
      let buffered : Gather = buffer_partial o e g in
      let b : IsGoing w buffered =
        SameProgress-IsGoing w g buffered (buffer_partial-SameProgress o e g) h in
      let words : Gather =
        if empty then buffered else heard_words o (count_words e.first g) buffered in
      let v : IsGoing w words =
        if-cases (IsGoing w) empty _ _ (λ _. b)
          (λ _. heard_words-IsGoing (count_words e.first g) buffered b) in
      let fast : Gather =
        if o.fast_recognition_timeout == 0
        then words
        else record words { fast_recognition_timer = some e.first.transcript } in
      let f : IsGoing w fast =
        if-cases (IsGoing w) (o.fast_recognition_timeout == 0) _ _ (λ _. v) (λ _. v) in
      let told : Gather = tell_partial o e fast in
      let t : IsGoing w told =
        SameProgress-IsGoing w fast told (tell_partial-SameProgress o e fast) f in
      let kept : Gather =
        if is_soniox o.vendor && not (is_none e.final_words)
        then record told { soniox_transcripts = told.soniox_transcripts ++ e.final_words ∷ [] }
        else told in
      let k : IsGoing w kept =
        if-cases (IsGoing w) (is_soniox o.vendor && not (is_none e.final_words)) _ _ (λ _. t)
          (λ _. t) in
      let running : Gather = if kept.timeout_timer && not empty then start_timer o kept else kept in
      let r : IsGoing w running =
        if-cases (IsGoing w) (kept.timeout_timer && not empty) _ _
          (λ _. start_timer-IsGoing w o timed kept k.0) (λ _. k) in
      if-cases (IsGoing w) (o.is_continuous_asr && running.asr_timer) _ _ (λ _. r) (λ _. r)

  on_heard-IsGoing : (e : Heard) (g : Gather) → IsGoing w g → IsGoing w (on_heard o e g)
  unfolding on_heard
  on_heard-IsGoing e g h =
      let counted : Gather = record g {
        partial_transcripts_count = suc g.partial_transcripts_count;
      } in
      if-cases (IsGoing w) e.first.is_final _ _ (λ _. on_final-IsGoing e g h)
        (λ _.
          if-cases (IsGoing w) (not o.early_hints_match) _ _ (λ _. on_partial-IsGoing e g h)
            (λ _.
              if-cases (IsGoing w)
                (g.partial_transcripts_count == 0
                  && find_exact o.lower o.hints (o.lower e.first.transcript))
                _ _ (λ _. resolve-IsGoing w o speech e.first.transcript counted h.0)
                (λ _. on_partial-IsGoing e counted h)))

  pub on_transcription-IsGoing :
      (e : SttEvent) (g : Gather) → IsGoing w g → IsGoing w (on_transcription o e g)
  unfolding on_transcription
  on_transcription-IsGoing (utterance_end at) g h = on_utterance_end-IsGoing at g h
  on_transcription-IsGoing metadata g h = h
  on_transcription-IsGoing listening g h = h
  on_transcription-IsGoing no_alternatives g h = h
  on_transcription-IsGoing (heard e) g h =
      if-cases (IsGoing w)
        (not (e.first.confidence == 0)
          && not (o.min_confidence == 0)
          && ltb e.first.confidence o.min_confidence)
        _ _ (λ _. resolve-IsGoing w o stt_low_confidence e.first.transcript g h.0)
        (λ _. on_heard-IsGoing e g h)
