-- ===== src/Gather/Handling.antt =====
-- The keys and timers of lib/tasks/gather.js keep the gather reporting once, and timed.
use jambonz_feature_server.Prelude.{
  ℕ, ◌≡◌, refl, Bool, true, false, not, ◌&&◌, ◌||◌, Option, none, some, [], ◌∷◌, ◌++◌, ◌==◌, ltb,
  length, is_some, if◌then◌else◌, Units, arith, if-cases, and-true,
}
use jambonz_feature_server.Gather.{
  Settings, Gather, dtmf, bargein_detected, started_transcribing, stopped_transcribing,
  dtmf_terminator_key, dtmf_num_digits, dtmf_inter_digit_timeout, speech, timeout, log, at_least,
  equals, start_timer, start_asr_timer, kill_audio, resolve,
}
use jambonz_feature_server.Gather.Events.{
  is_speechmatics, is_none, start_dtmf_listener, transcribe, start_listening, has_prompt,
  listen_during, handling, prompt_ended, barge, await_digit, prefer_digits, add_digit, take_digit,
  on_dtmf, consolidated, on_timeout, on_inter_digit_timeout, speech_or_timeout, on_asr_timer,
  on_final_asr_timer, on_fast_recognition_timer,
}
use jambonz_feature_server.Gather.Progress.{
  IsOnce, IsGoing, SameProgress, SameProgress-IsGoing, SameProgress-trans, log-SameProgress,
  kill_audio-SameProgress, resolve-IsGoing, start_timer-IsGoing, never_continuous,
}

start_dtmf_listener-SameProgress :
    (o : Settings) (g : Gather) → SameProgress g (start_dtmf_listener o g)
unfolding start_dtmf_listener
start_dtmf_listener-SameProgress o g =
    if-cases (SameProgress g)
      (o.wants_digits || o.dtmf_bargein || is_some o.asr_dtmf_termination_digit) _ _
      (λ _. (refl, refl, refl, refl, refl)) (λ _. (refl, refl, refl, refl, refl))

transcribe-SameProgress : (g : Gather) → SameProgress g (transcribe g)
transcribe-SameProgress g =
    log-SameProgress started_transcribing (record g { hears_speech = true }) refl

listen_during-SameProgress : (o : Settings) (g : Gather) → SameProgress g (listen_during o g)
listen_during-SameProgress o g =
    if-cases (SameProgress g) (o.listen_during_prompt || not (has_prompt g)) _ _
      (λ _.
        SameProgress-trans g heard (start_dtmf_listener o heard) same
          (start_dtmf_listener-SameProgress o heard))
      (λ _. same)
  where
    heard : Gather
    heard =
        if o.needs_stt && o.listen_during_prompt
        then (if not g.resolved && not g.is_killed
            then transcribe g
            else record g { hears_speech = true })
        else g

    same : SameProgress g heard
    same =
        if-cases (SameProgress g) (o.needs_stt && o.listen_during_prompt) _ _
          (λ _.
            if-cases (SameProgress g) (not g.resolved && not g.is_killed) _ _
              (λ _. transcribe-SameProgress g) (λ _. (refl, refl, refl, refl, refl)))
          (λ _. (refl, refl, refl, refl, refl))

barge-SameProgress : (o : Settings) (d : ℕ) (g : Gather) → SameProgress g (barge o d g)
barge-SameProgress o d g =
    let told : Gather = if g.play_complete then g else log bargein_detected g in
    let same : SameProgress g told =
      if-cases (SameProgress g) g.play_complete _ _ (λ _. (refl, refl, refl, refl, refl))
        (λ _. log-SameProgress bargein_detected g refl) in
    let quiet : Gather = kill_audio o told in
    if-cases (SameProgress g) o.dtmf_bargein _ _
      (λ _.
        SameProgress-trans g quiet (log (dtmf d) quiet)
          (SameProgress-trans g told quiet same (kill_audio-SameProgress o told))
          (log-SameProgress (dtmf d) quiet refl))
      (λ _. (refl, refl, refl, refl, refl))

prefer_digits-SameProgress : (o : Settings) (g : Gather) → SameProgress g (prefer_digits o g)
prefer_digits-SameProgress o g =
    if-cases (SameProgress g) (is_none g.digit_buffer && o.needs_stt) _ _
      (λ _.
        log-SameProgress stopped_transcribing (record g { hears_speech = false; asr_timer = false })
          refl)
      (λ _. (refl, refl, refl, refl, refl))

module _ (w : Bool) (o : Settings)
    (timed : w ≡ true → (o.is_continuous_asr ≡ false) × ((o.timeout == 0) ≡ false)) where
  start_listening-IsGoing : (g : Gather) → IsOnce g → IsGoing w (start_listening o g)
  unfolding start_listening
  start_listening-IsGoing g h =
      let running : Gather = start_timer o g in
      let extended : Gather =
        if o.is_continuous_asr && o.timeout == 0 && not o.is_background
        then start_asr_timer running
        else running in
      let going : IsGoing w running = start_timer-IsGoing w o timed g h in
      let kept : IsGoing w extended =
        if-cases (IsGoing w) (o.is_continuous_asr && o.timeout == 0 && not o.is_background) _ _
          (λ _. going) (λ _. going) in
      if-cases (IsGoing w) (o.needs_stt && not o.listen_during_prompt) _ _
        (λ _.
          SameProgress-IsGoing w extended (transcribe extended) (transcribe-SameProgress extended)
            kept)
        (λ _. kept)

  pub prompt_ended-IsGoing : (g : Gather) → IsGoing w g → IsGoing w (prompt_ended o g)
  unfolding prompt_ended
  prompt_ended-IsGoing g h =
      let played : Gather = record g { play_complete = true } in
      let heard : Gather =
        if o.listen_during_prompt then played else start_dtmf_listener o played in
      let kept : IsGoing w heard =
        if-cases (IsGoing w) o.listen_during_prompt _ _ (λ _. h)
          (λ _.
            SameProgress-IsGoing w played (start_dtmf_listener o played)
              (start_dtmf_listener-SameProgress o played) h) in
      if-cases (IsGoing w) (not g.is_killed && not g.resolved) _ _
        (λ _. start_listening-IsGoing heard kept.0) (λ _. kept)

  pub handling-IsGoing : (g : Gather) → IsGoing w g → IsGoing w (handling o g)
  unfolding handling
  handling-IsGoing g h =
      let started = start_listening o g in
      if-cases (IsGoing w) (has_prompt g) _ _
        (λ _. SameProgress-IsGoing w g (listen_during o g) (listen_during-SameProgress o g) h)
        (λ _.
          if-cases (IsGoing w) g.is_killed _ _ (λ _. h)
            (λ _.
              SameProgress-IsGoing w started (listen_during o started)
                (listen_during-SameProgress o started) (start_listening-IsGoing g h.0)))

  await_digit-IsGoing : (g : Gather) → IsGoing w g → IsGoing w (await_digit o g)
  unfolding await_digit
  await_digit-IsGoing g h =
      if-cases (IsGoing w)
        (ltb 0 o.inter_digit_timeout && at_least (length g.digit_buffer) o.min_digits) _ _
        (λ _. (h.0, λ t. ground arith)) (λ _. h)

  add_digit-IsGoing : (d : ℕ) (g : Gather) → IsGoing w g → IsGoing w (add_digit o d g)
  unfolding add_digit
  add_digit-IsGoing d g h =
      let first : Gather = prefer_digits o g in
      let added : Gather = record first { digit_buffer = g.digit_buffer ++ d ∷ [] } in
      let kept : IsGoing w added =
        SameProgress-IsGoing w g first (prefer_digits-SameProgress o g) h in
      if-cases (IsGoing w)
        (equals (length added.digit_buffer) o.num_digits
          || equals (length added.digit_buffer) o.max_digits)
        _ _ (λ _. resolve-IsGoing w o dtmf_num_digits [] added kept.0)
        (λ _. await_digit-IsGoing added kept)

  take_digit-IsGoing : (d : ℕ) (g : Gather) → IsGoing w g → IsGoing w (take_digit o d g)
  unfolding take_digit
  take_digit-IsGoing d g h =
      if-cases (IsGoing w) (equals d o.finish_on_key && o.wants_digits) _ _
        (λ _. resolve-IsGoing w o dtmf_terminator_key [] g h.0)
        (λ _.
          if-cases (IsGoing w) o.wants_digits _ _ (λ _. add_digit-IsGoing d g h)
            (λ _. await_digit-IsGoing g h))

  -- The first thing that a key does is to see that the timer of the gather runs.
  no_inter_digit :
      (g : Gather)
      → IsGoing w g
      → IsGoing w (record (if not g.timeout_timer && ltb 0 o.timeout then start_timer o g else g) {
        inter_digit_timer = false;
      })
  unfolding start_timer
  no_inter_digit g h =
      if-cases (λ k. IsGoing w (record k { inter_digit_timer = false }))
        (not g.timeout_timer && ltb 0 o.timeout) _ _
        (λ _.
          if-cases (λ k. IsGoing w (record k { inter_digit_timer = false })) (o.timeout == 0) _ _
            (λ z. (h.0, λ t. let set = (timed t).1 in cc)) (λ _. (h.0, λ t. ground arith)))
        (λ n. (h.0, λ t. ground (arith, h.1 t, (timed t).1)))

  pub on_dtmf-IsGoing : (d : ℕ) (g : Gather) → IsGoing w g → IsGoing w (on_dtmf o d g)
  unfolding on_dtmf
  on_dtmf-IsGoing d g h =
      let running : Gather =
        record (if not g.timeout_timer && ltb 0 o.timeout then start_timer o g else g) {
          inter_digit_timer = false;
        } in
      let barged : Gather = barge o d running in
      let kept =
        SameProgress-IsGoing w running barged (barge-SameProgress o d running)
          (no_inter_digit g h) in
      if-cases (IsGoing w)
        (o.is_continuous_asr
          && equals d o.asr_dtmf_termination_digit
          && not (is_none g.buffered_transcripts))
        _ _
        (λ c. (
          kept.0,
          λ t. absurd (
              never_continuous w o timed
                (and-true o.is_continuous_asr (equals d o.asr_dtmf_termination_digit)
                  (and-true (o.is_continuous_asr && equals d o.asr_dtmf_termination_digit)
                    (not (is_none g.buffered_transcripts)) c).0).0
                t),
        ))
        (λ _. take_digit-IsGoing d barged kept)

  pub on_timeout-IsGoing : (g : Gather) → IsOnce g → IsGoing w (on_timeout o g)
  unfolding on_timeout
  on_timeout-IsGoing g h =
      let rung : Gather = record g { timeout_runs = false } in
      if-cases (IsGoing w) o.is_continuous_asr _ _
        (λ c. (h, λ t. absurd (never_continuous w o timed c t)))
        (λ _.
          resolve-IsGoing w o
            (if at_least (length g.digit_buffer) o.min_digits then dtmf_num_digits else timeout) []
            rung h)

  pub on_inter_digit_timeout-IsGoing :
      (g : Gather) → IsOnce g → IsGoing w (on_inter_digit_timeout o g)
  unfolding on_inter_digit_timeout
  on_inter_digit_timeout-IsGoing g h =
      resolve-IsGoing w o dtmf_inter_digit_timeout [] (record g { inter_digit_timer = false }) h

  pub speech_or_timeout-IsGoing : (g : Gather) → IsOnce g → IsGoing w (speech_or_timeout o g)
  speech_or_timeout-IsGoing g h =
      resolve-IsGoing w o (if is_none g.buffered_transcripts then timeout else speech)
        (consolidated o g) g h

  pub on_asr_timer-IsGoing : (g : Gather) → IsGoing w g → IsGoing w (on_asr_timer o g)
  unfolding on_asr_timer
  on_asr_timer-IsGoing g h =
      if-cases (IsGoing w) (is_speechmatics o.vendor && is_none g.buffered_transcripts) _ _ (λ _. h)
        (λ _. speech_or_timeout-IsGoing (record g { asr_timer = false }) h.0)

  pub on_final_asr_timer-IsGoing : (g : Gather) → IsOnce g → IsGoing w (on_final_asr_timer o g)
  unfolding on_final_asr_timer
  on_final_asr_timer-IsGoing g h =
      speech_or_timeout-IsGoing (record g { final_asr_timer = false }) h

  fast-IsGoing :
      (t : Option Units) (g : Gather)
      → IsGoing w g
      → IsGoing w (elim t [
        | none ↦ g
        | some text ↦ resolve o speech text (record g { fast_recognition_timer = none })
      ])
  fast-IsGoing none g h = h
  fast-IsGoing (some text) g h =
      resolve-IsGoing w o speech text (record g { fast_recognition_timer = none }) h.0

  pub on_fast_recognition_timer-IsGoing :
      (g : Gather) → IsGoing w g → IsGoing w (on_fast_recognition_timer o g)
  unfolding on_fast_recognition_timer
  on_fast_recognition_timer-IsGoing g h = fast-IsGoing g.fast_recognition_timer g h
