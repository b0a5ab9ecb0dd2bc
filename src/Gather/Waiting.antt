-- ===== src/Gather/Waiting.antt =====
-- Gathers of lib/tasks/gather.js that wait for nothing, and that are called after their end.
use jambonz_feature_server.Prelude.{
  ℕ, ◌≡◌, refl, Bool, true, false, not, ◌&&◌, ◌||◌, none, [], ◌∷◌, if◌then◌else◌, if-cases,
}
use jambonz_feature_server.Gather.{
  Settings, Gather, bargein_detected, log, equals, clear_timer, kill_audio, stop_transcribing,
  resolve, report, kill, killed,
}
use jambonz_feature_server.Gather.Events.{
  start_dtmf_listener, barge, await_digit, add_digit, take_digit, on_dtmf, on_timeout, prompt_ended,
}
use jambonz_feature_server.Gather.Runs.{step, run, timeout_fires, presses, prompt_ends, is_killed}

-- No timer of the gather runs, and it has not been resolved.
abbrev pub IsStuck : Gather → Type 0
IsStuck g =
    (g.resolved ≡ false)
    × (g.timeout_runs ≡ false)
    × (g.inter_digit_timer ≡ false)
    × (g.asr_timer ≡ false)
    × (g.final_asr_timer ≡ false)
    × (g.fast_recognition_timer ≡ none)

abbrev BeforeDigit : Gather → Type 0
BeforeDigit g =
    (g.resolved ≡ false)
    × (g.timeout_runs ≡ false)
    × (g.inter_digit_timer ≡ false)
    × (g.final_asr_timer ≡ false)
    × (g.fast_recognition_timer ≡ none)
    × (g.digit_buffer ≡ [])

kill_audio-BeforeDigit : (o : Settings) (g : Gather) → BeforeDigit g → BeforeDigit (kill_audio o g)
unfolding kill_audio
kill_audio-BeforeDigit o g h =
    if-cases BeforeDigit (not g.say_task && not g.play_task && o.bargein) _ _
      (λ _. if-cases BeforeDigit (g.ep_connected && not g.play_complete) _ _ (λ _. h) (λ _. h))
      (λ _. if-cases BeforeDigit (g.say_task || g.play_task) _ _ (λ _. h) (λ _. h))

barge-BeforeDigit : (o : Settings) (d : ℕ) (g : Gather) → BeforeDigit g → BeforeDigit (barge o d g)
barge-BeforeDigit o d g h =
    if-cases BeforeDigit o.dtmf_bargein _ _
      (λ _.
        kill_audio-BeforeDigit o (if g.play_complete then g else log bargein_detected g)
          (if-cases BeforeDigit g.play_complete _ _ (λ _. h) (λ _. h)))
      (λ _. h)

-- The first digit of a gather that also wants speech stops the recognizer and its timer.
module _ (o : Settings) (d : ℕ) (speech_too : o.needs_stt ≡ true)
    (no_finish : equals d o.finish_on_key ≡ false) (wants : o.wants_digits ≡ true)
    (more : (equals 1 o.num_digits || equals 1 o.max_digits) ≡ false)
    (no_inter : o.inter_digit_timeout ≡ 0) where
  take_digit-IsStuck : (g : Gather) → BeforeDigit g → IsStuck (take_digit o d g)
  unfolding take_digit add_digit await_digit
  take_digit-IsStuck g (r, t, i, f, q, b) =
      rw (no_finish, wants) (rw (b, speech_too) (rw more (rw no_inter (r, t, i, refl, f, q))))

-- Take a gather with continuous recognition that wants speech and digits, has no inter-digit
-- time-out, and is not resolved, has no digit and no transcript buffered, hears keys and has only
-- its time-out running, or the asr timer too. When the time-out fires and then a key is pressed
-- that is not the finish key and does not fill the buffer, the gather is not resolved and none of
-- its timers runs.
pub first_digit_strands :
    (o : Settings) (d : ℕ) (g : Gather)
    → o.is_continuous_asr ≡ true
    → o.needs_stt ≡ true
    → o.wants_digits ≡ true
    → equals d o.finish_on_key ≡ false
    → (equals 1 o.num_digits || equals 1 o.max_digits) ≡ false
    → o.inter_digit_timeout ≡ 0
    → IsStuck (
        run o (timeout_fires ∷ presses d ∷ []) (record g {
          resolved = false;
          digit_buffer = [];
          buffered_transcripts = [];
          timeout_timer = true;
          timeout_runs = true;
          inter_digit_timer = false;
          final_asr_timer = false;
          fast_recognition_timer = none;
          hears_dtmf = true;
        }))
unfolding run step on_timeout on_dtmf
first_digit_strands o d g c s w f m i =
    let expired : Gather = record g {
      resolved = false;
      digit_buffer = [];
      buffered_transcripts = [];
      timeout_timer = true;
      timeout_runs = false;
      inter_digit_timer = false;
      final_asr_timer = false;
      fast_recognition_timer = none;
      hears_dtmf = true;
      asr_timer = true;
    } in
    let barged : Gather = barge o d expired in
    let before = barge-BeforeDigit o d expired (refl, refl, refl, refl, refl, refl) in
    rw c (
      if-cases IsStuck (true && equals d o.asr_dtmf_termination_digit && false)
        (record (clear_timer barged) { asr_timer = false; final_asr_timer = true })
        (take_digit o d barged)
        (λ t. absurd (no_transcripts (equals d o.asr_dtmf_termination_digit) t))
        (λ _. take_digit-IsStuck o d s f w m i barged before))
  where
    no_transcripts : (b : Bool) → (true && b && false) ≡ true → ⊥
    no_transcripts true t = cc
    no_transcripts false t = cc

abbrev IsDead : Gather → Type 0
IsDead g = (g.hears_dtmf ≡ false) × (g.is_killed ≡ true)

kill_audio-is_killed :
    (o : Settings) (g : Gather) → g.is_killed ≡ true → (kill_audio o g).is_killed ≡ true
unfolding kill_audio
kill_audio-is_killed o g h =
    if-cases (λ (k : Gather). k.is_killed ≡ true) (not g.say_task && not g.play_task && o.bargein) _
      _
      (λ _.
        if-cases (λ (k : Gather). k.is_killed ≡ true) (g.ep_connected && not g.play_complete) _ _
          (λ _. h) (λ _. h))
      (λ _.
        if-cases (λ (k : Gather). k.is_killed ≡ true) (g.say_task || g.play_task) _ _ (λ _. h)
          (λ _. h))

resolve-IsDead : (o : Settings) (g : Gather) → IsDead g → IsDead (resolve o killed [] g)
unfolding resolve report
resolve-IsDead o g h =
    let stopped : Gather = if o.needs_stt && g.ep_connected then stop_transcribing g else g in
    let dead : IsDead stopped =
      if-cases IsDead (o.needs_stt && g.ep_connected) _ _ (λ _. h) (λ _. h) in
    if-cases IsDead g.resolved _ _ (λ _. dead)
      (λ _. (
        refl,
        kill_audio-is_killed o (record stopped { resolved = true; hears_speech = false }) dead.1,
      ))

kill-IsDead : (o : Settings) (g : Gather) → IsDead (kill o g)
unfolding kill
kill-IsDead o g =
    let dying : Gather = record g { is_killed = true } in
    let quiet : Gather = kill_audio o dying in
    resolve-IsDead o
      (record quiet { hears_dtmf = false; inter_digit_timer = false; asr_timer = false })
      (refl, kill_audio-is_killed o dying refl)

-- Where a gather wants digits and does not listen during its prompt, a kill removes its dtmf
-- listener, and the end of the prompt after the kill adds it again.
pub killed_hears :
    (o : Settings) (g : Gather)
    → o.wants_digits ≡ true
    → o.listen_during_prompt ≡ false
    → ((kill o g).hears_dtmf ≡ false) × ((run o (is_killed ∷ prompt_ends ∷ []) g).hears_dtmf ≡ true)
unfolding run step prompt_ended start_dtmf_listener
killed_hears o g w l = let (deaf, dead) = kill-IsDead o g in (deaf, rw (l, w) (rw dead refl))
