-- ===== src/Amd/Silence.antt =====
-- The detection after a stop, and after a report of no speech: lib/utils/amd-utils.js.
use jambonz_feature_server.Prelude.{
  ℕ, ◌≡◌, refl, ap, ◌∙◌, Bool, true, false, Option, none, List, [], ◌∷◌, is_some, if◌then◌else◌,
  if-cases,
}
use jambonz_feature_server.Amd.{
  tone_detected, no_speech, Settings, Amd, stop_all_timers, stop_amd, on_transcription,
  on_no_speech_detected, on_beep,
}
use jambonz_feature_server.Amd.Told.{
  Op, decision_timer, no_speech_timer, tone_timer, greeting_timer, vendor_no_speech, beep, stopping,
  transcription, or_same, step, run, count_decided, count-log_other,
}
use jambonz_feature_server.Prelude.{all, all-cons}

-- An event that is neither a beep nor a stop.
unfoldable pub is_inner : Op → Bool
is_inner beep = false
is_inner stopping = false
is_inner _ = true

unfoldable pub IsOver : Amd → Type 0
IsOver a =
    a.attached ≡ false
    × a.decision_timer ≡ false
    × a.no_speech_timer ≡ false
    × a.tone_timer ≡ false
    × a.greeting_completion_timer ≡ none

stop_amd-IsOver : (a : Amd) → a.attached ≡ true → IsOver (stop_amd a)
unfolding stop_amd IsOver
stop_amd-IsOver a there = if-cases IsOver a.connected _ _ (λ _. cleared) (λ _. cleared)
  where
    cleared : IsOver (if a.attached then record (stop_all_timers a) { attached = false } else a)
    cleared = if-cases IsOver a.attached _ _ (λ _. (refl, refl, refl, refl, refl)) (λ gone. cc)

step_over : (s : Settings) (op : Op) (a : Amd) → is_inner op ≡ true → IsOver a → step s op a ≡ a
unfolding step is_inner IsOver on_transcription on_no_speech_detected
step_over s decision_timer a i (g, d, n, t, c) =
    if-cases (λ b. b ≡ a) a.decision_timer _ _ (λ on. cc) (λ _. refl)
step_over s no_speech_timer a i (g, d, n, t, c) =
    if-cases (λ b. b ≡ a) a.no_speech_timer _ _ (λ on. cc) (λ _. refl)
step_over s tone_timer a i (g, d, n, t, c) =
    if-cases (λ b. b ≡ a) a.tone_timer _ _ (λ on. cc) (λ _. refl)
step_over s greeting_timer a i (g, d, n, t, c) =
    if-cases (λ b. b ≡ a) (is_some a.greeting_completion_timer) _ _
      (λ on. let off = ap is_some c in cc) (λ _. refl)
step_over s vendor_no_speech a i (g, d, n, t, c) =
    if-cases {A = Option Amd} (λ o. or_same a o ≡ a) a.attached _ _ (λ on. cc) (λ _. refl)
step_over s beep a i h = cc
step_over s stopping a i h = cc
step_over s (transcription x) a i (g, d, n, t, c) =
    if-cases (λ b. b ≡ a) a.attached _ _ (λ on. cc) (λ _. refl)

run_over :
    (s : Settings) (ops : List Op) (a : Amd) → all is_inner ops ≡ true → IsOver a → run s ops a ≡ a
unfolding run
run_over s [] a i h = refl
run_over s (op ∷ ops) a i h =
    let (first, rest) = all-cons is_inner op ops i in
    ap (run s ops) (step_over s op a first h) ∙ run_over s ops a rest h

-- After the stop of a detection that was on, any list of timers, transcriptions and reports of no
-- speech changes nothing.
pub stopped_is_silent :
    (s : Settings) (ops : List Op) (a : Amd)
    → a.attached ≡ true
    → all is_inner ops ≡ true
    → run s ops (stop_amd a) ≡ stop_amd a
stopped_is_silent s ops a there i = run_over s ops (stop_amd a) i (stop_amd-IsOver a there)

-- An event that is neither a transcription nor a stop.
unfoldable pub is_wordless : Op → Bool
is_wordless (transcription _) = false
is_wordless stopping = false
is_wordless _ = true

-- The detection is on, undecided and without a timer, and as many decisions were emitted.
unfoldable pub IsMute : ℕ → Amd → Type 0
IsMute n a =
    a.attached ≡ true
    × a.decision ≡ none
    × a.decision_timer ≡ false
    × a.no_speech_timer ≡ false
    × a.tone_timer ≡ false
    × a.greeting_completion_timer ≡ none
    × count_decided a.out ≡ n

step-IsMute :
    (s : Settings) (n : ℕ) (op : Op) (a : Amd)
    → is_wordless op ≡ true
    → IsMute n a
    → IsMute n (step s op a)
unfolding step is_wordless IsMute on_no_speech_detected on_beep count_decided
step-IsMute s m decision_timer a i (g, h, d, n, t, c, k) =
    if-cases (IsMute m) a.decision_timer _ _ (λ on. cc) (λ _. (g, h, d, n, t, c, k))
step-IsMute s m no_speech_timer a i (g, h, d, n, t, c, k) =
    if-cases (IsMute m) a.no_speech_timer _ _ (λ on. cc) (λ _. (g, h, d, n, t, c, k))
step-IsMute s m tone_timer a i (g, h, d, n, t, c, k) =
    if-cases (IsMute m) a.tone_timer _ _ (λ on. cc) (λ _. (g, h, d, n, t, c, k))
step-IsMute s m greeting_timer a i (g, h, d, n, t, c, k) =
    if-cases (IsMute m) (is_some a.greeting_completion_timer) _ _
      (λ on. let off = ap is_some c in cc) (λ _. (g, h, d, n, t, c, k))
step-IsMute s m vendor_no_speech a i (g, h, d, n, t, c, k) =
    if-cases {A = Option Amd} (λ o. IsMute m (or_same a o)) a.attached _ _
      (λ _. (g, h, refl, refl, refl, refl, count-log_other a.out no_speech refl ∙ k))
      (λ _. (g, h, d, n, t, c, k))
step-IsMute s m beep a i (g, h, d, n, t, c, k) =
    let told = count-log_other a.out tone_detected refl ∙ k in
    if-cases (IsMute m) a.attached _ _ (λ _. (g, h, d, n, refl, c, told))
      (λ _. (g, h, d, n, t, c, told))
step-IsMute s m stopping a i h = cc
step-IsMute s m (transcription x) a i h = cc

run-IsMute :
    (s : Settings) (n : ℕ) (ops : List Op) (a : Amd)
    → all is_wordless ops ≡ true
    → IsMute n a
    → IsMute n (run s ops a)
unfolding run
run-IsMute s n [] a i h = h
run-IsMute s n (op ∷ ops) a i h =
    let (first, rest) = all-cons is_wordless op ops i in
    run-IsMute s n ops (step s op a) rest (step-IsMute s n op a first h)

-- Where the vendor reports that there was no speech to a detection that is on and undecided, it is
-- still on, undecided and without a timer after any list of timers, beeps and such reports, and no
-- decision was emitted.
pub vendor_no_speech_mutes :
    (s : Settings) (ops : List Op) (a : Amd)
    → a.attached ≡ true
    → a.decision ≡ none
    → all is_wordless ops ≡ true
    → IsMute (count_decided a.out) (run s ops (or_same a (on_no_speech_detected a)))
unfolding on_no_speech_detected IsMute count_decided
vendor_no_speech_mutes s ops a there undecided i = run-IsMute s _ ops _ i (
    if-cases {A = Option Amd} (λ o. IsMute (count_decided a.out) (or_same a o)) a.attached _ _
      (λ _. (there, undecided, refl, refl, refl, refl, count-log_other a.out no_speech refl))
      (λ gone. cc))
