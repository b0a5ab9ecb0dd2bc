-- ===== src/Amd/Decisions.antt =====
-- The decisions of a run of lib/utils/amd-utils.js.
use mathlib.Core.Path.{subst}
use jambonz_feature_server.Prelude.{
  ◌≡◌, refl, sym, ap, ◌∙◌, Bool, true, false, Option, none, some, List, [], ◌∷◌, is_some, if-cases,
  inl, inr, arith,
}
use jambonz_feature_server.Amd.{
  Decision, no_speech_detected, human_detected, machine_detected, decision_timeout, Event,
  machine_stopped_speaking, tone_detected, no_speech, Settings, Transcript, Amd, start_amd, log,
  stop_all_timers, decide, on_decision_timeout, on_no_speech_timeout, on_tone_timeout,
  on_greeting_completion_timeout, start_greeting_completion_timer, classify, after_decision,
  conclude, evaluate_first, evaluate_transcription, on_transcription, on_no_speech_detected,
  on_beep,
}
use jambonz_feature_server.Amd.Told.{
  Op, decision_timer, no_speech_timer, tone_timer, greeting_timer, vendor_no_speech, beep, stopping,
  transcription, or_same, step, run, count_decided, made, IsTold, count-log_other, Decides,
  decide-Decides, stop_amd-IsTold, open_of_timer, open_of_no_speech, count_open, IsTold-Decides,
}

on_decision_timeout-IsTold :
    (a : Amd) → IsTold a → a.decision ≡ none → IsTold (on_decision_timeout a)
unfolding on_decision_timeout Decides
on_decision_timeout-IsTold a h undecided =
    let b : Amd = record a { decision_timer = false } in
    let made_one = decide-Decides decision_timeout b in
    IsTold-Decides decision_timeout b (decide decision_timeout b) _ false made_one
      (count_open a h undecided) (made_one.2 refl) refl

on_no_speech_timeout-IsTold :
    (a : Amd) → IsTold a → a.decision ≡ none → IsTold (on_no_speech_timeout a)
unfolding on_no_speech_timeout Decides
on_no_speech_timeout-IsTold a h undecided =
    let b : Amd = record a { no_speech_timer = false } in
    let made_one = decide-Decides no_speech_detected b in
    IsTold-Decides no_speech_detected b (decide no_speech_detected b) false _ made_one
      (count_open a h undecided) refl (made_one.3 refl)

after_decision-IsTold :
    (s : Settings) (d e : Decision) (a b : Amd)
    → Decides d a b
    → count_decided a.out ≡ 0
    → a.no_speech_timer ≡ false
    → IsTold (after_decision s e b)
unfolding Decides IsTold
after_decision-IsTold s d no_speech_detected a b h z n =
    IsTold-Decides d a b false _ h z refl (h.3 n)
after_decision-IsTold s d human_detected a b h z n = IsTold-Decides d a b false _ h z refl (h.3 n)
after_decision-IsTold s d machine_detected a b h z n = IsTold-Decides d a b false _ h z refl (h.3 n)
after_decision-IsTold s d decision_timeout a b h z n = IsTold-Decides d a b false _ h z refl (h.3 n)

evaluate_first-IsTold :
    (s : Settings) (t : Option Transcript) (a : Amd)
    → IsTold a
    → a.decision ≡ none
    → IsTold (evaluate_first s t a)
unfolding evaluate_first IsTold
evaluate_first-IsTold s none a h undecided = (h.0, inl undecided)
evaluate_first-IsTold s (some t) a h undecided = go (classify s t)
  where
    b : Amd
    b = record a { no_speech_timer = false }

    go : (o : Option Decision) → IsTold (conclude s o b)
    go none = (h.0, inl undecided)
    go (some d) =
        after_decision-IsTold s d d b (decide d b) (decide-Decides d b) (count_open a h undecided)
          refl

evaluate_transcription-IsTold :
    (s : Settings) (t : Option Transcript) (a : Amd)
    → IsTold a
    → IsTold (evaluate_transcription s t a)
unfolding evaluate_transcription IsTold
evaluate_transcription-IsTold s t a h = go a.decision refl
  where
    go :
        (o : Option Decision)
        → a.decision ≡ o
        → IsTold (elim o [
          | none ↦ evaluate_first s t a
          | some machine_detected ↦ start_greeting_completion_timer s a
          | some _ ↦ a
        ])
    go none e = evaluate_first-IsTold s t a h e
    go (some machine_detected) e = h
    go (some human_detected) e = h
    go (some no_speech_detected) e = h
    go (some decision_timeout) e = h

log-IsTold : (e : Event) (a : Amd) → count_decided (e ∷ []) ≡ 0 → IsTold a → IsTold (log e a)
unfolding IsTold
log-IsTold e a quiet (h, k) = (count-log_other a.out e quiet ∙ h, k)

silenced-IsTold : (a : Amd) → IsTold a → IsTold (stop_all_timers a)
unfolding IsTold
silenced-IsTold a (h, k) = (h, inr (refl, refl))

step-IsTold : (s : Settings) (op : Op) (a : Amd) → IsTold a → IsTold (step s op a)
unfolding step on_transcription on_no_speech_detected on_beep on_tone_timeout
    on_greeting_completion_timeout count_decided IsTold
step-IsTold s decision_timer a h =
    if-cases IsTold a.decision_timer _ _
      (λ on. on_decision_timeout-IsTold a h (open_of_timer a h on)) (λ _. h)
step-IsTold s no_speech_timer a h =
    if-cases IsTold a.no_speech_timer _ _
      (λ on. on_no_speech_timeout-IsTold a h (open_of_no_speech a h on)) (λ _. h)
step-IsTold s tone_timer a h =
    if-cases IsTold a.tone_timer _ _ (λ _. stop_amd-IsTold (record a { tone_timer = false }) h)
      (λ _. h)
step-IsTold s greeting_timer a h =
    if-cases IsTold (is_some a.greeting_completion_timer) _ _
      (λ _.
        stop_amd-IsTold
          (log machine_stopped_speaking (record a { greeting_completion_timer = none }))
          (log-IsTold machine_stopped_speaking (record a { greeting_completion_timer = none }) refl
            h))
      (λ _. h)
step-IsTold s vendor_no_speech a h =
    if-cases {A = Option Amd} (λ o. IsTold (or_same a o)) a.attached _ _
      (λ _. log-IsTold no_speech (stop_all_timers a) refl (silenced-IsTold a h)) (λ _. h)
step-IsTold s beep a h =
    if-cases IsTold a.attached _ _ (λ _. log-IsTold tone_detected a refl h)
      (λ _. log-IsTold tone_detected a refl h)
step-IsTold s stopping a h = stop_amd-IsTold a h
step-IsTold s (transcription t) a h =
    if-cases IsTold a.attached _ _ (λ _. evaluate_transcription-IsTold s t a h) (λ _. h)

run-IsTold : (s : Settings) (ops : List Op) (a : Amd) → IsTold a → IsTold (run s ops a)
unfolding run
run-IsTold s [] a h = h
run-IsTold s (op ∷ ops) a h = run-IsTold s ops (step s op a) (step-IsTold s op a h)

-- From the start of a detection, after any list of armed timers that fire, transcriptions, beeps,
-- reports of no speech and stops, one decision was emitted if there is a decision and none if there
-- is none.
pub run_decides_once :
    (s : Settings) (connected : Bool) (ops : List Op)
    → let a = run s ops (start_amd connected) in count_decided a.out ≡ made a.decision
unfolding IsTold start_amd
run_decides_once s connected ops = (run-IsTold s ops (start_amd connected) (refl, inl refl)).0

classify_final : (s : Settings) (t : Transcript) → t.is_final ≡ true → is_some (classify s t) ≡ true
unfolding classify
classify_final s t h = ground arith

on_transcription-first :
    (s : Settings) (t : Option Transcript) (a : Amd)
    → a.attached ≡ true
    → a.decision ≡ none
    → on_transcription s t a ≡ evaluate_first s t a
unfolding on_transcription evaluate_transcription
on_transcription-first s t a there undecided = ground arith

-- There is a decision, and neither timer that decides is armed.
unfoldable pub IsDecided : Amd → Type 0
IsDecided a = is_some a.decision ≡ true × a.decision_timer ≡ false × a.no_speech_timer ≡ false

after_decision-IsDecided :
    (s : Settings) (d e : Decision) (a b : Amd)
    → Decides d a b
    → a.no_speech_timer ≡ false
    → IsDecided (after_decision s e b)
unfolding Decides IsDecided
after_decision-IsDecided s d no_speech_detected a b h n = (ap is_some h.0, refl, h.3 n)
after_decision-IsDecided s d human_detected a b h n = (ap is_some h.0, refl, h.3 n)
after_decision-IsDecided s d machine_detected a b h n = (ap is_some h.0, refl, h.3 n)
after_decision-IsDecided s d decision_timeout a b h n = (ap is_some h.0, refl, h.3 n)

conclude-IsDecided :
    (s : Settings) (o : Option Decision) (a : Amd)
    → is_some o ≡ true
    → a.no_speech_timer ≡ false
    → IsDecided (conclude s o a)
conclude-IsDecided s none a h n = cc
conclude-IsDecided s (some d) a h n =
    after_decision-IsDecided s d d a (decide d a) (decide-Decides d a) n

-- A final transcription that reaches a detection with no decision leads to one and leaves the
-- decision timer and the no-speech timer off.
pub final_decides :
    (s : Settings) (t : Transcript) (a : Amd)
    → a.attached ≡ true
    → a.decision ≡ none
    → t.is_final ≡ true
    → IsDecided (on_transcription s (some t) a)
unfolding evaluate_first
final_decides s t a there undecided final =
    subst IsDecided (sym (on_transcription-first s (some t) a there undecided)) (
      conclude-IsDecided s (classify s t) (record a { no_speech_timer = false })
        (classify_final s t final) refl)
