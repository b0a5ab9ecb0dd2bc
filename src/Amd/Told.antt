-- ===== src/Amd/Told.antt =====
-- The runs of the detection of lib/utils/amd-utils.js.
use jambonz_feature_server.Prelude.{
  ℕ, suc, ◌+◌, ◌≡◌, ◌⊎◌, refl, sym, ap, ◌∙◌, Bool, true, false, Option, none, some, List, [], ◌∷◌,
  ◌++◌, is_some, if◌then◌else◌, if-cases, inl, inr, arith,
}
use jambonz_feature_server.Amd.{
  Decision, no_speech_detected, human_detected, machine_detected, decision_timeout, Event, decided,
  machine_stopped_speaking, tone_detected, stopped, no_speech, Settings, Transcript, Amd, log,
  stop_all_timers, stop_amd, on_decision, decide, on_decision_timeout, on_no_speech_timeout,
  on_tone_timeout, on_greeting_completion_timeout, on_transcription, on_no_speech_detected, on_beep,
}

pub data Op : Type 0 where
  decision_timer no_speech_timer tone_timer greeting_timer vendor_no_speech beep stopping : Op
  transcription : Option Transcript → Op

abbrev pub or_same : Amd → Option Amd → Amd
or_same a none = a
or_same a (some b) = b

-- One event; a timer fires only while it is armed.
unfoldable pub step : Settings → Op → Amd → Amd
step s decision_timer a = if a.decision_timer then on_decision_timeout a else a
step s no_speech_timer a = if a.no_speech_timer then on_no_speech_timeout a else a
step s tone_timer a = if a.tone_timer then on_tone_timeout a else a
step s greeting_timer a =
    if is_some a.greeting_completion_timer then on_greeting_completion_timeout a else a
step s vendor_no_speech a = or_same a (on_no_speech_detected a)
step s beep a = on_beep a
step s stopping a = stop_amd a
step s (transcription t) a = on_transcription s t a

unfoldable pub run : Settings → List Op → Amd → Amd
unfolding step
run s [] a = a
run s (op ∷ ops) a = run s ops (step s op a)

unfoldable pub count_decided : List Event → ℕ
count_decided [] = 0
count_decided (decided d ∷ es) = suc (count_decided es)
count_decided (_ ∷ es) = count_decided es

-- How many decisions there are.
abbrev pub made : Option Decision → ℕ
made none = 0
made (some d) = 1

-- Each decision was emitted once, and no timer that decides is armed after one.
unfoldable pub IsTold : Amd → Type 0
unfolding count_decided
IsTold a =
    count_decided a.out ≡ made a.decision
    × ((a.decision ≡ none) ⊎ (a.decision_timer ≡ false × a.no_speech_timer ≡ false))

pub count-log :
    (es : List Event) (e : Event)
    → count_decided (es ++ e ∷ []) ≡ count_decided es + count_decided (e ∷ [])
unfolding count_decided
count-log [] e = omega arith
count-log (decided d ∷ es) e = omega (arith, count-log es e)
count-log (machine_stopped_speaking ∷ es) e = count-log es e
count-log (tone_detected ∷ es) e = count-log es e
count-log (stopped ∷ es) e = count-log es e
count-log (no_speech ∷ es) e = count-log es e

pub count-log_other :
    (es : List Event) (e : Event)
    → count_decided (e ∷ []) ≡ 0
    → count_decided (es ++ e ∷ []) ≡ count_decided es
count-log_other es e h = omega (arith, count-log es e)

pub count-log_decided :
    (es : List Event) (d : Decision) → count_decided (es ++ decided d ∷ []) ≡ suc (count_decided es)
unfolding count_decided
count-log_decided es d = omega (arith, count-log es (decided d))

-- What neither a stop nor its parts change, or only lower.
unfoldable pub Keeps : Amd → Amd → Type 0
Keeps a b =
    b.decision ≡ a.decision
    × count_decided b.out ≡ count_decided a.out
    × (a.decision_timer ≡ false → b.decision_timer ≡ false)
    × (a.no_speech_timer ≡ false → b.no_speech_timer ≡ false)

pub stop_amd-Keeps : (a : Amd) → Keeps a (stop_amd a)
unfolding stop_amd Keeps count_decided
stop_amd-Keeps a = if-cases (Keeps a) a.connected _ _ (λ _. logged b cleared) (λ _. cleared)
  where
    b : Amd
    b = if a.attached then record (stop_all_timers a) { attached = false } else a

    cleared : Keeps a (if a.attached then record (stop_all_timers a) { attached = false } else a)
    cleared =
        if-cases (Keeps a) a.attached _ _ (λ _. (refl, refl, λ _. refl, λ _. refl))
          (λ _. (refl, refl, λ h. h, λ h. h))

    logged : (b : Amd) → Keeps a b → Keeps a (log stopped b)
    logged b (d, c, t, n) = (d, count-log_other b.out stopped refl ∙ c, t, n)

-- An event of a decision, and what follows it.
unfoldable pub Decides : Decision → Amd → Amd → Type 0
Decides d a b =
    b.decision ≡ some d
    × count_decided b.out ≡ suc (count_decided a.out)
    × (a.decision_timer ≡ false → b.decision_timer ≡ false)
    × (a.no_speech_timer ≡ false → b.no_speech_timer ≡ false)

pub decide_stopped :
    (d : Decision) (a : Amd)
    → Decides d a (stop_amd (log (decided d) (record a { decision = some d })))
unfolding Decides Keeps
decide_stopped d a =
    let told : Amd = log (decided d) (record a { decision = some d }) in
    let (e, c, t, n) = stop_amd-Keeps told in (e, c ∙ count-log_decided a.out d, t, n)

pub decide-Decides : (d : Decision) (a : Amd) → Decides d a (decide d a)
unfolding on_decision Decides
decide-Decides machine_detected a = machine
  where
    machine :
        Decides machine_detected a
          (log (decided machine_detected) (record a { decision = some machine_detected }))
    machine = (refl, count-log_decided a.out machine_detected, λ h. h, λ h. h)
decide-Decides no_speech_detected a = decide_stopped no_speech_detected a
decide-Decides human_detected a = decide_stopped human_detected a
decide-Decides decision_timeout a = decide_stopped decision_timeout a

pub Keeps-IsTold : (a b : Amd) → Keeps a b → IsTold a → IsTold b
unfolding Keeps IsTold
Keeps-IsTold a b (e, c, t, n) (h, k) = (c ∙ h ∙ ap made (sym e), later k)
  where
    later :
        (a.decision ≡ none) ⊎ (a.decision_timer ≡ false × a.no_speech_timer ≡ false)
        → (b.decision ≡ none) ⊎ (b.decision_timer ≡ false × b.no_speech_timer ≡ false)
    later (inl undecided) = inl (e ∙ undecided)
    later (inr (d, s)) = inr (t d, n s)

pub stop_amd-IsTold : (a : Amd) → IsTold a → IsTold (stop_amd a)
stop_amd-IsTold a h = Keeps-IsTold a (stop_amd a) (stop_amd-Keeps a) h

-- While a timer that decides is armed, there is no decision.
pub open_of_timer : (a : Amd) → IsTold a → a.decision_timer ≡ true → a.decision ≡ none
unfolding IsTold
open_of_timer a (h, inl undecided) on = undecided
open_of_timer a (h, inr (d, s)) on = cc

pub open_of_no_speech : (a : Amd) → IsTold a → a.no_speech_timer ≡ true → a.decision ≡ none
unfolding IsTold
open_of_no_speech a (h, inl undecided) on = undecided
open_of_no_speech a (h, inr (d, s)) on = cc

pub count_open : (a : Amd) → IsTold a → a.decision ≡ none → count_decided a.out ≡ 0
unfolding IsTold
count_open a (h, k) undecided = h ∙ ap made undecided

-- After a decision where there was none, with both timers off.
pub IsTold-Decides :
    (d : Decision) (a b : Amd) (t n : Bool)
    → Decides d a b
    → count_decided a.out ≡ 0
    → t ≡ false
    → n ≡ false
    → IsTold (record b { decision_timer = t; no_speech_timer = n })
unfolding Decides IsTold
IsTold-Decides d a b t n (e, c, p, q) zero_told off silent =
    (c ∙ ap suc zero_told ∙ ap made (sym e), inr (off, silent))
