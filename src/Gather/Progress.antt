-- ===== src/Gather/Progress.antt =====
-- How often a gather of lib/tasks/gather.js reports, and that it has a timer while it does not.
use jambonz_feature_server.Prelude.{
  ◌+◌, ◌≤◌, ◌≡◌, refl, ◌∙◌, Bool, true, false, not, ◌&&◌, ◌||◌, Option, none, some, List, [], ◌∷◌,
  ◌++◌, ◌==◌, if◌then◌else◌, Units, arith, if-cases,
}
use jambonz_feature_server.Gather.{
  Settings, Gather, Event, told, Result, Reason, killed, task_done, performed, killed_audio,
  stopped_transcribing, log, start_timer, kill_audio, result_of, quieten, emission_of,
  stop_transcribing, report, resolve, kill,
}
use jambonz_feature_server.Gather.Runs.{told_one, count_told}

-- Results were emitted at most once, and not before the gather was resolved.
abbrev pub IsOnce : Gather → Type 0
IsOnce g = count_told g.out ≤ (if g.resolved then 1 else 0)

-- The timer of the gather, or the one between two digits, runs until it is resolved.
abbrev pub is_timed : Bool → Bool → Bool → Bool → Bool
is_timed resolved set runs inter = resolved || ((if set then runs else not runs) && (runs || inter))

abbrev pub is_awaited : Gather → Bool
is_awaited g = is_timed g.resolved g.timeout_timer g.timeout_runs g.inter_digit_timer

-- Where `w` holds the gather is timed too.
abbrev pub IsGoing : Bool → Gather → Type 0
IsGoing w g = IsOnce g × (w ≡ true → is_awaited g ≡ true)

count_told-append :
    (e : Event) (es : List Event) → count_told (es ++ e ∷ []) ≡ count_told es + told_one e
unfolding count_told
count_told-append e [] = omega arith
count_told-append e (x ∷ es) = omega (arith, count_told-append e es)

-- What both depend on.
abbrev pub SameProgress : Gather → Gather → Type 0
SameProgress g h =
    (count_told h.out ≡ count_told g.out)
    × (h.resolved ≡ g.resolved)
    × (h.timeout_timer ≡ g.timeout_timer)
    × (h.timeout_runs ≡ g.timeout_runs)
    × (h.inter_digit_timer ≡ g.inter_digit_timer)

pub SameProgress-IsOnce : (g h : Gather) → SameProgress g h → IsOnce g → IsOnce h
SameProgress-IsOnce g h (t, r, _, _, _) i = rw (t, r) i

pub SameProgress-IsGoing : (w : Bool) (g h : Gather) → SameProgress g h → IsGoing w g → IsGoing w h
SameProgress-IsGoing w g h s (once, awaited) =
    (SameProgress-IsOnce g h s once, λ t. rw (s.1, s.2, s.3, s.4) (awaited t))

pub log-SameProgress : (e : Event) (g : Gather) → told_one e ≡ 0 → SameProgress g (log e g)
log-SameProgress e g q = (omega (arith, count_told-append e g.out), refl, refl, refl, refl)

pub kill_audio-SameProgress : (o : Settings) (g : Gather) → SameProgress g (kill_audio o g)
unfolding kill_audio
kill_audio-SameProgress o g =
    let quiet : Gather = record g { say_task = false; play_task = false; play_complete = true } in
    if-cases (SameProgress g) (not g.say_task && not g.play_task && o.bargein) _ _
      (λ _.
        if-cases (SameProgress g) (g.ep_connected && not g.play_complete) _ _
          (λ _. log-SameProgress killed_audio (record g { play_complete = true }) refl)
          (λ _. (refl, refl, refl, refl, refl)))
      (λ _.
        if-cases (SameProgress g) (g.say_task || g.play_task) _ _
          (λ _. log-SameProgress killed_audio quiet refl) (λ _. (refl, refl, refl, refl, refl)))

abbrev Ended : Gather → Type 0
Ended g = (count_told g.out ≤ 1) × (g.resolved ≡ true)

report-Ended :
    (o : Settings) (r : Option Result) (g : Gather)
    → g.resolved ≡ true
    → count_told g.out ≡ 0
    → Ended (report o r g)
unfolding report
report-Ended o none g d n = (omega (arith, count_told-append task_done g.out), d)
report-Ended o (some r) g d n =
    let once : Gather = log (told (emission_of r)) g in
    let one : count_told once.out ≡ 1 =
      omega (arith, count_told-append (told (emission_of r)) g.out, n) in
    if-cases Ended g.call_gone _ _ (λ _. (omega (arith, count_told-append task_done g.out, n), d))
      (λ _.
        if-cases Ended o.has_parent _ _
          (λ _. (omega (arith, count_told-append task_done once.out, one), d))
          (λ _. (omega (arith, count_told-append (performed r) once.out, one), d)))

Ended-IsGoing : (w : Bool) (g : Gather) → Ended g → IsGoing w g
Ended-IsGoing w g (n, d) = (rw d n, λ t. rw d)

-- Whatever timer has just fired.
pub resolve-IsGoing :
    (w : Bool) (o : Settings) (r : Reason) (text : Units) (g : Gather)
    → IsOnce g
    → IsGoing w (resolve o r text g)
unfolding resolve
resolve-IsGoing w o r text g h =
    let stopped : Gather = if o.needs_stt && g.ep_connected then stop_transcribing g else g in
    let same : SameProgress g stopped =
      if-cases (SameProgress g) (o.needs_stt && g.ep_connected) _ _
        (λ _. log-SameProgress stopped_transcribing g refl) (λ _. (refl, refl, refl, refl, refl)) in
    let calm : Gather = record stopped { resolved = true; hears_speech = false } in
    let kept = kill_audio-SameProgress o calm in
    if-cases (IsGoing w) g.resolved _ _
      (λ d. (SameProgress-IsOnce g stopped same h, λ t. rw (same.1 ∙ d)))
      (λ n. Ended-IsGoing w (report o (result_of r text g) (quieten o stopped)) (
        report-Ended o (result_of r text g) (quieten o stopped) kept.1
          (kept.0 ∙ same.0 ∙ none_yet n)))
  where
    none_yet : g.resolved ≡ false → count_told g.out ≡ 0
    none_yet n = ground (arith, n)

pub SameProgress-trans : (g h k : Gather) → SameProgress g h → SameProgress h k → SameProgress g k
SameProgress-trans g h k (a, b, c, d, e) (a', b', c', d', e') =
    (a' ∙ a, b' ∙ b, c' ∙ c, d' ∙ d, e' ∙ e)

pub kill-IsGoing : (w : Bool) (o : Settings) (g : Gather) → IsOnce g → IsGoing w (kill o g)
unfolding kill
kill-IsGoing w o g h =
    let dying : Gather = record g { is_killed = true } in
    let quiet : Gather = kill_audio o dying in
    resolve-IsGoing w o killed []
      (record quiet { hears_dtmf = false; inter_digit_timer = false; asr_timer = false })
      (SameProgress-IsOnce dying quiet (kill_audio-SameProgress o dying) h)

-- `w` only where the recognition is not continuous and there is a time-out.
module _ (w : Bool) (o : Settings)
    (timed : w ≡ true → (o.is_continuous_asr ≡ false) × ((o.timeout == 0) ≡ false)) where
  pub start_timer-IsGoing : (g : Gather) → IsOnce g → IsGoing w (start_timer o g)
  unfolding start_timer
  start_timer-IsGoing g h =
      if-cases (IsGoing w) (o.timeout == 0) _ _ (λ z. (h, λ t. let set = (timed t).1 in cc))
        (λ _. (h, λ t. ground arith))

  pub never_continuous : o.is_continuous_asr ≡ true → w ≡ true → ⊥
  never_continuous c t = let never = (timed t).0 in cc
