-- ===== src/Gather/Holding.antt =====
-- What a gather of lib/tasks/gather.js holds while keys are pressed.
use jambonz_feature_server.Prelude.{
  ℕ, ◌≡◌, refl, sym, ap, ◌∙◌, Bool, true, false, not, ◌&&◌, ◌||◌, some, List, [], ◌∷◌, ◌++◌, ◌==◌,
  ltb, length, append-nil, append_assoc, if◌then◌else◌, Units, if-cases,
}
use jambonz_feature_server.Gather.{
  Settings, Gather, Event, Result, digits, keyed, told, dtmf, bargein_detected, dtmf_num_digits,
  performed, killed_audio, stopped_transcribing, log, at_least, start_timer, kill_audio,
  stop_transcribing, resolve, report, quieten,
}
use jambonz_feature_server.Gather.Events.{is_none, barge, await_digit, prefer_digits}

pub clash : {b : Bool} → b ≡ true → b ≡ false → ⊥
clash t f = cc

-- The results that the action hook was given, oldest first.
abbrev pub result_in : Event → List Result
result_in (performed r) = r ∷ []
result_in _ = []

unfoldable pub results_in : List Event → List Result
results_in [] = []
results_in (e ∷ es) = result_in e ++ results_in es

pub results_in-append :
    (e : Event) (es : List Event) → results_in (es ++ e ∷ []) ≡ results_in es ++ result_in e
unfolding results_in
results_in-append e [] = append-nil (result_in e)
results_in-append e (x ∷ es) =
    ap (λ r. result_in x ++ r) (results_in-append e es)
    ∙ sym (append_assoc (result_in x) (results_in es) (result_in e))

-- The gather hears keys, with these digits held and these results given to the action hook.
abbrev pub Holds : Bool → Units → List Result → Gather → Type 0
Holds done held rs g =
    (g.hears_dtmf ≡ true)
    × (g.resolved ≡ done)
    × (g.call_gone ≡ false)
    × (g.digit_buffer ≡ held)
    × (results_in g.out ≡ rs)

module _ (done : Bool) (held : Units) (rs : List Result) where
  pub log-Holds :
      (e : Event) (g : Gather)
      → result_in e ≡ []
      → Holds done held rs g
      → Holds done held rs (log e g)
  log-Holds e g q (h, r, c, b, o) = (
    h,
    r,
    c,
    b,
    results_in-append e g.out
        ∙ ap (λ s. results_in g.out ++ s) q
        ∙ append-nil (results_in g.out)
        ∙ o,
  )

  pub start_timer-Holds :
      (o : Settings) (g : Gather) → Holds done held rs g → Holds done held rs (start_timer o g)
  unfolding start_timer
  start_timer-Holds o g h = if-cases (Holds done held rs) (o.timeout == 0) _ _ (λ _. h) (λ _. h)

  pub kill_audio-Holds :
      (o : Settings) (g : Gather) → Holds done held rs g → Holds done held rs (kill_audio o g)
  unfolding kill_audio
  kill_audio-Holds o g h =
      if-cases (Holds done held rs) (not g.say_task && not g.play_task && o.bargein) _ _
        (λ _.
          if-cases (Holds done held rs) (g.ep_connected && not g.play_complete) _ _
            (λ _. log-Holds killed_audio (record g { play_complete = true }) refl h) (λ _. h))
        (λ _.
          if-cases (Holds done held rs) (g.say_task || g.play_task) _ _
            (λ _.
              log-Holds killed_audio
                (record g { say_task = false; play_task = false; play_complete = true }) refl h)
            (λ _. h))

  pub barge-Holds :
      (o : Settings) (d : ℕ) (g : Gather) → Holds done held rs g → Holds done held rs (barge o d g)
  barge-Holds o d g h =
      let heard : Gather = if g.play_complete then g else log bargein_detected g in
      let kept : Holds done held rs heard =
        if-cases (Holds done held rs) g.play_complete _ _ (λ _. h)
          (λ _. log-Holds bargein_detected g refl h) in
      if-cases (Holds done held rs) o.dtmf_bargein _ _
        (λ _. log-Holds (dtmf d) (kill_audio o heard) refl (kill_audio-Holds o heard kept)) (λ _. h)

  pub prefer_digits-Holds :
      (o : Settings) (g : Gather) → Holds done held rs g → Holds done held rs (prefer_digits o g)
  prefer_digits-Holds o g h =
      if-cases (Holds done held rs) (is_none g.digit_buffer && o.needs_stt) _ _
        (λ _.
          log-Holds stopped_transcribing (record g { hears_speech = false; asr_timer = false }) refl
            h)
        (λ _. h)

  pub await_digit-Holds :
      (o : Settings) (g : Gather) → Holds done held rs g → Holds done held rs (await_digit o g)
  unfolding await_digit
  await_digit-Holds o g h =
      if-cases (Holds done held rs)
        (ltb 0 o.inter_digit_timeout && at_least (length g.digit_buffer) o.min_digits) _ _ (λ _. h)
        (λ _. h)

-- What a full buffer leads to.
module _ (o : Settings) (alone : o.has_parent ≡ false) (held : Units) (rs : List Result) where
  performed-digits :
      (g : Gather)
      → results_in g.out ≡ rs
      → results_in (log (performed (digits held)) g).out ≡ rs ++ digits held ∷ []
  performed-digits g e =
      results_in-append (performed (digits held)) g.out ∙ ap (λ s. s ++ digits held ∷ []) e

  report-digits :
      (g : Gather)
      → g.call_gone ≡ false
      → results_in g.out ≡ rs
      → results_in (report o (some (digits held)) g).out ≡ rs ++ digits held ∷ []
  unfolding report
  report-digits g c e =
      let once : Gather = log (told keyed) g in
      rw (c, alone)
        (performed-digits once
          (results_in-append (told keyed) g.out ∙ append-nil (results_in g.out) ∙ e))

module _ (o : Settings) (alone : o.has_parent ≡ false) (held : Units) (rs : List Result) where
  pub resolve-digits :
      (g : Gather)
      → Holds false held rs g
      → results_in (resolve o dtmf_num_digits [] g).out ≡ rs ++ digits held ∷ []
  unfolding resolve
  resolve-digits g h =
      let stopped : Gather = if o.needs_stt && g.ep_connected then stop_transcribing g else g in
      let kept : Holds false held rs stopped =
        if-cases (Holds false held rs) (o.needs_stt && g.ep_connected) _ _
          (λ _. log-Holds false held rs stopped_transcribing g refl h) (λ _. h) in
      let calm : Gather = record stopped { resolved = true; hears_speech = false } in
      let quiet = kill_audio-Holds true held rs o calm (kept.0, refl, kept.2, kept.3, kept.4) in
      if-cases (λ (k : Gather). results_in k.out ≡ rs ++ digits held ∷ []) g.resolved stopped
        (report o (some (digits g.digit_buffer)) (quieten o stopped)) (λ d. absurd (clash d h.1))
        (λ _.
          report-digits o alone g.digit_buffer rs (quieten o stopped) quiet.2 quiet.4
          ∙ ap (λ b. rs ++ digits b ∷ []) h.3)
