-- ===== src/Gather/Keys.antt =====
-- The keys that a gather of lib/tasks/gather.js reports.
use jambonz_feature_server.Prelude.{
  ℕ, ◌+◌, ◌≡◌, ap, ◌∙◌, Bool, true, false, not, ◌&&◌, ◌||◌, none, some, List, [], ◌∷◌, ◌++◌, ◌==◌,
  ltb, length, map, all, all-cons, append_assoc, length-append, if◌then◌else◌, Units, ◌<◌, arith,
  if-cases, and-true,
}
use jambonz_feature_server.Gather.{
  Settings, Gather, Result, digits, dtmf_num_digits, equals, clear_timer, start_timer, resolve,
}
use jambonz_feature_server.Gather.Events.{
  is_none, barge, await_digit, prefer_digits, add_digit, take_digit, on_dtmf,
}
use jambonz_feature_server.Gather.Runs.{step, run, presses}
use jambonz_feature_server.Gather.Holding.{
  clash, results_in, Holds, start_timer-Holds, barge-Holds, prefer_digits-Holds, await_digit-Holds,
  resolve-digits,
}

-- One key, of a gather without a terminator that it could be.
module _ (o : Settings) (d : ℕ) (wants : o.wants_digits ≡ true)
    (single : o.is_continuous_asr ≡ false) (no_finish : equals d o.finish_on_key ≡ false)
    (held : Units) (rs : List Result) where
  take_digit-adds : (P : Gather → Type 0) (k : Gather) → P (add_digit o d k) → P (take_digit o d k)
  unfolding take_digit
  take_digit-adds P k p =
      if-cases P (equals d o.finish_on_key && o.wants_digits) _ _
        (λ t.
          let other = (and-true (equals d o.finish_on_key) o.wants_digits t).0 in
          absurd (clash other no_finish))
        (λ _. if-cases P o.wants_digits _ _ (λ _. p) (λ n. absurd (clash wants n)))

  -- Whatever adding the digit leads to, the key leads to.
  presses-adds :
      (P : Gather → Type 0)
      → ((k : Gather) → Holds false held rs k → P (add_digit o d k))
      → (g : Gather) → Holds false held rs g
      → P (step o (presses d) g)
  unfolding step on_dtmf
  presses-adds P p g h =
      let timed : Gather = if not g.timeout_timer && ltb 0 o.timeout then start_timer o g else g in
      let t : Holds false held rs timed =
        if-cases (Holds false held rs) (not g.timeout_timer && ltb 0 o.timeout) _ _
          (λ _. start_timer-Holds false held rs o g h) (λ _. h) in
      let quiet : Gather = record timed { inter_digit_timer = false } in
      let barged : Gather = barge o d quiet in
      let kept : Holds false held rs barged = barge-Holds false held rs o d quiet t in
      if-cases P g.hears_dtmf (on_dtmf o d g) g
        (λ _.
          if-cases P
            (o.is_continuous_asr
              && equals d o.asr_dtmf_termination_digit
              && not (is_none g.buffered_transcripts))
            (record (clear_timer barged) { asr_timer = false; final_asr_timer = true })
            (take_digit o d barged) (λ c. absurd (clash (continuous c) single))
            (λ _. take_digit-adds P barged (p barged kept)))
        (λ n. absurd (clash h.0 n))
    where
      continuous :
          (o.is_continuous_asr
              && equals d o.asr_dtmf_termination_digit
              && not (is_none g.buffered_transcripts))
            ≡ true
          → o.is_continuous_asr ≡ true
      continuous c =
          (and-true o.is_continuous_asr (equals d o.asr_dtmf_termination_digit)
            (and-true (o.is_continuous_asr && equals d o.asr_dtmf_termination_digit)
              (not (is_none g.buffered_transcripts)) c).0).0

  abbrev fills : Units → Bool
  fills held = equals (length held) o.num_digits || equals (length held) o.max_digits

  add_digit-Holds :
      fills (held ++ d ∷ []) ≡ false
      → (k : Gather) → Holds false held rs k
      → Holds false (held ++ d ∷ []) rs (add_digit o d k)
  unfolding add_digit
  add_digit-Holds more k h =
      let first : Gather = prefer_digits o k in
      let f : Holds false held rs first = prefer_digits-Holds false held rs o k h in
      let added : Gather = record first { digit_buffer = k.digit_buffer ++ d ∷ [] } in
      let a : Holds false (held ++ d ∷ []) rs added =
        (f.0, f.1, f.2, ap (λ b. b ++ d ∷ []) h.3, f.4) in
      if-cases (Holds false (held ++ d ∷ []) rs) (fills added.digit_buffer)
        (resolve o dtmf_num_digits [] added) (await_digit o added)
        (λ t. absurd (clash t (ap fills a.3 ∙ more)))
        (λ _. await_digit-Holds false (held ++ d ∷ []) rs o added a)

  add_digit-told :
      o.has_parent ≡ false
      → fills (held ++ d ∷ []) ≡ true
      → (k : Gather) → Holds false held rs k
      → results_in (add_digit o d k).out ≡ rs ++ digits (held ++ d ∷ []) ∷ []
  unfolding add_digit
  add_digit-told alone full k h =
      let first : Gather = prefer_digits o k in
      let f : Holds false held rs first = prefer_digits-Holds false held rs o k h in
      let added : Gather = record first { digit_buffer = k.digit_buffer ++ d ∷ [] } in
      let a : Holds false (held ++ d ∷ []) rs added =
        (f.0, f.1, f.2, ap (λ b. b ++ d ∷ []) h.3, f.4) in
      if-cases (λ (g : Gather). results_in g.out ≡ rs ++ digits (held ++ d ∷ []) ∷ [])
        (fills added.digit_buffer) (resolve o dtmf_num_digits [] added) (await_digit o added)
        (λ _. resolve-digits o alone (held ++ d ∷ []) rs added a)
        (λ n. absurd (clash (ap fills a.3 ∙ full) n))

not_finish :
    (o : Settings) (d : ℕ)
    → not (equals d o.finish_on_key) ≡ true
    → equals d o.finish_on_key ≡ false
not_finish o d h = ground arith

module _ (o : Settings) (n : ℕ) (wants : o.wants_digits ≡ true)
    (single : o.is_continuous_asr ≡ false) (num : o.num_digits ≡ some n) (max : o.max_digits ≡ none)
    (alone : o.has_parent ≡ false) where
  fills_at :
      (d : ℕ) (held : Units) (b : Bool)
      → (length held + 1 == n) ≡ b
      → (equals (length (held ++ d ∷ [])) o.num_digits
          || equals (length (held ++ d ∷ [])) o.max_digits)
        ≡ b
  fills_at d held b e = rw (num, max) (rw (length-append held (d ∷ [])) (ground (arith, e)))

  -- Take a gather without a parent task that wants `numDigits` digits, without a maximum or
  -- continuous recognition, that hears keys, is not resolved, holds fewer digits, and whose call is
  -- not gone. Where the keys pressed, none of them the finish key, are as many as are missing, the
  -- results given to the action hook are those before and one more, with the digits held before and
  -- the keys, in order.
  pub keys_reported :
      (ks held : Units) (rs : List Result) (g : Gather)
      → all (λ d. not (equals d o.finish_on_key)) ks ≡ true
      → length held + length ks ≡ n
      → length held < n
      → Holds false held rs g
      → results_in (run o (map presses ks) g).out ≡ rs ++ digits (held ++ ks) ∷ []
  unfolding run
  keys_reported [] held rs g f l lt h = absurd (omega arith)
  keys_reported (d ∷ []) held rs g f l lt h =
      let other = not_finish o d (all-cons (λ d. not (equals d o.finish_on_key)) d [] f).0 in
      presses-adds o d wants single other held rs
        (λ (k : Gather). results_in k.out ≡ rs ++ digits (held ++ d ∷ []) ∷ [])
        (add_digit-told o d wants single other held rs alone (fills_at d held true (ground arith)))
        g h
  keys_reported (d ∷ e ∷ ks) held rs g f l lt h =
      let (first, rest) = all-cons (λ d. not (equals d o.finish_on_key)) d (e ∷ ks) f in
      let other = not_finish o d first in
      let next : Holds false (held ++ d ∷ []) rs (step o (presses d) g) =
        presses-adds o d wants single other held rs (Holds false (held ++ d ∷ []) rs)
          (add_digit-Holds o d wants single other held rs (fills_at d held false (ground arith))) g
          h in
      keys_reported (e ∷ ks) (held ++ d ∷ []) rs (step o (presses d) g) rest
        (omega (arith, length-append held (d ∷ []))) (omega (arith, length-append held (d ∷ [])))
        next
      ∙ ap (λ b. rs ++ digits b ∷ []) (append_assoc held (d ∷ []) (e ∷ ks))
