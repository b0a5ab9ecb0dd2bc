-- ===== src/Queues/Dequeue/Waiting.antt =====
-- When a call that dequeues is left waiting, and a member is lost.
use jambonz_feature_server.Prelude.{
  ℕ, Bool, true, false, not, Option, none, some, List, [], ◌∷◌, ◌==◌, ◌≡◌, refl, ◌∙◌, if-cases,
}
use jambonz_feature_server.Queues.Dequeue.{
  State, timeout, bridged, timed_out, Loop, starting, looking, resting, left, getting, over,
  Dequeuer, exec, on_timeout, goes_on, woken, slept, answer, looked, posted, on_bridge_timeout,
  on_ready, part, on_hangup, kill,
}
use jambonz_feature_server.Queues.Dequeue.Runs.{
  Op, times_out, sleeps, bridge_times_out, partner_leaves, is_killed, looks, posts, partner_ready,
  step, run,
}

-- The loop does not look and will not, and none of what settles a promise is set.
abbrev pub is_quiet : Loop → Bool
is_quiet resting = true
is_quiet left = true
is_quiet _ = false

-- `exec` does not wait for the partner, the loop is not to look again, and no timer runs nor is a
-- listener there.
abbrev pub IsIdle : Dequeuer → Type 0
IsIdle d =
    (is_quiet d.loop ≡ true)
    × (goes_on d ≡ false)
    × (d.timer ≡ false)
    × (d.hears ≡ false)
    × (d.posting ≡ false)
    × (d.bridge_timer ≡ false)

-- An idle call stays idle, where it is and with what it has.
abbrev pub Stays : Dequeuer → Dequeuer → Type 0
Stays d e =
    IsIdle e
    × (e.phase ≡ d.phase)
    × (e.performed ≡ d.performed)
    × (e.popped ≡ d.popped)
    × (e.told ≡ d.told)

looks_not : {l : Loop} → l ≡ looking → is_quiet l ≡ true → ⊥
looks_not e a = cc

starts_not : {l : Loop} → l ≡ starting → is_quiet l ≡ true → ⊥
starts_not e a = cc

woken-Stays : (l : Loop) (d : Dequeuer) → d.loop ≡ l → IsIdle d → Stays d (woken l d)
woken-Stays starting d e h = absurd (starts_not e h.0)
woken-Stays looking d e h = (h, refl, refl, refl, refl)
woken-Stays resting d e h =
    if-cases (Stays d) (goes_on d) _ _ (λ t. cc)
      (λ _. ((refl, h.1, h.2, h.3, h.4, h.5), refl, refl, refl, refl))
woken-Stays left d e h = (h, refl, refl, refl, refl)

answer-Stays :
    (l : Loop) (r : Option ℕ) (d : Dequeuer) → d.loop ≡ l → IsIdle d → Stays d (answer l r d)
answer-Stays looking (some url) d e h = absurd (looks_not e h.0)
answer-Stays looking none d e h = ((refl, h.1, h.2, h.3, h.4, h.5), refl, refl, refl, refl)
answer-Stays starting r d e h = (h, refl, refl, refl, refl)
answer-Stays resting r d e h = (h, refl, refl, refl, refl)
answer-Stays left r d e h = (h, refl, refl, refl, refl)

part-Stays : (s : State) (u : Option ℕ) (d : Dequeuer) → IsIdle d → Stays d (part s u d)
part-Stays bridged (some url) d h = (h, refl, refl, refl, refl)
part-Stays bridged none d h = (h, refl, refl, refl, refl)
part-Stays timeout u d h = (h, refl, refl, refl, refl)

posted-Stays : (ok : Bool) (d : Dequeuer) → IsIdle d → Stays d (posted ok d)
unfolding posted
posted-Stays ok d h = if-cases (Stays d) d.posting _ _ (λ t. cc) (λ _. (h, refl, refl, refl, refl))

on_hangup-Stays : (d e : Dequeuer) → Stays d e → Stays d (on_hangup e)
unfolding on_hangup
on_hangup-Stays d e h = if-cases (Stays d) e.hears _ _ (λ t. cc) (λ _. h)

step-Stays : (op : Op) (d : Dequeuer) → IsIdle d → Stays d (step op d)
unfolding step on_timeout slept looked on_bridge_timeout on_ready kill
step-Stays times_out d h =
    if-cases (Stays d) d.timer _ _ (λ t. cc) (λ _. (h, refl, refl, refl, refl))
step-Stays sleeps d h = woken-Stays d.loop d refl h
step-Stays bridge_times_out d h =
    if-cases (Stays d) d.bridge_timer _ _ (λ t. cc) (λ _. (h, refl, refl, refl, refl))
step-Stays partner_leaves d h = on_hangup-Stays d d (h, refl, refl, refl, refl)
step-Stays is_killed d h =
    let gone : Dequeuer = record d { killed = true } in
    on_hangup-Stays d (part d.state d.partner_url gone)
      (part-Stays d.state d.partner_url gone (h.0, refl, h.2, h.3, h.4, h.5))
step-Stays (looks r) d h = answer-Stays d.loop r d refl h
step-Stays (posts ok) d h = posted-Stays ok d h
step-Stays (partner_ready url) d h =
    if-cases (Stays d) d.hears _ _ (λ t. cc) (λ _. (h, refl, refl, refl, refl))

run-Stays : (ops : List Op) (d : Dequeuer) → IsIdle d → Stays d (run ops d)
unfolding run
run-Stays [] d h = (h, refl, refl, refl, refl)
run-Stays (op ∷ ops) d h =
    let s = step-Stays op d h in
    let (i, a, b, c, t) = run-Stays ops (step op d) s.0 in (i, a ∙ s.1, b ∙ s.2, c ∙ s.3, t ∙ s.4)

kill-IsIdle :
    (d : Dequeuer)
    → is_quiet d.loop ≡ true
    → d.timer ≡ false
    → d.hears ≡ false
    → d.posting ≡ false
    → d.bridge_timer ≡ false
    → IsIdle (kill d) × ((kill d).phase ≡ d.phase) × ((kill d).performed ≡ d.performed)
unfolding kill on_hangup
kill-IsIdle d q t e o b =
    let gone : Dequeuer = record d { killed = true } in
    let s = part-Stays d.state d.partner_url gone (q, refl, t, e, o, b) in
    if-cases (λ (k : Dequeuer). IsIdle k × (k.phase ≡ d.phase) × (k.performed ≡ d.performed))
      (part d.state d.partner_url gone).hears _ _ (λ t. cc) (λ _. (s.0, s.1, s.2))

-- Where a call that dequeues awaits a member, its loop is between two looks or over, no timer runs
-- and no listener or POST of `_dequeueUrl` is there, it is killed. Then whatever happens after,
-- `exec` awaits the member, and the results told are those of before.
pub killed_look_waits :
    (d : Dequeuer) (ops : List Op)
    → d.phase ≡ getting
    → is_quiet d.loop ≡ true
    → d.timer ≡ false
    → d.hears ≡ false
    → d.posting ≡ false
    → d.bridge_timer ≡ false
    → (run (is_killed ∷ ops) d).phase ≡ getting × (run (is_killed ∷ ops) d).performed ≡ d.performed
unfolding run step
killed_look_waits d ops p q t e o b =
    let (idle, same, kept) = kill-IsIdle d q t e o b in
    let s = run-Stays ops (kill d) idle in (s.1 ∙ same ∙ p, s.2 ∙ kept)

-- The member was popped after the time-out had settled the promise.
abbrev lost_member : ℕ → Dequeuer
unfolding exec
lost_member url = record (exec 0) {
  phase = over;
  loop = resting;
  timedout = true;
  found = true;
  popped = url ∷ [];
  performed = timed_out ∷ [];
}

-- Where the time-out fires while the first look is under way and the look then takes a member,
-- whatever happens after, that member is the one taken, no member was told so, and the only result
-- is the time-out.
pub late_look_loses :
    (seconds url : ℕ) (ops : List Op)
    → (seconds == 0) ≡ false
    → (run (sleeps ∷ times_out ∷ looks (some url) ∷ ops) (exec seconds)).told ≡ []
      × (run (sleeps ∷ times_out ∷ looks (some url) ∷ ops) (exec seconds)).popped ≡ url ∷ []
      × (run (sleeps ∷ times_out ∷ looks (some url) ∷ ops) (exec seconds)).performed
        ≡ timed_out ∷ []
unfolding run step exec slept on_timeout looked
late_look_loses seconds url ops timed =
    if-cases
      (λ (k : Dequeuer).
        ((run ops (looked (some url) k)).told ≡ [])
        × ((run ops (looked (some url) k)).popped ≡ url ∷ [])
        × ((run ops (looked (some url) k)).performed ≡ timed_out ∷ []))
      (not (seconds == 0)) _ _
      (λ _.
        let s = run-Stays ops (lost_member url) (refl, refl, refl, refl, refl, refl) in
        (s.4, s.3, s.2))
      (λ n. cc)
