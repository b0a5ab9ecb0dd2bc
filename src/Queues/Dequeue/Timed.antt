-- ===== src/Queues/Dequeue/Timed.antt =====
-- A call that dequeues with a time-out does not look for a member past it.
use jambonz_feature_server.Prelude.{
  ℕ, Bool, true, false, not, ◌&&◌, Option, none, some, List, [], ◌∷◌, ◌++◌, ◌==◌, ◌≡◌, refl, ap,
  if-cases, arith,
}
use jambonz_feature_server.Queues.Dequeue.{
  State, timeout, bridged, Loop, starting, looking, resting, left, Phase, getting, joining, over,
  Dequeuer, exec, give_up, on_timeout, goes_on, woken, slept, got, answer, looked, finish, fail,
  posted, on_bridge_timeout, on_ready, part, on_hangup, kill,
}
use jambonz_feature_server.Queues.Dequeue.Runs.{
  Op, times_out, sleeps, bridge_times_out, partner_leaves, is_killed, looks, posts, partner_ready,
  step, run,
}

abbrev pub is_getting : Phase → Bool
is_getting getting = true
is_getting joining = false
is_getting over = false

-- While `exec` awaits a member, the timer of the time-out runs.
abbrev pub IsTimed : Dequeuer → Type 0
IsTimed d = (is_getting d.phase && not d.timer) ≡ false

finish-IsTimed : (p : Phase) (d : Dequeuer) → IsTimed d → IsTimed (finish p d)
finish-IsTimed getting d h = h
finish-IsTimed joining d h = refl
finish-IsTimed over d h = h

fail-IsTimed : (p : Phase) (d : Dequeuer) → IsTimed d → IsTimed (fail p d)
fail-IsTimed getting d h = h
fail-IsTimed joining d h = refl
fail-IsTimed over d h = h

-- What the timer leaves does not await a member.
give_up-over : (p : Phase) (d : Dequeuer) → d.phase ≡ p → is_getting (give_up p d).phase ≡ false
give_up-over getting d e = refl
give_up-over joining d e = ap is_getting e
give_up-over over d e = ap is_getting e

got-over :
    (p : Phase) (url : ℕ) (d : Dequeuer) → d.phase ≡ p → is_getting (got p url d).phase ≡ false
got-over getting url d e = refl
got-over joining url d e = ap is_getting e
got-over over url d e = ap is_getting e

not_getting : (d : Dequeuer) → is_getting d.phase ≡ false → IsTimed d
not_getting d h = rw h

on_hangup-IsTimed : (d : Dequeuer) → IsTimed d → IsTimed (on_hangup d)
unfolding on_hangup
on_hangup-IsTimed d h = if-cases IsTimed d.hears _ _ (λ _. finish-IsTimed d.phase d h) (λ _. h)

woken-IsTimed : (l : Loop) (d : Dequeuer) → IsTimed d → IsTimed (woken l d)
woken-IsTimed starting d h = h
woken-IsTimed looking d h = h
woken-IsTimed resting d h = if-cases IsTimed (goes_on d) _ _ (λ _. h) (λ _. h)
woken-IsTimed left d h = h

answer-IsTimed : (l : Loop) (r : Option ℕ) (d : Dequeuer) → IsTimed d → IsTimed (answer l r d)
answer-IsTimed looking (some url) d h =
    let taken : Dequeuer = record d {
      loop = resting;
      found = true;
      timer = false;
      popped = d.popped ++ url ∷ [];
    } in
    not_getting (got d.phase url taken) (got-over d.phase url taken refl)
answer-IsTimed looking none d h = h
answer-IsTimed starting r d h = h
answer-IsTimed resting r d h = h
answer-IsTimed left r d h = h

posted-IsTimed : (ok : Bool) (d : Dequeuer) → IsTimed d → IsTimed (posted ok d)
unfolding posted
posted-IsTimed true d h = if-cases IsTimed d.posting _ _ (λ _. h) (λ _. h)
posted-IsTimed false d h =
    if-cases IsTimed d.posting _ _ (λ _. fail-IsTimed d.phase (record d { posting = false }) h)
      (λ _. h)

part-IsTimed : (s : State) (u : Option ℕ) (d : Dequeuer) → IsTimed d → IsTimed (part s u d)
part-IsTimed bridged (some url) d h = h
part-IsTimed bridged none d h = h
part-IsTimed timeout u d h = h

step-IsTimed : (op : Op) (d : Dequeuer) → IsTimed d → IsTimed (step op d)
unfolding step on_timeout slept looked on_bridge_timeout on_ready kill
step-IsTimed times_out d h =
    let fired : Dequeuer = record d { timer = false; timedout = true } in
    if-cases IsTimed d.timer _ _
      (λ _. not_getting (give_up d.phase fired) (give_up-over d.phase fired refl)) (λ _. h)
step-IsTimed sleeps d h = woken-IsTimed d.loop d h
step-IsTimed bridge_times_out d h =
    if-cases IsTimed d.bridge_timer _ _
      (λ _. fail-IsTimed d.phase (record d { bridge_timer = false }) h) (λ _. h)
step-IsTimed partner_leaves d h = on_hangup-IsTimed d h
step-IsTimed is_killed d h =
    on_hangup-IsTimed (part d.state d.partner_url (record d { killed = true }))
      (part-IsTimed d.state d.partner_url (record d { killed = true }) h)
step-IsTimed (looks r) d h = answer-IsTimed d.loop r d h
step-IsTimed (posts ok) d h = posted-IsTimed ok d h
step-IsTimed (partner_ready url) d h = if-cases IsTimed d.hears _ _ (λ _. h) (λ _. h)

-- The timer fires after a run that ends in a call that is timed.
run_then_times_out :
    (ops : List Op) (d : Dequeuer)
    → IsTimed d
    → is_getting (run (ops ++ times_out ∷ []) d).phase ≡ false
unfolding run step on_timeout
run_then_times_out [] d h =
    let fired : Dequeuer = record d { timer = false; timedout = true } in
    if-cases (λ (k : Dequeuer). is_getting k.phase ≡ false) d.timer _ _
      (λ _. give_up-over d.phase fired refl) (λ n. ground (arith, h, n))
run_then_times_out (op ∷ ops) d h = run_then_times_out ops (step op d) (step-IsTimed op d h)

-- Where a call that dequeues has a time-out, it does not await a member any more when its timer
-- fires, whatever happened before.
pub time_out_ends_look :
    (seconds : ℕ) (ops : List Op)
    → (seconds == 0) ≡ false
    → is_getting (run (ops ++ times_out ∷ []) (exec seconds)).phase ≡ false
unfolding exec
time_out_ends_look seconds ops timed = run_then_times_out ops (exec seconds) (rw timed)
