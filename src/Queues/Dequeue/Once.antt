-- ===== src/Queues/Dequeue/Once.antt =====
-- At most one member is taken from the queue, and at most one result is reported.
use jambonz_feature_server.Prelude.{
  ℕ, ◌≤◌, Bool, true, false, ◌&&◌, Option, none, some, List, [], ◌∷◌, ◌++◌, ◌≡◌, refl, sym, ap, ◌∙◌,
  length, length-append, if-cases, arith,
}
use jambonz_feature_server.Queues.Dequeue.{
  State, timeout, bridged, timed_out, complete, hangup, Outcome, Loop, starting, looking, resting,
  left, Phase, getting, joining, over, Dequeuer, exec, perform, give_up, on_timeout, goes_on, woken,
  slept, got, answer, looked, finish, fail, posted, on_bridge_timeout, on_ready, part, on_hangup,
  kill,
}
use jambonz_feature_server.Queues.Dequeue.Runs.{
  Op, times_out, sleeps, bridge_times_out, partner_leaves, is_killed, looks, posts, partner_ready,
  step, run,
}

-- How many results `exec` has reported where it is, and how many members it has told.
abbrev pub results_at : Phase → ℕ
results_at getting = 0
results_at joining = 0
results_at over = 1

abbrev pub may_look : Loop → Bool
may_look starting = true
may_look looking = true
may_look resting = false
may_look left = false

abbrev pub taken : Bool → ℕ
taken true = 1
taken false = 0

-- A member was taken exactly if one was found, and then the loop looks no more; a result was reported
-- exactly if `exec` is over.
abbrev pub IsOnce : Dequeuer → Type 0
IsOnce d =
    (length d.popped ≡ taken d.found)
    × ((may_look d.loop && d.found) ≡ false)
    × (length d.performed ≡ results_at d.phase)

perform-IsOnce :
    (r : Outcome) (d : Dequeuer)
    → length d.performed ≡ 0
    → length d.popped ≡ taken d.found
    → (may_look d.loop && d.found) ≡ false
    → IsOnce (perform r d)
perform-IsOnce r d none_yet a b =
    (a, b, length-append d.performed (r ∷ []) ∙ (omega (arith, none_yet)))

finish-IsOnce : (p : Phase) (d : Dequeuer) → d.phase ≡ p → IsOnce d → IsOnce (finish p d)
finish-IsOnce getting d e h = h
finish-IsOnce joining d e (a, b, c) = perform-IsOnce complete d (c ∙ ap results_at e) a b
finish-IsOnce over d e h = h

fail-IsOnce : (p : Phase) (d : Dequeuer) → d.phase ≡ p → IsOnce d → IsOnce (fail p d)
fail-IsOnce getting d e h = h
fail-IsOnce joining d e (a, b, c) =
    perform-IsOnce hangup (record d { hears = false }) (c ∙ ap results_at e) a b
fail-IsOnce over d e h = h

give_up-IsOnce : (p : Phase) (d : Dequeuer) → d.phase ≡ p → IsOnce d → IsOnce (give_up p d)
give_up-IsOnce getting d e (a, b, c) = perform-IsOnce timed_out d (c ∙ ap results_at e) a b
give_up-IsOnce joining d e h = h
give_up-IsOnce over d e h = h

on_hangup-IsOnce : (d : Dequeuer) → IsOnce d → IsOnce (on_hangup d)
unfolding on_hangup
on_hangup-IsOnce d h = if-cases IsOnce d.hears _ _ (λ _. finish-IsOnce d.phase d refl h) (λ _. h)

-- The loop goes on only where no member was found.
woken-IsOnce : (l : Loop) (d : Dequeuer) → d.loop ≡ l → IsOnce d → IsOnce (woken l d)
woken-IsOnce starting d e (a, b, c) = (a, ap (λ l. may_look l && d.found) (sym e) ∙ b, c)
woken-IsOnce looking d e h = h
woken-IsOnce resting d e (a, b, c) =
    if-cases IsOnce (goes_on d) _ _ (λ t. (a, ground (arith, t), c)) (λ _. (a, refl, c))
woken-IsOnce left d e h = h

got-IsOnce : (p : Phase) (url : ℕ) (d : Dequeuer) → d.phase ≡ p → IsOnce d → IsOnce (got p url d)
got-IsOnce getting url d e (a, b, c) = (a, b, c ∙ ap results_at e)
got-IsOnce joining url d e h = h
got-IsOnce over url d e h = h

answer-IsOnce :
    (l : Loop) (r : Option ℕ) (d : Dequeuer) → d.loop ≡ l → IsOnce d → IsOnce (answer l r d)
answer-IsOnce looking (some url) d e (a, b, c) =
    let taken_one : Dequeuer = record d {
      loop = resting;
      found = true;
      timer = false;
      popped = d.popped ++ url ∷ [];
    } in
    got-IsOnce d.phase url taken_one refl
      (length-append d.popped (url ∷ []) ∙ (omega (arith, a ∙ ap taken unfound)), refl, c)
  where
    unfound : d.found ≡ false
    unfound = ap (λ l. may_look l && d.found) (sym e) ∙ b
answer-IsOnce looking none d e (a, b, c) = (a, refl, c)
answer-IsOnce starting r d e h = h
answer-IsOnce resting r d e h = h
answer-IsOnce left r d e h = h

posted-IsOnce : (ok : Bool) (d : Dequeuer) → IsOnce d → IsOnce (posted ok d)
unfolding posted
posted-IsOnce true d h = if-cases IsOnce d.posting _ _ (λ _. h) (λ _. h)
posted-IsOnce false d h =
    if-cases IsOnce d.posting _ _ (λ _. fail-IsOnce d.phase (record d { posting = false }) refl h)
      (λ _. h)

part-IsOnce : (s : State) (u : Option ℕ) (d : Dequeuer) → IsOnce d → IsOnce (part s u d)
part-IsOnce bridged (some url) d h = h
part-IsOnce bridged none d h = h
part-IsOnce timeout u d h = h

step-IsOnce : (op : Op) (d : Dequeuer) → IsOnce d → IsOnce (step op d)
unfolding step on_timeout slept looked on_bridge_timeout on_ready kill
step-IsOnce times_out d h =
    if-cases IsOnce d.timer _ _
      (λ _. give_up-IsOnce d.phase (record d { timer = false; timedout = true }) refl h) (λ _. h)
step-IsOnce sleeps d h = woken-IsOnce d.loop d refl h
step-IsOnce bridge_times_out d h =
    if-cases IsOnce d.bridge_timer _ _
      (λ _. fail-IsOnce d.phase (record d { bridge_timer = false }) refl h) (λ _. h)
step-IsOnce partner_leaves d h = on_hangup-IsOnce d h
step-IsOnce is_killed d h =
    on_hangup-IsOnce (part d.state d.partner_url (record d { killed = true }))
      (part-IsOnce d.state d.partner_url (record d { killed = true }) h)
step-IsOnce (looks r) d h = answer-IsOnce d.loop r d refl h
step-IsOnce (posts ok) d h = posted-IsOnce ok d h
step-IsOnce (partner_ready url) d h = if-cases IsOnce d.hears _ _ (λ _. h) (λ _. h)

run-IsOnce : (ops : List Op) (d : Dequeuer) → IsOnce d → IsOnce (run ops d)
unfolding run
run-IsOnce [] d h = h
run-IsOnce (op ∷ ops) d h = run-IsOnce ops (step op d) (step-IsOnce op d h)

results_at-le : (p : Phase) → results_at p ≤ 1
results_at-le getting = omega arith
results_at-le joining = omega arith
results_at-le over = omega arith

taken-le : (b : Bool) → taken b ≤ 1
taken-le true = omega arith
taken-le false = omega arith

-- After any list of events, a call that dequeues, with any time-out, has taken at most one member
-- from the queue and told its action hook at most one result.
pub run_takes_once :
    (seconds : ℕ) (ops : List Op)
    → length (run ops (exec seconds)).popped ≤ 1 × length (run ops (exec seconds)).performed ≤ 1
unfolding exec
run_takes_once seconds ops =
    let h = run-IsOnce ops (exec seconds) (refl, refl, refl) in
    (
      omega (arith, h.0, taken-le (run ops (exec seconds)).found),
      omega (arith, h.2, results_at-le (run ops (exec seconds)).phase),
    )
