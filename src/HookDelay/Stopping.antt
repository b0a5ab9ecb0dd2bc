-- ===== src/HookDelay/Stopping.antt =====
-- What becomes of the promise that a stop returns: lib/utils/action-hook-delay.js.
use mathlib.Core.Path.{subst}
use jambonz_feature_server.HookDelay.State.{Verb, Processor, say, play, other, missing}
use jambonz_feature_server.HookDelay.Timers.{
  disarm, clear, await_resolver, stop, stop_after_kill, exec_failed, on_playback_start,
  playback_stopped, call_times, on_playback_stop, on_give_up_timer,
}
use jambonz_feature_server.Prelude.{
  ℕ, zero, suc, ◌≤◌, false, Option, none, some, List, [], ◌∷◌, ◌≡◌, refl, sym, arith, if-cases,
}
use jambonz_feature_server.HookDelay.Turns.{
  Op, timer, give_up, playback_start, playback_stop, failed, stopping, killed, step, run, mem,
}

-- Nothing is left that could resolve the promises that are not resolved.
unfoldable pub IsStuck : ℕ → Processor → Type 0
IsStuck k p = p.no_response_armed ≡ [] × p.listeners ≡ 0 × k ≤ p.unresolved

clear-empty : (o : Option ℕ) (ms : List ℕ) → ms ≡ [] → clear o ms ≡ []
unfolding disarm
clear-empty o [] h = go o
  where
    go : (o : Option ℕ) → clear o [] ≡ []
    go none = refl
    go (some n) = refl
clear-empty o (m ∷ ms) h = cc

stop-IsStuck : (k : ℕ) (p : Processor) → IsStuck k p → IsStuck k (stop p).0
unfolding stop await_resolver IsStuck
stop-IsStuck k p (a, b, c) = go p.task_in_progress
  where
    empty : clear p.no_response_timer p.no_response_armed ≡ []
    empty = clear-empty p.no_response_timer p.no_response_armed a

    go : (o : Option Verb) → IsStuck k (stop (record p { task_in_progress = o })).0
    go none = (empty, b, c)
    go (some play) = (empty, b, c)
    go (some say) = (empty, b, omega arith)
    go (some other) = (empty, b, omega arith)
    go (some missing) = (empty, b, omega arith)

call_times-none : (n : ℕ) (p : Processor) → n ≡ 0 → call_times n p ≡ p
call_times-none zero p h = refl
call_times-none (suc n) p h = absurd (omega arith)

on_playback_stop-IsStuck : (k : ℕ) (p : Processor) → IsStuck k p → IsStuck k (on_playback_stop p)
unfolding on_playback_stop IsStuck
on_playback_stop-IsStuck k p (a, b, c) =
    subst (IsStuck k) (sym (call_times-none p.listeners (record p { listeners = 0 }) b))
      (a, refl, c)

on_give_up_timer-IsStuck :
    (k t : ℕ) (p : Processor) → IsStuck k p → IsStuck k (on_give_up_timer t p)
unfolding on_give_up_timer IsStuck
on_give_up_timer-IsStuck k t p h =
    let q = record p { active = false; give_up_armed = disarm t p.give_up_armed } in
    if-cases (IsStuck k) p.give_up_actions _ _ (λ _. h) (λ _. stop-IsStuck k q h)

none_fires : (t : ℕ) (ms : List ℕ) → ms ≡ [] → mem t ms ≡ false
unfolding mem
none_fires t [] h = refl
none_fires t (m ∷ ms) h = cc

step-IsStuck : (k : ℕ) (op : Op) (p : Processor) → IsStuck k p → IsStuck k (step op p)
unfolding step on_playback_start exec_failed stop_after_kill await_resolver IsStuck
step-IsStuck k (timer made t) p (a, b, c) =
    if-cases (IsStuck k) (mem t p.no_response_armed) _ _
      (λ fires. let silent = none_fires t p.no_response_armed a in cc) (λ _. (a, b, c))
step-IsStuck k (give_up t) p h =
    if-cases (IsStuck k) (mem t p.give_up_armed) _ _ (λ _. on_give_up_timer-IsStuck k t p h)
      (λ _. h)
step-IsStuck k playback_start p h =
    if-cases (IsStuck k) p.active _ _ (λ _. h)
      (λ _. if-cases (IsStuck k) p.ep _ _ (λ _. h) (λ _. h))
step-IsStuck k playback_stop p h = on_playback_stop-IsStuck k p h
step-IsStuck k failed p (a, b, c) =
    if-cases (IsStuck k) p.ep _ _ (λ _. (a, refl, c)) (λ _. (a, b, c))
step-IsStuck k stopping p h = stop-IsStuck k p h
step-IsStuck k killed p (a, b, c) = (a, b, omega arith)

run-IsStuck : (k : ℕ) (ops : List Op) (p : Processor) → IsStuck k p → IsStuck k (run ops p)
unfolding run
run-IsStuck k [] p h = h
run-IsStuck k (op ∷ ops) p h = run-IsStuck k ops (step op p) (step-IsStuck k op p h)

-- Two stops while a say plays, and then its end.
unfoldable pub stopped_twice : Processor → Processor
unfolding stop on_playback_stop
stopped_twice p = on_playback_stop (stop (stop p).0).0

stopped_twice-IsStuck :
    (p : Processor)
    → p.task_in_progress ≡ some say
    → p.listeners ≡ 1
    → p.no_response_armed ≡ []
    → IsStuck (suc p.unresolved) (stopped_twice p)
unfolding stopped_twice stop on_playback_stop await_resolver playback_stopped IsStuck
stopped_twice-IsStuck p task one unarmed =
    subst (λ o. Goal o p.listeners) (sym task)
      (subst (λ l. Goal (some say) l) (sym one)
        (clear-empty p.no_response_timer p.no_response_armed unarmed, refl, omega arith))
  where
    Goal : Option Verb → ℕ → Type 0
    Goal o l =
        IsStuck (suc p.unresolved)
          (stopped_twice (record p { task_in_progress = o; listeners = l }))

-- Where a say plays, with one listener and no timer armed, after two stops and the end of the say
-- one more promise is unresolved than before, and stays so for any list of events before the next
-- start.
pub stop_twice_strands :
    (ops : List Op) (p : Processor)
    → p.task_in_progress ≡ some say
    → p.listeners ≡ 1
    → p.no_response_armed ≡ []
    → suc p.unresolved ≤ (run ops (stopped_twice p)).unresolved
unfolding IsStuck
stop_twice_strands ops p task one unarmed =
    (run-IsStuck _ ops _ (stopped_twice-IsStuck p task one unarmed)).2
