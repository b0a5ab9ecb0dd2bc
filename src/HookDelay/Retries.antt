-- ===== src/HookDelay/Retries.antt =====
-- How often the action is started again: lib/utils/action-hook-delay.js.
use jambonz_feature_server.HookDelay.State.{
  Verb, Event, Resolver, Processor, say, play, other, missing, giveup, giveup_with_tasks,
  killed_audio, killed_play, started, unset, clears, resolves,
}
use jambonz_feature_server.HookDelay.Timers.{
  play_action, next_action, arm_no_response, start, disarm, clear, log, await_resolver, stop,
  stop_after_kill, on_no_response_timer, exec_failed, on_playback_start, play_action, next_action,
  restarts, playback_stopped, call_times, on_playback_stop, on_give_up_timer,
}
use jambonz_feature_server.Prelude.{
  ℕ, zero, suc, ◌+◌, ◌≤◌, Bool, true, false, Option, none, some, List, [], ◌∷◌, ◌++◌, ltb, length,
  if◌then◌else◌, ◌≡◌, refl, sym, ap, ◌∙◌, arith, if-cases,
}
use jambonz_feature_server.HookDelay.Turns.{
  Op, timer, give_up, playback_start, playback_stop, failed, stopping, killed, mem, step, run,
  count_started, allowed, Turns, HasTurns, Turns-fewer, Turns-arm, Turns-fire, length-disarm,
  length-disarm-mem, clear-le, append-started, append-quiet,
}

exec_failed-HasTurns : (n : ℕ) (p : Processor) → HasTurns n p → HasTurns n (exec_failed p)
unfolding exec_failed HasTurns allowed
exec_failed-HasTurns n p h =
    if-cases (HasTurns n) p.ep _ _
      (λ _. Turns-fewer n _ _ _ _ p.listeners 0 _ _ (omega arith) (omega arith) refl h) (λ _. h)

stop-HasTurns : (n : ℕ) (p : Processor) → HasTurns n p → HasTurns n (stop p).0
unfolding stop await_resolver HasTurns allowed count_started
stop-HasTurns n p h = go p.task_in_progress
  where
    fewer :
        (d : ℕ)
        → d ≡ count_started p.out
        → Turns n
            (length (clear p.no_response_timer p.no_response_armed))
            d
            p.listeners
            p.retry_count
            (allowed p)
    fewer d e =
        Turns-fewer n _ _ _ _ _ _ _ _ (clear-le p.no_response_timer p.no_response_armed)
          (omega arith) e h

    go : (o : Option Verb) → HasTurns n (stop (record p { task_in_progress = o })).0
    go none = fewer _ refl
    go (some play) = fewer _ (append-quiet p.out killed_play refl)
    go (some say) = fewer _ refl
    go (some other) = fewer _ refl
    go (some missing) = fewer _ refl

quiet-HasTurns :
    (n : ℕ) (e : Event) (p : Processor)
    → count_started (e ∷ []) ≡ 0
    → HasTurns n p
    → HasTurns n (log e p)
unfolding HasTurns allowed
quiet-HasTurns n e p quiet h =
    Turns-fewer n _ _ _ _ _ _ _ _ (omega arith) (omega arith) (append-quiet p.out e quiet) h

on_playback_start-HasTurns :
    (n : ℕ) (p : Processor) → HasTurns n p → HasTurns n (on_playback_start p)
unfolding on_playback_start count_started
on_playback_start-HasTurns n p h =
    if-cases (HasTurns n) p.active _ _ (λ _. h)
      (λ _. if-cases (HasTurns n) p.ep _ _ (λ _. quiet-HasTurns n killed_audio p refl h) (λ _. h))

restarts-allowed : (p : Processor) → restarts p ≡ true → suc p.retry_count ≤ allowed p
unfolding allowed
restarts-allowed p h = ground arith

playback_stopped-HasTurns :
    (n : ℕ) (p : Processor)
    → length p.no_response_armed + p.listeners ≤ 0
    → HasTurns n p
    → HasTurns n (playback_stopped p)
unfolding playback_stopped HasTurns allowed
playback_stopped-HasTurns n p free h = go p.say_resolver
  where
    go : (r : Resolver) → HasTurns n (playback_stopped (record p { say_resolver = r }))
    go unset =
        if-cases (HasTurns n) (restarts p) _ _
          (λ r. Turns-arm n _ _ _ _ _ free (restarts-allowed p r) h) (λ _. h)
    go clears = h
    go resolves = h

on_playback_stop-HasTurns : (n : ℕ) (p : Processor) → HasTurns n p → HasTurns n (on_playback_stop p)
unfolding on_playback_stop HasTurns Turns allowed
on_playback_stop-HasTurns n p (a, b, c, d) = go p.listeners (omega arith)
  where
    q : Processor
    q = record p { listeners = 0 }

    go : (k : ℕ) → length p.no_response_armed + k ≤ 1 → HasTurns n (call_times k q)
    go zero le = (a, omega arith, c, d)
    go (suc zero) le = playback_stopped-HasTurns n q (omega arith) (a, omega arith, c, d)
    go (suc (suc k)) le = absurd (omega arith)

stop_after_kill-HasTurns : (n : ℕ) (p : Processor) → HasTurns n p → HasTurns n (stop_after_kill p)
unfolding stop_after_kill await_resolver HasTurns allowed
stop_after_kill-HasTurns n p h = h

on_give_up_timer-HasTurns :
    (n t : ℕ) (p : Processor) → HasTurns n p → HasTurns n (on_give_up_timer t p)
unfolding on_give_up_timer count_started HasTurns allowed
on_give_up_timer-HasTurns n t p h =
    let q = record p { active = false; give_up_armed = disarm t p.give_up_armed } in
    if-cases (HasTurns n) p.give_up_actions _ _ (λ _. quiet-HasTurns n giveup_with_tasks q refl h)
      (λ _. quiet-HasTurns n giveup (stop q).0 refl (stop-HasTurns n q h))

on_no_response_timer-HasTurns :
    (n t : ℕ) (made : Bool) (p : Processor)
    → mem t p.no_response_armed ≡ true
    → HasTurns n p
    → HasTurns n (on_no_response_timer made t p)
unfolding on_no_response_timer HasTurns allowed count_started
on_no_response_timer-HasTurns n t made p armed h =
    if-cases (HasTurns n) p.ep _ _ (λ _. plays (next_action p.actions p.retry_count)) (λ _. idle)
  where
    idle :
        Turns n
          (length (disarm t p.no_response_armed))
          (count_started p.out)
          p.listeners
          p.retry_count
          (allowed p)
    idle = Turns-fewer n _ _ _ _ _ _ _ _ (length-disarm t p.no_response_armed) (omega arith) refl h

    fires :
        (v : Verb)
        → Turns n
            (length (disarm t p.no_response_armed))
            (count_started (p.out ++ started v ∷ []))
            (suc p.listeners)
            (suc p.retry_count)
            (allowed p)
    fires v =
        Turns-fire n _ _ _ _ _ _ _ (sym (length-disarm-mem t p.no_response_armed armed))
          (append-started p.out (started v) 1 refl ∙ omega arith) h

    plays :
        (o : Option Verb)
        → HasTurns n (
            play_action made o (record p {
              no_response_timer = none;
              no_response_armed = disarm t p.no_response_armed;
            }))
    plays none = idle
    plays (some v) = if-cases (HasTurns n) made _ _ (λ _. fires v) (λ _. idle)

step-HasTurns : (n : ℕ) (op : Op) (p : Processor) → HasTurns n p → HasTurns n (step op p)
unfolding step
step-HasTurns n (timer made t) p h =
    if-cases (HasTurns n) (mem t p.no_response_armed) _ _
      (λ armed. on_no_response_timer-HasTurns n t made p armed h) (λ _. h)
step-HasTurns n (give_up t) p h =
    if-cases (HasTurns n) (mem t p.give_up_armed) _ _ (λ _. on_give_up_timer-HasTurns n t p h)
      (λ _. h)
step-HasTurns n playback_start p h = on_playback_start-HasTurns n p h
step-HasTurns n playback_stop p h = on_playback_stop-HasTurns n p h
step-HasTurns n failed p h = exec_failed-HasTurns n p h
step-HasTurns n stopping p h = stop-HasTurns n p h
step-HasTurns n killed p h = stop_after_kill-HasTurns n p h

run-HasTurns : (n : ℕ) (ops : List Op) (p : Processor) → HasTurns n p → HasTurns n (run ops p)
unfolding run
run-HasTurns n [] p h = h
run-HasTurns n (op ∷ ops) p h = run-HasTurns n ops (step op p) (step-HasTurns n op p h)

allowed_some : (p : Processor) → 1 ≤ allowed p
unfolding allowed
allowed_some p = ground arith

-- What a processor is before its first start.
unfoldable pub IsFresh : Processor → Type 0
IsFresh p = p.active ≡ false × p.no_response_armed ≡ [] × p.listeners ≡ 0 × p.out ≡ []

Turns-first : (a d l m : ℕ) → a + l ≤ 1 → d ≡ 0 → 1 ≤ m → Turns m a d l 0 m
unfolding Turns
Turns-first a d l m p q r = (omega arith, p, q, refl)

start-HasTurns : (p : Processor) → IsFresh p → HasTurns (allowed p) (start p)
unfolding IsFresh start HasTurns allowed count_started
start-HasTurns p (idle, unarmed, unheard, silent) =
    if-cases (HasTurns (allowed p)) p.active _ _ (λ active. cc)
      (λ _.
        if-cases (HasTurns (allowed p)) (ltb 0 p.no_response_give_up_timeout) _ _ (λ _. armed)
          (λ _. armed))
  where
    first :
        (a : ℕ)
        → a ≤ suc (length p.no_response_armed)
        → Turns (allowed p) a (count_started p.out) p.listeners 0 (allowed p)
    first a le =
        let none_armed = ap length unarmed in
        Turns-first a _ _ _ (omega arith) (ap count_started silent) (allowed_some p)

    q : Processor
    q = record p { active = true; retry_count = 0 }

    armed : HasTurns (allowed p) (if ltb 0 p.no_response_timeout then arm_no_response q else q)
    armed =
        if-cases (HasTurns (allowed p)) (ltb 0 p.no_response_timeout) _ _
          (λ _. first _ (omega arith)) (λ _. first _ (omega arith))

HasTurns-few : (n : ℕ) (p : Processor) → HasTurns n p → count_started p.out ≤ n
unfolding HasTurns Turns
HasTurns-few n p (a, b, c, d) = omega arith

-- From the start of a processor that is not active, has no listener and no timer armed and emitted
-- nothing, after any list of events before the next start, the actions that were started are at
-- most `retries`, or one if that is 0.
pub run_starts_few :
    (ops : List Op) (p : Processor) → IsFresh p → count_started (run ops (start p)).out ≤ allowed p
run_starts_few ops p h = HasTurns-few _ _ (run-HasTurns _ ops _ (start-HasTurns p h))
