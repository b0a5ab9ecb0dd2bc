-- ===== src/HookDelay/Timers.antt =====
-- The operations of the processor of lib/utils/action-hook-delay.js.
use jambonz_feature_server.Prelude.{
  ℕ, zero, suc, ◌%◌, Bool, true, false, ◌&&◌, Option, none, some, List, [], ◌∷◌, ◌++◌, ◌==◌, ltb,
  length, get_elem?, if◌then◌else◌,
}
use jambonz_feature_server.HookDelay.State.{
  Verb, Event, Processor, play, giveup, giveup_with_tasks, killed_audio, killed_play, started,
  unset, clears, resolves,
}

-- `setTimeout(this._onNoResponseTimer.bind(this), this.noResponseTimeout * 1000)`
abbrev pub arm_no_response : Processor → Processor
arm_no_response p = record p {
  no_response_timer = some p.next_timer;
  no_response_armed = p.next_timer ∷ p.no_response_armed;
  next_timer = suc p.next_timer;
}

abbrev pub arm_give_up : Processor → Processor
arm_give_up p = record p {
  give_up_timer = some p.next_timer;
  give_up_armed = p.next_timer ∷ p.give_up_armed;
  next_timer = suc p.next_timer;
}

-- `start`
unfoldable pub start : Processor → Processor
start p =
    if p.active
    then p
    else let q = record p { active = true; retry_count = 0 } in
      let r = if ltb 0 p.no_response_timeout then arm_no_response q else q in
      if ltb 0 p.no_response_give_up_timeout then arm_give_up r else r

-- A timer that fires or is cleared is no longer armed.
unfoldable pub disarm : ℕ → List ℕ → List ℕ
disarm n [] = []
disarm n (m ∷ ms) = if n == m then ms else m ∷ disarm n ms

abbrev pub clear : Option ℕ → List ℕ → List ℕ
clear none ms = ms
clear (some n) ms = disarm n ms

-- What `stop` waits for: nothing, the kill of a task that plays, or the end of the audio.
pub data Wait : Type 0 where
  settled kills resolver : Wait

abbrev pub log : Event → Processor → Processor
log e p = record p { out = p.out ++ e ∷ [] }

-- The promise that `stop` returns in the end, and its resolver.
unfoldable pub await_resolver : Processor → Processor
await_resolver p = record p { say_resolver = resolves; unresolved = suc p.unresolved }

-- `stop`, up to its `await`.
unfoldable pub stop : Processor → Processor × Wait
unfolding await_resolver disarm
stop p =
    let quiet = record p {
      active = false;
      no_response_timer = none;
      no_response_armed = clear p.no_response_timer p.no_response_armed;
      give_up_timer = none;
      give_up_armed = clear p.give_up_timer p.give_up_armed;
    } in
    elim p.task_in_progress [
      | none ↦ (quiet, settled)
      | some play ↦ (log killed_play (record quiet { say_resolver = clears }), kills)
      | some _ ↦ (await_resolver quiet, resolver)
    ]

-- `stop`, after the `await` of the kill.
unfoldable pub stop_after_kill : Processor → Processor
unfolding await_resolver
stop_after_kill p = await_resolver p

abbrev pub nth : List Verb → ℕ → Option Verb
nth vs n = get_elem? vs (n % length vs)

-- `_onNoResponseTimer`, where there is a next action: `made` says whether it became a task. An error that
-- the callback throws leaves what was done before it.
abbrev pub play_action : Bool → Option Verb → Processor → Processor
play_action made none q = q
play_action made (some v) q =
    if made
    then log (started v) (record q {
      task_in_progress = some v;
      listeners = suc q.listeners;
      retry_count = suc q.retry_count;
    })
    else record q { task_in_progress = none }

abbrev pub next_action : Option (List Verb) → ℕ → Option Verb
next_action none n = none
next_action (some vs) n = nth vs n

-- `_onNoResponseTimer`
unfoldable pub on_no_response_timer : Bool → ℕ → Processor → Processor
unfolding disarm
on_no_response_timer made n p =
    let q = record p {
      no_response_timer = none;
      no_response_armed = disarm n p.no_response_armed;
    } in
    if p.ep
    then play_action made (next_action p.actions p.retry_count) q
    else record q { active = false }

-- The `catch` of the task's `exec`, which drops the listeners.
unfoldable pub exec_failed : Processor → Processor
exec_failed p =
    if p.ep
    then record p { task_in_progress = none; listeners = 0 }
    else record p { task_in_progress = none }

-- The listener for `playback-start`.
unfoldable pub on_playback_start : Processor → Processor
on_playback_start p = if p.active then p else if p.ep then log killed_audio p else p

abbrev pub restarts : Processor → Bool
restarts p =
    p.active && ltb 0 p.retries && ltb p.retry_count p.retries && ltb 0 p.no_response_timeout

-- One listener for `playback-stop`.
unfoldable pub playback_stopped : Processor → Processor
playback_stopped p =
    let q = record p { task_in_progress = none } in
    elim p.say_resolver [
      | unset ↦ if restarts p then arm_no_response q else q
      | clears ↦ record q { say_resolver = unset }
      | resolves ↦ record q { say_resolver = unset; unresolved = Prim.Native.Nat.pred p.unresolved }
    ]

abbrev pub call_times : ℕ → Processor → Processor
call_times zero p = p
call_times (suc n) p = call_times n (playback_stopped p)

-- The event `playback-stop`: every listener that was added by `once` is called.
unfoldable pub on_playback_stop : Processor → Processor
unfolding playback_stopped
on_playback_stop p = call_times p.listeners (record p { listeners = 0 })

-- `_onNoResponseGiveUpTimer`
unfoldable pub on_give_up_timer : ℕ → Processor → Processor
unfolding stop disarm
on_give_up_timer n p =
    let q = record p { active = false; give_up_armed = disarm n p.give_up_armed } in
    if p.give_up_actions then log giveup_with_tasks q else log giveup (stop q).0
