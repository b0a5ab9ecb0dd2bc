-- ===== src/Dial.antt =====
-- lib/tasks/dial.js: the race of the legs that a dial places. A leg is known by its call sid, a number.
-- `live` are the legs that the far ends have not ended and that were not killed, which the dial cannot
-- see; the rest is the state of the task. `_killOutdials` is cut at its `await` of each leg. What follows
-- `propagateAnswer` in `_selectSingleDial` is one step; nested tasks, dtmf, the release of media and the
-- adulting of a leg are left out.
pub mod Race
pub mod Tracking
pub mod Legs
pub mod Orderly
pub mod Draining
pub mod Steps
pub mod Flaws
pub mod Late
mod Examples
use jambonz_feature_server.Prelude.{
  ℕ, suc, Bool, true, false, not, ◌&&◌, ◌||◌, take, drop, get_elem?, Option, none, some, List, [],
  ◌∷◌, ◌++◌, ◌==◌, if◌then◌else◌,
}

-- `CallStatus`, as far as a leg has it.
pub data Status : Type 0 where
  trying ringing early_media in_progress completed failed busy no_answer : Status

pub record Settings : Type 0 where
  -- `answerOnBridge`, and whether the A leg had been answered before.
  pub early_media : Bool
  pub a_leg_already_answered : Bool
  pub has_time_limit : Bool
  -- Whether early media of this dial is bridged, and whether its media can be released.
  pub bridges_early_media : Bool
  pub can_release_media : Bool

pub record Results : Type 0 where
  pub dial_call_status : Option Status
  pub dial_sip_status : ℕ
  pub dial_call_sid : Option ℕ

-- What follows a run of `_killOutdials`: nothing, the rest of the callback of `timerRing`, or of `kill`.
pub data Follow : Type 0 where
  connects rings_out kills : Follow

-- A run of `_killOutdials` that awaits the kill of a leg, with the legs that come after it.
pub record Loop : Type 0 where
  pub leg : ℕ
  pub rest : List ℕ
  pub follow : Follow

pub record Dial : Type 0 where
  pub dials : List ℕ
  pub sd : Option ℕ
  -- The legs whose `accept` awaits `propagateAnswer`.
  pub connecting : List ℕ
  pub timer_ring : Bool
  pub timer_max_call_duration : Bool
  pub bridged : Bool
  pub results : Results
  pub killed : Bool
  pub task_done : Bool
  -- The legs that the dial has handlers for.
  pub heard : List ℕ
  -- The legs whose dialog has the listener of `destroy`.
  pub watched : List ℕ
  pub loops : List Loop
  pub live : List ℕ

unfoldable pub mem : ℕ → List ℕ → Bool
mem a [] = false
mem a (b ∷ bs) = b == a || mem a bs

unfoldable pub delete : ℕ → List ℕ → List ℕ
delete a [] = []
delete a (b ∷ bs) = let rest = delete a bs in if b == a then rest else b ∷ rest

abbrev pub is_empty : List ℕ → Bool
is_empty [] = true
is_empty (_ ∷ _) = false

abbrev pub is_none : Option ℕ → Bool
is_none none = true
is_none (some _) = false

-- `constructor`, and the ring timer of `_attemptCalls`.
unfoldable pub create : Dial
create = record {
  dials = [];
  sd = none;
  connecting = [];
  timer_ring = true;
  timer_max_call_duration = false;
  bridged = false;
  results = record { dial_call_status = none; dial_sip_status = 0; dial_call_sid = none };
  killed = false;
  task_done = false;
  heard = [];
  watched = [];
  loops = [];
  live = [];
}

abbrev pub lose : ℕ → Dial → Dial
lose s d = record d { live = delete s d.live }

-- `this.sd.kill()`, and the removal of its listeners.
abbrev pub kill_sd : Option ℕ → Dial → Dial
kill_sd none d = d
kill_sd (some s) d = record d { sd = none; heard = delete s d.heard; live = delete s d.live }

-- The start of `kill`, and its end after `_killOutdials`.
abbrev pub stop_timers : Dial → Dial
stop_timers d = record d { killed = true; timer_max_call_duration = false; timer_ring = false }

abbrev pub end_kill : Dial → Dial
end_kill d = record (kill_sd d.sd d) { task_done = true }

-- After a time-out `kill` finds no leg in the map.
unfoldable pub follow_loop : Follow → Dial → Dial
unfolding delete
follow_loop connects d = d
follow_loop rings_out d = end_kill (stop_timers d)
follow_loop kills d = end_kill d

-- `_killOutdials`, from its next leg up to the `await`, or to its end.
unfoldable pub kill_legs : Follow → List ℕ → Dial → Dial
unfolding follow_loop delete
kill_legs f [] d = follow_loop f (record d { dials = [] })
kill_legs f (s ∷ ss) d = record (lose s d) {
  loops = d.loops ++ record { leg = s; rest = ss; follow = f } ∷ [];
}

unfoldable pub kill_outdials : Follow → Dial → Dial
unfolding kill_legs
kill_outdials f d = kill_legs f d.dials d

abbrev pub continue_loop : Loop → Dial → Dial
continue_loop l d = kill_legs l.follow l.rest (record d { heard = delete l.leg d.heard })

-- The kill of a leg is over, in the run at this place of `loops`.
unfoldable pub outdial_killed : ℕ → Dial → Dial
unfolding kill_legs delete
outdial_killed i d = elim (get_elem? d.loops i) [
  | none ↦ d
  | some l ↦ continue_loop l (record d { loops = take i d.loops ++ drop (suc i) d.loops })
]

-- `kill`
unfoldable pub kill : Dial → Dial
unfolding kill_outdials
kill d = kill_outdials kills (stop_timers d)

-- `placeCall`, of one target.
unfoldable pub place : ℕ → Dial → Dial
place s d =
    if d.killed
    then d
    else record d { dials = d.dials ++ s ∷ []; heard = d.heard ++ s ∷ []; live = d.live ++ s ∷ [] }

-- What the end of a leg leads to.
abbrev pub end_if_last : Dial → Dial
end_if_last d = if is_empty d.dials && is_none d.sd then kill d else d

-- `Object.assign` to the results, unless they are final.
abbrev pub is_kept : Option Status → Bool
is_kept (some completed) = true
is_kept (some no_answer) = true
is_kept _ = false

abbrev pub record_status : ℕ → Status → ℕ → Dial → Dial
record_status s status sip d = if is_kept d.results.dial_call_status then d else record d {
  results = record {
    dial_call_status = some status;
    dial_sip_status = sip;
    dial_call_sid = some s;
  };
}

-- The `switch` of the handler of `callStatusChange`.
abbrev pub after_status : Settings → ℕ → Status → Dial → Dial
after_status o s early_media d = if o.bridges_early_media then record d { bridged = true } else d
after_status o s in_progress d = record d { timer_ring = false }
after_status o s failed d = end_if_last (record d { dials = delete s d.dials })
after_status o s busy d = end_if_last (record d { dials = delete s d.dials })
after_status o s no_answer d = end_if_last (record d { dials = delete s d.dials })
after_status o s _ d = d

-- The status after which a leg is gone.
abbrev pub ends_leg : Status → Bool
ends_leg completed = true
ends_leg failed = true
ends_leg busy = true
ends_leg no_answer = true
ends_leg _ = false

-- The handler of `callStatusChange`, and whether the leg has its `callInfo`: the results read it, so that
-- the handler throws before the `switch` where they are not final and it is missing.
unfoldable pub on_call_status_change : Settings → ℕ → Status → ℕ → Bool → Dial → Dial
unfolding kill delete
on_call_status_change o s status sip has_call_info d =
    let left = if ends_leg status then lose s d else d in
    if is_kept d.results.dial_call_status || has_call_info
    then after_status o s status (record_status s status sip left)
    else left

-- The handlers of `callCreateFail` and of `decline`.
unfoldable pub on_leg_failed : ℕ → Dial → Dial
unfolding kill delete
on_leg_failed s d = end_if_last (record d {
  timer_ring = false;
  dials = delete s d.dials;
  heard = delete s d.heard;
  live = delete s d.live;
})

-- The accept threw: its `catch`.
unfoldable pub accept_failed : ℕ → Dial → Dial
unfolding kill delete
accept_failed s d = kill (record d { heard = delete s d.heard })

-- `_selectSingleDial` from the listener of `destroy`, which `this.dlg` gets if a leg is chosen, and the end
-- of `_connectSingleDial`.
abbrev pub watch : ℕ → Option ℕ → Dial → Dial
watch s none d = accept_failed s d
watch s (some t) d = kill_outdials connects (record d {
  watched = d.watched ++ t ∷ [];
  results = record {
    dial_call_status = some completed;
    dial_sip_status = 200;
    dial_call_sid = some s;
  };
})

-- The rest of `_selectSingleDial`, and `_connectSingleDial` after it.
unfoldable pub select_single_dial : Settings → ℕ → Dial → Dial
unfolding kill_outdials accept_failed
select_single_dial o s d =
    watch s d.sd (if o.has_time_limit then record d { timer_max_call_duration = true } else d)

abbrev pub awaits_answer : Settings → Bool
awaits_answer o = o.early_media && not o.a_leg_already_answered

-- The handler of `accept`, up to its wait for `propagateAnswer`.
unfoldable pub on_accept : Settings → ℕ → Dial → Dial
unfolding select_single_dial delete
on_accept o s d =
    let chosen = record d {
      timer_ring = false;
      bridged = d.bridged || not o.can_release_media;
      dials = delete s d.dials;
      sd = some s;
    } in
    if awaits_answer o
    then record chosen { connecting = d.connecting ++ s ∷ [] }
    else select_single_dial o s chosen

-- `propagateAnswer` is over, and whether it succeeded.
unfoldable pub answer_propagated : Settings → ℕ → Bool → Dial → Dial
unfolding select_single_dial accept_failed delete
answer_propagated o s true d =
    select_single_dial o s (record d { connecting = delete s d.connecting })
answer_propagated o s false d = accept_failed s (record d { connecting = delete s d.connecting })

-- The callback of `timerRing`.
unfoldable pub on_ring_timeout : Dial → Dial
unfolding kill_outdials
on_ring_timeout d = kill_outdials rings_out (record d { timer_ring = false })

-- The called party hangs up: the handler of `destroy`, where the dialog has it.
unfoldable pub on_destroy : ℕ → Dial → Dial
unfolding kill delete mem
on_destroy s d =
    let gone = lose s d in
    if mem s d.watched && not (is_none d.sd)
    then kill (record gone { timer_max_call_duration = false })
    else gone

-- `_onMaxCallDuration`
unfoldable pub on_max_call_duration : Dial → Dial
unfolding kill
on_max_call_duration d = kill (record d { timer_max_call_duration = false })
