-- ===== src/Queues/Member/Events.antt =====
-- The handlers of lib/tasks/enqueue.js: the bridging, the kill, the events of the partner, and the loop
-- of the wait hook.
use jambonz_feature_server.Prelude.{
  ℕ, zero, suc, Bool, true, false, ◌||◌, Option, none, some, ◌==◌, if◌then◌else◌,
}
use jambonz_feature_server.Queues.Member.{
  error, leave, Reason, hangup, Phase, adding, counting, waiting, bridging, acting, settling, over,
  Bridge, apart, storing, referring, joined, done, Hook, idle, silent, asking, ended, playing,
  left_abandoned, left_dequeued, told_hangup, unbridged, Settings, Member, log, bridge_local,
  notify_task_done, resolve_in, bridge_over,
}

-- `_bridgeLocal` resolves, and `_doBridge` goes on.
abbrev pub joined_over : Bridge → Settings → Member → Member
joined_over joined o m =
    let parted = notify_task_done (record m { bridge = done }) in bridge_over parted.phase o parted
joined_over apart o m = m
joined_over storing o m = m
joined_over referring o m = m
joined_over done o m = m

-- The `ready` event reached the partner, or not: then `_bridgeLocal` rejects, and so does `exec`.
abbrev pub fail_in : Phase → Member → Member
fail_in bridging m = record m { phase = over }
fail_in adding m = m
fail_in counting m = m
fail_in waiting m = m
fail_in acting m = m
fail_in settling m = m
fail_in over m = m

abbrev pub joined_fails : Bridge → Member → Member
joined_fails joined m = fail_in m.phase (record m { bridge = done })
joined_fails apart m = m
joined_fails storing m = m
joined_fails referring m = m
joined_fails done m = m

unfoldable pub posted : Bool → Member → Member
posted ok m =
    let sent = record m { is_posting = false } in
    if m.is_posting
    then if ok then sent else joined_fails m.bridge (record sent { state = error })
    else m

-- A move to the other server failed: `_doBridge` after `transferCallToFeatureServer`.
abbrev pub move_failed : Settings → Member → Member
move_failed o m =
    let stayed = notify_task_done (record m { bridge = done; state = error }) in
    bridge_over stayed.phase o stayed

-- `transferCallToFeatureServer`: the data is stored, or not, and the REFER is answered, or throws.
abbrev pub stored_in : Bridge → Settings → Bool → Member → Member
stored_in storing o ok m =
    if ok then record m { bridge = referring; call_moved = true } else move_failed o m
stored_in apart o ok m = m
stored_in referring o ok m = m
stored_in joined o ok m = m
stored_in done o ok m = m

unfoldable pub stored : Settings → Bool → Member → Member
stored o ok m = stored_in m.bridge o ok m

abbrev pub refer_result : Settings → Option Bool → Member → Member
refer_result o (some true) m =
    let moved = record m { bridge = done } in bridge_over moved.phase o moved
refer_result o (some false) m = move_failed o (record m { call_moved = false })
refer_result o none m = move_failed o m

abbrev pub referred_in : Bridge → Settings → Option Bool → Member → Member
referred_in referring o r m = refer_result o r m
referred_in apart o r m = m
referred_in storing o r m = m
referred_in joined o r m = m
referred_in done o r m = m

unfoldable pub referred : Settings → Option Bool → Member → Member
referred o r m = referred_in m.bridge o r m

-- `_playSession.kill()`
abbrev pub kill_session : Member → Member
kill_session m = record m { has_session = false }

-- The `kill` listener of `_doWait`, up to its await, and after it.
abbrev pub leave_queue : Settings → Member → Member
leave_queue o m = let quiet = kill_session m in resolve_in quiet.phase o quiet

abbrev pub on_kill : Settings → Member → Member
on_kill o m =
    if m.hears_kill
    then if m.dequeued
      then leave_queue o (record m { hears_kill = false })
      else record m { hears_kill = false; removing = suc m.removing }
    else m

abbrev pub removed_in : ℕ → Settings → Bool → Member → Member
removed_in zero o ok m = m
removed_in (suc n) o ok m =
    let answered = record m { removing = n } in
    if ok
    then leave_queue o (log left_abandoned (record answered { in_queue = false }))
    else leave_queue o answered

unfoldable pub removed : Settings → Bool → Member → Member
removed o ok m = removed_in m.removing o ok m

-- The `kill` listener of `_bridgeLocal`.
abbrev pub partner_killed : Settings → Member → Member
partner_killed o m =
    if m.hears_partner then joined_over m.bridge o (log told_hangup (log unbridged m)) else m

-- `kill`, with its reason, which is a hang-up where there is none.
unfoldable pub kill : Settings → Reason → Member → Member
kill o r m =
    notify_task_done
      (partner_killed o (on_kill o (record m { killed = true; kill_reason = some r })))

-- `_doBridge`; the argument says whether the caller that dequeues is on this server.
abbrev pub do_bridge : Bool → Member → Member
do_bridge true m = bridge_local m
do_bridge false m = record m { bridge = storing }

-- The promise of `_doWait` becomes that of `_doBridge`.
abbrev pub follow : Phase → Member → Member
follow waiting m = record m { phase = bridging }
follow adding m = m
follow counting m = m
follow bridging m = m
follow acting m = m
follow settling m = m
follow over m = m

-- The `dequeue` listener of `_doWait`.
abbrev pub on_dequeue : Bool → Member → Member
on_dequeue local m =
    let named = record m { hears_dequeue = false; has_details = true } in
    let quiet =
      if m.has_session then record named { leaves = false; has_session = false } else named in
    if m.hears_dequeue then follow m.phase (do_bridge local quiet) else m

-- `notifyQueueEvent`: the event `dequeue`, up to its await and after it, and the event `hangup`.
unfoldable pub notify_dequeue : Settings → Bool → Member → Member
notify_dequeue o local m =
    let heard = on_dequeue local m in
    if o.bridge_now then m else record heard { announcing = suc heard.announcing }

abbrev pub announced_in : ℕ → Bool → Member → Member
announced_in zero ok m = m
announced_in (suc n) ok m =
    let answered = record m { announcing = n } in
    if ok then log left_dequeued (record answered { dequeued = true }) else answered

unfoldable pub announced : Bool → Member → Member
announced ok m = announced_in m.announcing ok m

unfoldable pub notify_hangup : Settings → Member → Member
notify_hangup o m = if m.hears_partner then joined_over m.bridge o (log unbridged m) else m

-- The silence of the loop of the wait hook ends, or fails.
abbrev pub silence_over_in : Hook → Bool → Member → Member
silence_over_in silent ok m =
    if ok
    then if m.killed then record m { hook = ended } else record m { hook = asking }
    else record m { hook = ended; has_session = false }
silence_over_in idle ok m = m
silence_over_in asking ok m = m
silence_over_in ended ok m = m
silence_over_in (playing n) ok m = m

unfoldable pub silence_over : Bool → Member → Member
silence_over ok m = silence_over_in m.hook ok m

-- The end of `_playHook`, with the number of tasks it returns, and the condition of the loop.
abbrev pub hook_over : Settings → ℕ → Member → Member
unfolding kill
hook_over o n m =
    let left = if m.leaves then kill o hangup (record m { state = leave }) else m in
    if n == 0 || left.killed || left.has_details
    then record left { hook = ended }
    else record left { hook = silent }

-- The wait hook answers with the number of tasks before a `leave`, and whether there is one; it fails,
-- or answers with a verb that is not allowed.
abbrev pub hook_result : Settings → Option (ℕ × Bool) → Member → Member
hook_result o none m = record m { hook = ended; has_session = false }
hook_result o (some (n, has_leave)) m =
    let noted = if has_leave then record m { leaves = true } else m in
    if m.killed
    then record noted { hook = ended }
    else if n == 0
    then hook_over o 0 noted
    else record noted { hook = playing n; has_session = true }

abbrev pub hook_answered_in : Hook → Settings → Option (ℕ × Bool) → Member → Member
hook_answered_in asking o r m = hook_result o r m
hook_answered_in idle o r m = m
hook_answered_in silent o r m = m
hook_answered_in ended o r m = m
hook_answered_in (playing n) o r m = m

unfoldable pub hook_answered : Settings → Option (ℕ × Bool) → Member → Member
hook_answered o r m = hook_answered_in m.hook o r m

abbrev pub session_over_in : Hook → Settings → Member → Member
session_over_in (playing n) o m = hook_over o n (record m { has_session = false })
session_over_in idle o m = m
session_over_in silent o m = m
session_over_in asking o m = m
session_over_in ended o m = m

unfoldable pub session_over : Settings → Member → Member
session_over o m = session_over_in m.hook o m
