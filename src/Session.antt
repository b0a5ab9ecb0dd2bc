-- ===== src/Session.antt =====
-- The task list of a call: `exec` of lib/session/call-session.js and the calls that change the list
-- while it runs. `exec` is cut where it awaits, and `phase` is where it stands. What the tasks, the
-- media server and the application do is chosen by the environment; `started` and `killed` record the
-- calls of `exec` and `kill` on tasks, oldest first.
mod Execution
mod Counting
mod Starts
mod Replacing
mod Examples
use Prim.Native.String.{String}
use text.Mathlib.Text.{◌==◌}
use jambonz_feature_server.Prelude.{
  ℕ, zero, suc, ◌+◌, Bool, true, false, not, ◌&&◌, ◌||◌, Option, none, some, List, [], ◌∷◌, ◌++◌,
  if◌then◌else◌, ltb, length,
}

-- `disables_barge_in` says that it is a `config` with `bargeIn.enable === false`.
pub record Task : Type 0 where
  pub id : ℕ
  pub name : String
  pub disables_barge_in : Bool

pub data Kind : Type 0 where
  normal siprec confirm : Kind

-- Where `exec` stands: before a task starts, while it runs, in `_awaitCommandsOrHangup`, after that
-- promise was resolved, or after the loop.
pub data Phase : Type 0 where
  preparing executing : Task → Phase
  waiting woken over : Phase

pub record Session : Type 0 where
  pub tasks : List Task
  pub task_idx : ℕ
  pub stack_idx : ℕ
  pub phase : Phase
  pub current_task : Option Task
  -- Whether `wakeupResolver` is set.
  pub wakeup_resolver : Bool
  pub call_gone : Bool
  pub app_is_using_websockets : Bool
  pub closed_gracefully : Bool
  pub kind : Kind
  pub is_cur_task_play : Bool
  pub started : List Task
  pub killed : List Task
  -- The emissions of `uuid_break`.
  pub breaks : ℕ
  -- The redirects whose end is still to come.
  pub pending_redirects : ℕ

abbrev pub is_empty : List Task → Bool
is_empty [] = true
is_empty (_ ∷ _) = false

-- The body of the loop of `exec`, up to its first `await`, and the end of the loop without a task.
abbrev pub next_task : List Task → Session → Session
next_task [] s = record s { phase = over }
next_task (t ∷ ts) s = record s {
  tasks = ts;
  task_idx = suc s.task_idx;
  phase = preparing t;
  is_cur_task_play = t.name == "play";
}

-- The head of the loop of `exec`.
unfoldable pub loop : Session → Session
loop s = if s.call_gone then record s { phase = over } else next_task s.tasks s

abbrev pub is_confirm : Kind → Bool
is_confirm confirm = true
is_confirm normal = false
is_confirm siprec = false

-- The test after each task, and the start of `_awaitCommandsOrHangup`, whose assertion ends the loop.
unfoldable pub after_task : Session → Session
unfolding loop
after_task s =
    if is_empty s.tasks
      && s.app_is_using_websockets
      && not s.closed_gracefully
      && not s.call_gone
      && not (is_confirm s.kind)
    then if s.wakeup_resolver
      then record s { phase = over }
      else record s { phase = waiting; wakeup_resolver = true }
    else loop s

-- What the preconditions of a task come to: it starts; it is a gather that the bot mode takes; or an error
-- that ends the task, or the loop.
pub data Prepared : Type 0 where
  ready skipped task_error fatal_error : Prepared

-- `exec` after the `await` of `_evaluatePreconditions`.
unfoldable pub prepared : Prepared → Task → Session → Session
unfolding after_task
prepared ready t s = record s {
  current_task = some t;
  phase = executing t;
  started = s.started ++ t ∷ [];
}
prepared skipped t s = after_task (record s { current_task = none })
prepared task_error t s = after_task (record s { current_task = none })
prepared fatal_error t s = record s { current_task = none; phase = over }

-- `exec` after the `await` of the task's `exec`; `fatal` says that it threw an error that ends the loop.
unfoldable pub finished : Bool → Session → Session
unfolding after_task
finished false s = after_task (record s { current_task = none })
finished true s = record s { current_task = none; phase = over }

-- `exec` after `_awaitCommandsOrHangup`.
unfoldable pub resumed : Session → Session
unfolding loop
resumed s = if s.call_gone then record s { phase = over } else loop s

abbrev pub wake_phase : Phase → Phase
wake_phase waiting = woken
wake_phase p = p

-- `if (this.wakeupResolver) { this.wakeupResolver(...); this.wakeupResolver = null; }`
unfoldable pub wake : Session → Session
wake s =
    if s.wakeup_resolver
    then record s { phase = wake_phase s.phase; wakeup_resolver = false }
    else s

-- `this.currentTask.kill(...); this.currentTask = null`, of a task.
abbrev pub kill_task : Task → Session → Session
kill_task t s = record s { killed = s.killed ++ t ∷ []; current_task = none }

unfoldable pub includes : String → List String → Bool
includes n [] = false
includes n (a ∷ names) = n == a || includes n names

unfoldable pub prune : List String → List Task → List Task
unfolding includes
prune allowed [] = []
prune allowed (t ∷ ts) =
    let rest = prune allowed ts in if includes t.name allowed then t ∷ rest else rest

-- `AllowedSipRecVerbs` and `AllowedConfirmSessionVerbs`, of lib/utils/constants.json.
abbrev pub allowed_siprec_verbs : List String
allowed_siprec_verbs =
    "answer" ∷ "config" ∷ "gather" ∷ "transcribe" ∷ "listen" ∷ "tag" ∷ "hangup" ∷ "sip:decline" ∷ []

abbrev pub allowed_confirm_session_verbs : List String
allowed_confirm_session_verbs = "config" ∷ "gather" ∷ "plays" ∷ "say" ∷ "tag" ∷ []

-- The tasks that a session of the kind may be given; `none` where the call is ignored.
abbrev pub some_tasks : List Task → Option (List Task)
some_tasks [] = none
some_tasks (t ∷ ts) = some (t ∷ ts)

unfoldable pub permitted : Kind → List Task → Option (List Task)
unfolding prune
permitted normal ts = some ts
permitted siprec ts = some_tasks (prune allowed_siprec_verbs ts)
permitted confirm ts = some_tasks (prune allowed_confirm_session_verbs ts)

-- The end of `replaceApplication`: the current task is killed, or the loop is woken.
abbrev pub interrupt : Option Task → Session → Session
interrupt (some c) s = kill_task c s
interrupt none s =
    let w = wake s in if s.is_cur_task_play then record w { breaks = suc w.breaks } else w

-- `replaceApplication`, with the tasks that are permitted.
abbrev pub replace_tasks : Option (List Task) → Session → Session
replace_tasks none s = s
replace_tasks (some ts) s =
    interrupt s.current_task (record s { tasks = ts; task_idx = 0; stack_idx = suc s.stack_idx })

unfoldable pub replace_application : List Task → Session → Session
unfolding permitted wake
replace_application ts s = if s.call_gone then s else replace_tasks (permitted s.kind ts) s

abbrev pub kill_some : Option Task → Session → Session
kill_some none s = s
kill_some (some t) s = kill_task t s

abbrev pub kill_current : Session → Session
kill_current s = kill_some s.current_task s

-- `kill`: with a barge-in, the tasks up to a config that disables it go, else all of them.
unfoldable pub clear_to_config : List Task → List Task
clear_to_config [] = []
clear_to_config (t ∷ ts) =
    let rest = clear_to_config ts in
    if (t.name == "config") && t.disables_barge_in
    then record t { disables_barge_in = false } ∷ ts
    else rest

unfoldable pub kill : Bool → Session → Session
unfolding clear_to_config
kill on_barge_in s = record (kill_current s) {
  tasks = if on_barge_in then clear_to_config s.tasks else [];
  task_idx = 0;
}

abbrev pub is_gather : Task → Bool
is_gather t = t.name == "gather"

abbrev pub has_gather : List Task → Bool
has_gather [] = false
has_gather (t ∷ ts) = is_gather t || has_gather ts

-- `this.tasks.splice(gatherPos, newTasksHasGather ? 1 : 0, ...newTasks)`; without a gather, a `push`.
unfoldable pub splice : Bool → List Task → List Task → List Task
splice drops new [] = new
splice drops new (t ∷ ts) =
    let rest = splice drops new ts in
    if is_gather t then new ++ (if drops then ts else t ∷ ts) else t ∷ rest

-- The kill of the gather in progress, which stays the current task.
abbrev pub kill_gather : Option Task → Session → Session
kill_gather none s = s
kill_gather (some t) s = if is_gather t then record s { killed = s.killed ++ t ∷ [] } else s

-- `_injectTasks`
unfoldable pub inject_tasks : List Task → Session → Session
unfolding splice
inject_tasks new s = record (kill_gather s.current_task s) {
  tasks = splice (has_gather new) new s.tasks;
}

-- `_onCommand` for `redirect`, up to its `await` of `clearOrRestoreActionHookDelayProcessor`, where `inject` is `JAMBONES_INJECT_CONTENT`.
unfoldable pub on_redirect : Bool → Bool → List Task → Session → Session
unfolding replace_application inject_tasks
on_redirect queue inject new s =
    let under_way = record s { pending_redirects = suc s.pending_redirects } in
    if not queue
    then replace_application new under_way
    else if inject
    then inject_tasks new under_way
    else record under_way { tasks = s.tasks ++ new }

-- The rest of `_onCommand`, with the number of redirects that wait for it.
abbrev pub end_redirect : ℕ → Session → Session
end_redirect zero s = s
end_redirect (suc n) s = wake (record s { pending_redirects = n })

unfoldable pub redirect_over : Session → Session
unfolding wake
redirect_over s = end_redirect s.pending_redirects s

-- `_callReleased`
unfoldable pub call_released : Session → Session
unfolding wake
call_released s = wake (kill_current (record s { call_gone = true }))
