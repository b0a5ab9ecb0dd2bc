-- ===== src/Background.antt =====
-- lib/utils/background-task-manager.js. A task is known by a number. The tasks that run are in
-- `running`, whether or not the manager still tracks them; `starting` holds the calls of `newTask` that
-- wait for their task to be made; `silenced` are the tasks whose listeners were removed. `killed` and `done` record the calls of `kill` and the emissions of
-- `bargeIn-done`.
pub mod Stopping
pub mod Tracking
pub mod BargeIn
mod Examples
use Prim.Native.String
use Prim.Native.String.{String}
use jambonz_feature_server.Prelude.Maps.{lookup, insert, remove}
use jambonz_feature_server.Prelude.{
  ℕ, zero, suc, Bool, true, false, not, ◌&&◌, ◌||◌, Option, none, some, List, [], ◌∷◌, ◌++◌, ◌==◌,
  is_some, get_elem?, take, drop, length, if◌then◌else◌,
}

pub data TaskType : Type 0 where
  listen barge_in record_call transcribe tts_stream unknown : TaskType

-- The key of a type in the map `tasks`.
abbrev pub key : TaskType → ℕ
key listen = 0
key barge_in = 1
key record_call = 2
key transcribe = 3
key tts_stream = 4
key unknown = 5

-- `has_span` says that the task was started: the span is made just before `exec`.
pub record Task : Type 0 where
  pub id : ℕ
  pub has_span : Bool
  pub sticky : Bool

pub record Running : Type 0 where
  pub id : ℕ
  pub type_of : TaskType

pub record Starting : Type 0 where
  pub type_of : TaskType
  pub sticky : Bool

pub record Manager : Type 0 where
  pub tasks : List (ℕ × Task)
  pub starting : List Starting
  pub running : List Running
  -- `task.sticky` of every task made, by its id.
  pub sticky : List (ℕ × Bool)
  pub barge_in_handled : Bool
  pub done : ℕ
  pub silenced : List ℕ
  pub killed : List ℕ
  pub call_gone : Bool
  pub stopping : Bool

-- `new BackgroundTaskManager({cs, logger, rootSpan})`
unfoldable pub create : Manager
create = record {
  tasks = [];
  starting = [];
  running = [];
  sticky = [];
  barge_in_handled = false;
  done = 0;
  silenced = [];
  killed = [];
  call_gone = false;
  stopping = false;
}

-- `isTaskRunning`, `getTask` and `count`.
unfoldable pub is_task_running : TaskType → Manager → Bool
is_task_running type m = is_some (lookup (key type) m.tasks)

unfoldable pub get_task : TaskType → Manager → Option Task
get_task type m = lookup (key type) m.tasks

unfoldable pub count : Manager → ℕ
count m = length m.tasks

-- What the making of a task came to: none was made; one was made and its preconditions failed; or it
-- runs. The `try` of each `_init` function returns the task in the second case too.
pub data Made : Type 0 where
  not_made failed started : Made

-- The options of the listen task that `_initRecord` makes, `none` where it makes none.
pub record ListenOpts : Type 0 where
  pub url : String
  pub ws_auth : Option (String × String)

abbrev both : Option String → Option String → Option (String × String)
both (some u) (some p) = some (u, p)
both _ _ = none

unfoldable pub record_opts :
    Option String → Option String → Option String → Option String → Option ListenOpts
record_opts (some base) (some vendor) user password = some (record {
  url = String.◌++◌ base (String.◌++◌ "/record/" vendor);
  ws_auth = both user password;
})
record_opts _ _ user password = none

-- `newTask` up to its `await`.
unfoldable pub new_task : TaskType → Bool → Manager → Manager
new_task type sticky m =
    if is_some (lookup (key type) m.tasks)
    then m
    else record m { starting = m.starting ++ record { type_of = type; sticky = sticky } ∷ [] }

-- The `default` of its `switch`, and `_initRecord` without a configuration, make nothing.
abbrev pub outcome : TaskType → Made → Made
outcome unknown made = not_made
outcome type made = made

abbrev pub with_task : Starting → ℕ → Bool → Manager → Manager
with_task s id has_span m = record m {
  tasks =
      insert (key s.type_of) (record { id = id; has_span = has_span; sticky = s.sticky }) m.tasks;
  sticky = insert id s.sticky m.sticky;
}

-- `newTask` after its `await`, with the id of the task that was made.
unfoldable pub end_new_task : Starting → Made → ℕ → Manager → Manager
end_new_task s made id m = elim (outcome s.type_of made) [
  | not_made ↦ m
  | failed ↦ with_task s id false m
  | started ↦
      with_task s id true
        (record m { running = m.running ++ record { id = id; type_of = s.type_of } ∷ [] })
]

-- What a call leaves, whether it returned or threw.
pub data Outcome : Type 0 where
  returned thrown : Manager → Outcome

abbrev pub settled : Outcome → Manager
settled (returned m) = m
settled (thrown m) = m

abbrev pub silence : ℕ → Manager → Manager
silence id m = record m { silenced = m.silenced ++ id ∷ [] }

-- `stop`: a task with no span makes `task.span.end()` throw.
abbrev pub stop_key : ℕ → Manager → Outcome
stop_key k m = elim (lookup k m.tasks) [
  | none ↦ returned m
  | some t ↦
      if t.has_span
      then returned (record m {
        tasks = remove k m.tasks;
        killed = m.killed ++ t.id ∷ [];
        silenced = m.silenced ++ t.id ∷ [];
      })
      else thrown (silence t.id m)
]

unfoldable pub stop : TaskType → Manager → Outcome
stop type m = stop_key (key type) m

abbrev pub keys : List (ℕ × Task) → List ℕ
keys [] = []
keys ((k, t) ∷ ts) = k ∷ keys ts

-- `stopAll`, whose loop ends where a `stop` throws.
unfoldable pub stop_keys : List ℕ → Manager → Outcome
stop_keys [] m = returned m
stop_keys (k ∷ ks) m = elim (stop_key k m) [ returned n ↦ stop_keys ks n | thrown n ↦ thrown n ]

unfoldable pub stop_all : Manager → Outcome
unfolding stop_keys
stop_all m = stop_keys (keys m.tasks) m

-- `_taskCompleted` and `_taskError`, of a task that ran.
unfoldable pub forget : Running → Manager → Manager
forget r m = record (silence r.id m) { tasks = remove (key r.type_of) m.tasks }

unfoldable pub drop_running : ℕ → List Running → List Running
drop_running id [] = []
drop_running id (r ∷ rs) = let rest = drop_running id rs in if r.id == id then rest else r ∷ rest

abbrev pub is_barge_in : TaskType → Bool
is_barge_in barge_in = true
is_barge_in _ = false

abbrev pub is_true : Option Bool → Bool
is_true none = false
is_true (some b) = b

-- Whether a barge-in that completes is started again.
abbrev pub restarts : Running → Manager → Bool
restarts r m =
    is_barge_in r.type_of && is_true (lookup r.id m.sticky) && not m.call_gone && not m.stopping

-- `exec` of a task resolved: the completion, and the restart of a sticky barge-in.
unfoldable pub task_completed : Running → Manager → Manager
unfolding forget drop_running
task_completed r m =
    let gone = forget r (record m { running = drop_running r.id m.running }) in
    if restarts r m then new_task barge_in true (record gone { barge_in_handled = false }) else gone

-- `exec` of a task was rejected.
unfoldable pub task_error : Running → Manager → Manager
unfolding forget drop_running
task_error r m = forget r (record m { running = drop_running r.id m.running })

-- `_bargeInTaskCompleted`
unfoldable pub barge_in_task_completed : Manager → Manager
barge_in_task_completed m =
    if m.barge_in_handled then m else record m { barge_in_handled = true; done = suc m.done }
