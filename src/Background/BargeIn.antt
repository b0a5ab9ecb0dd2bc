-- ===== src/Background/BargeIn.antt =====
-- How often the manager of lib/utils/background-task-manager.js reports a barge-in.
use jambonz_feature_server.Prelude.Maps.{insert}
use jambonz_feature_server.Prelude.{
  ℕ, suc, ◌+◌, ◌≤◌, ◌≡◌, refl, Bool, true, false, not, none, some, List, [], ◌∷◌, ◌++◌, get_elem?,
  take, drop, arith, Bool-cases, Option-cases, inl, inr,
}
use jambonz_feature_server.Background.{
  TaskType, barge_in, Running, Starting, Manager, Made, started, not_made, failed, new_task,
  end_new_task, settled, stop, forget, drop_running, restarts, task_completed, task_error,
  barge_in_task_completed, outcome, create,
}

-- A run of the event loop: a call of `newTask`, a start at a place of `starting` that comes to its end,
-- a call of `stop`, an `exec` at a place of `running` that resolves or is rejected, or an event of the
-- barge-in task.
pub data Op : Type 0 where
  requests : TaskType → Bool → Op
  makes : ℕ → Made → ℕ → Op
  stops : TaskType → Op
  completes fails : ℕ → Op
  barges : Op
  -- The session sets `sticky` of a task.
  marks : ℕ → Bool → Op

pub step : Op → Manager → Manager
step (requests type sticky) m = new_task type sticky m
step (makes i made id) m = elim (get_elem? m.starting i) [
  | none ↦ m
  | some s ↦
      end_new_task s made id (record m { starting = take i m.starting ++ drop (suc i) m.starting })
]
step (stops type) m = settled (stop type m)
step (completes i) m = elim (get_elem? m.running i) [ none ↦ m | some r ↦ task_completed r m ]
step (fails i) m = elim (get_elem? m.running i) [ none ↦ m | some r ↦ task_error r m ]
step barges m = barge_in_task_completed m
step (marks id sticky) m = record m { sticky = insert id sticky m.sticky }

pub run : List Op → Manager → Manager
run [] m = m
run (op ∷ ops) m = run ops (step op m)

abbrev pub one_if : Bool → ℕ
one_if true = 1
one_if false = 0

-- How often a sticky barge-in was started again.
pub restarts_by : Op → Manager → ℕ
restarts_by (completes i) m = elim (get_elem? m.running i) [
  | none ↦ 0
  | some r ↦ one_if (restarts r m)
]
restarts_by _ m = 0

pub restarts_in : List Op → Manager → ℕ
restarts_in [] m = 0
restarts_in (op ∷ ops) m = restarts_by op m + restarts_in ops (step op m)

-- The reports made, and one more where the next event would be reported.
abbrev budget : Manager → ℕ
budget m = m.done + one_if (not m.barge_in_handled)

new_task-budget :
    (type : TaskType) (sticky : Bool) (m : Manager) → budget (new_task type sticky m) ≡ budget m
unfolding new_task
new_task-budget type sticky m = ground arith

end_new_task-budget :
    (s : Starting) (made : Made) (id : ℕ) (m : Manager)
    → budget (end_new_task s made id m) ≡ budget m
unfolding end_new_task
end_new_task-budget s made id m = go (outcome s.type_of made) refl
  where
    go : (o : Made) → outcome s.type_of made ≡ o → budget (end_new_task s made id m) ≡ budget m
    go not_made e = rw (e, end_new_task)
    go failed e = rw (e, end_new_task)
    go started e = rw (e, end_new_task)

stop-budget : (type : TaskType) (m : Manager) → budget (settled (stop type m)) ≡ budget m
unfolding stop
stop-budget type m = ground arith

task_completed-budget :
    (r : Running) (m : Manager) → budget (task_completed r m) ≤ budget m + one_if (restarts r m)
unfolding task_completed forget
task_completed-budget r m = elim (Bool-cases (restarts r m)) [
  | inl again ↦ rw again (
      omega (
        arith,
        new_task-budget barge_in true
            (record (forget r (record m { running = drop_running r.id m.running })) {
              barge_in_handled = false;
            }),
      ))
  | inr done ↦ rw done (omega arith)
]

task_error-budget : (r : Running) (m : Manager) → budget (task_error r m) ≡ budget m
unfolding task_error forget
task_error-budget r m = refl

step-budget : (op : Op) (m : Manager) → budget (step op m) ≤ budget m + restarts_by op m
unfolding step restarts_by barge_in_task_completed
step-budget (requests type sticky) m = omega (arith, new_task-budget type sticky m)
step-budget (makes i made id) m = elim (Option-cases (get_elem? m.starting i)) [
  | inl missing ↦ rw (missing, step) (omega arith)
  | inr (s, found) ↦
      rw (found, step)
        (omega (
          arith,
          end_new_task-budget s made id
              (record m { starting = take i m.starting ++ drop (suc i) m.starting }),
        ))
]
step-budget (stops type) m = omega (arith, stop-budget type m)
step-budget (completes i) m = elim (Option-cases (get_elem? m.running i)) [
  | inl missing ↦ rw (missing, step, restarts_by) (omega arith)
  | inr (r, found) ↦ rw (found, step, restarts_by) (task_completed-budget r m)
]
step-budget (fails i) m = elim (Option-cases (get_elem? m.running i)) [
  | inl missing ↦ rw (missing, step) (omega arith)
  | inr (r, found) ↦ rw (found, step) (omega (arith, task_error-budget r m))
]
step-budget barges m = ground arith
step-budget (marks id sticky) m = omega arith

run-budget : (ops : List Op) (m : Manager) → budget (run ops m) ≤ budget m + restarts_in ops m
unfolding run restarts_in
run-budget [] m = omega arith
run-budget (op ∷ ops) m = omega (arith, step-budget op m, run-budget ops (step op m))

-- After any list of events from a new manager, the barge-ins it reported are at most one more than
-- the times that a sticky barge-in was started again.
pub barge_ins_reported : (ops : List Op) → (run ops create).done ≤ 1 + restarts_in ops create
unfolding create
barge_ins_reported ops = omega (arith, run-budget ops create)
