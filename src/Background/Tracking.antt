-- ===== src/Background/Tracking.antt =====
-- What the manager of lib/utils/background-task-manager.js keeps track of.
use jambonz_feature_server.Prelude.Maps.{
  lookup, insert, remove, lookup-insert, lookup-insert_self, lookup-remove_self,
}
use jambonz_feature_server.Prelude.{
  ℕ, ◌≡◌, ◌≢◌, refl, ap, ◌∙◌, Bool, true, false, some, List, [], ◌∷◌, ◌++◌, ◌==◌, if◌then◌else◌,
  arith,
}
use jambonz_feature_server.Background.{
  TaskType, listen, barge_in, record_call, transcribe, tts_stream, unknown, key, Task, Running,
  Starting, Manager, silence, is_task_running, Made, failed, started, new_task, with_task,
  end_new_task, thrown, settled, stop_key, stop, forget, drop_running, restarts, task_completed,
  outcome,
}

abbrev pub request : TaskType → Bool → Starting
request type sticky = record { type_of = type; sticky = sticky }

outcome_known : (type : TaskType) (made : Made) → type ≢ unknown → outcome type made ≡ made
outcome_known listen made h = refl
outcome_known barge_in made h = refl
outcome_known record_call made h = refl
outcome_known transcribe made h = refl
outcome_known tts_stream made h = refl
outcome_known unknown made h = absurd (h refl)

end_new_task_failed :
    (s : Starting) (id : ℕ) (m : Manager)
    → s.type_of ≢ unknown
    → end_new_task s failed id m ≡ with_task s id false m
unfolding end_new_task
end_new_task_failed s id m h = rw (outcome_known s.type_of failed h, end_new_task)

end_new_task_started :
    (s : Starting) (id : ℕ) (m : Manager)
    → s.type_of ≢ unknown
    → end_new_task s started id m
      ≡ with_task s id true
          (record m { running = m.running ++ record { id = id; type_of = s.type_of } ∷ [] })
unfolding end_new_task
end_new_task_started s id m h = rw (outcome_known s.type_of started h, end_new_task)

-- A task of a known type whose preconditions failed counts as running, keeps another of its type
-- from being started, and makes `stop` throw with nothing changed but its listeners removed.
pub failed_start_stays :
    (type : TaskType) (sticky again : Bool) (id : ℕ) (m : Manager)
    → type ≢ unknown
    → let m' = end_new_task (request type sticky) failed id m in
      (is_task_running type m' ≡ true)
      × (new_task type again m' ≡ m')
      × (stop type m' ≡ thrown (silence id m'))
unfolding is_task_running new_task stop
failed_start_stays type sticky again id m h =
    let t : Task = record { id = id; has_span = false; sticky = sticky } in
    let there = lookup-insert_self (key type) t m.tasks in
    rw (end_new_task_failed (request type sticky) id m h)
      (rw (there, is_task_running) refl, rw (there, new_task) refl, rw (there, stop_key) refl)

-- Whether a task runs.
abbrev pub runs : ℕ → List Running → Bool
runs id [] = false
runs id (r ∷ rs) = if r.id == id then true else runs id rs

runs-append : (id : ℕ) (rs : List Running) (r : Running) → r.id ≡ id → runs id (rs ++ r ∷ []) ≡ true
runs-append id [] r h = ground arith
runs-append id (x ∷ rs) r h = ground (arith, runs-append id rs r h)

runs-drop_running :
    (id old : ℕ) (rs : List Running) → old ≢ id → runs id (drop_running old rs) ≡ runs id rs
unfolding drop_running
runs-drop_running id old [] h = refl
runs-drop_running id old (x ∷ rs) h = ground (arith, runs-drop_running id old rs h)

settled-stop :
    (type : TaskType) (t : Task) (m : Manager)
    → lookup (key type) m.tasks ≡ some t
    → t.has_span ≡ true
    → settled (stop type m) ≡ record m {
      tasks = remove (key type) m.tasks;
      killed = m.killed ++ t.id ∷ [];
      silenced = m.silenced ++ t.id ∷ [];
    }
unfolding stop
settled-stop type t m found span = ground arith

restarts_same :
    (r : Running) (new : ℕ) (m : Manager)
    → r.id ≢ new
    → restarts r m ≡ false
    → restarts r (record m { sticky = insert new false m.sticky }) ≡ false
restarts_same r new m ne h = ground (arith, lookup-insert new r.id false m.sticky)

task_completed_once :
    (r : Running) (m : Manager)
    → restarts r m ≡ false
    → task_completed r m ≡ forget r (record m { running = drop_running r.id m.running })
unfolding task_completed
task_completed_once r m h = rw h

-- Where a task with a span that is not to be started again is stopped, another of its type is
-- started, and then the first completes, the second was tracked before the completion and is not
-- after it, although it runs.
pub completion_forgets_successor :
    (r : Running) (t : Task) (new : ℕ) (m : Manager)
    → r.type_of ≢ unknown
    → restarts r m ≡ false
    → lookup (key r.type_of) m.tasks ≡ some t
    → t.has_span ≡ true
    → r.id ≢ new
    → let stopped = settled (stop r.type_of m) in
      let both = end_new_task (request r.type_of false) started new stopped in
      let after = task_completed r both in
      (is_task_running r.type_of both ≡ true)
      × (is_task_running r.type_of after ≡ false)
      × (runs new after.running ≡ true)
unfolding is_task_running forget
completion_forgets_successor r t new m known once found span ne =
    let stopped : Manager = record m {
      tasks = remove (key r.type_of) m.tasks;
      killed = m.killed ++ t.id ∷ [];
      silenced = m.silenced ++ t.id ∷ [];
    } in
    let two : Manager =
      with_task (request r.type_of false) new true
        (record stopped { running = m.running ++ record { id = new; type_of = r.type_of } ∷ [] }) in
    let is_two =
      ap (λ s. end_new_task (request r.type_of false) started new s)
        (settled-stop r.type_of t m found span)
      ∙ end_new_task_started (request r.type_of false) new stopped known in
    let later : task_completed r two
        ≡ forget r (record two { running = drop_running r.id two.running }) =
      task_completed_once r two (restarts_same r new m ne once) in
    rw is_two (
      rw
          (lookup-insert_self (key r.type_of) (record { id = new; has_span = true; sticky = false })
            (remove (key r.type_of) m.tasks))
          refl,
      rw later (rw (lookup-remove_self (key r.type_of) two.tasks) refl),
      rw later (runs-drop_running new r.id two.running ne ∙ runs-append new m.running _ refl),
    )
