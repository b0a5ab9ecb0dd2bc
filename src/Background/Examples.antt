-- ===== src/Background/Examples.antt =====
-- Tasks of lib/utils/background-task-manager.js.
use jambonz_feature_server.Prelude.{◌≡◌, ◌≢◌, refl, true, false, List, [], ◌∷◌, ◌++◌}
use jambonz_feature_server.Background.{
  barge_in, transcribe, unknown, Running, Manager, create, is_task_running, failed, started,
  new_task, end_new_task, silence, thrown, returned, settled, stop, stop_all,
}
use jambonz_feature_server.Background.Stopping.{AllRun, Absent, ids, stop_all_lem}
use jambonz_feature_server.Background.Tracking.{request, failed_start_stays}
use jambonz_feature_server.Background.BargeIn.{Op, requests, makes, barges, completes}

-- A manager with one transcription, of id 1, that runs.
abbrev transcribing : Manager
unfolding create
transcribing = record create {
  tasks = (3, record { id = 1; has_span = true; sticky = false }) ∷ [];
  running = record { id = 1; type_of = transcribe } ∷ [];
}

stop_all_example :
    stop_all transcribing
    ≡ returned (record transcribing {
      tasks = [];
      killed = transcribing.killed ++ ids transcribing.tasks;
      silenced = transcribing.silenced ++ ids transcribing.tasks;
    })
unfolding AllRun Absent transcribing
stop_all_example = stop_all_lem transcribing (refl, refl, refl)

transcribe_known : transcribe ≢ unknown
transcribe_known e = cc

failed_start_stays_example :
    (is_task_running transcribe (end_new_task (request transcribe false) failed 2 create) ≡ true)
    × (new_task transcribe false (end_new_task (request transcribe false) failed 2 create)
        ≡ end_new_task (request transcribe false) failed 2 create)
    × (stop transcribe (end_new_task (request transcribe false) failed 2 create)
        ≡ thrown (silence 2 (end_new_task (request transcribe false) failed 2 create)))
failed_start_stays_example = failed_start_stays transcribe false false 2 create transcribe_known

abbrev first : Running
first = record { id = 1; type_of = transcribe }

abbrev both : Manager
both = end_new_task (request transcribe false) started 2 (settled (stop transcribe transcribing))

abbrev interrupted_twice : List Op
interrupted_twice = requests barge_in false ∷ makes 0 started 1 ∷ barges ∷ barges ∷ completes 0 ∷ []
