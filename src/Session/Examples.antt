-- ===== src/Session/Examples.antt =====
-- Calls of lib/session/call-session.js.
use jambonz_feature_server.Prelude.{◌+◌, ◌≤◌, ◌≡◌, refl, true, false, none, List, [], ◌∷◌}
use jambonz_feature_server.Session.{
  Task, Kind, normal, siprec, Phase, waiting, over, Session, ready, prune, on_redirect,
  redirect_over, includes,
}
use jambonz_feature_server.Session.Execution.{
  Op, prepares, finishes, resumes, redirects, redirect_ends, replaces, step, run,
}
use jambonz_feature_server.Session.Counting.{times}
use jambonz_feature_server.Session.Starts.{budget, given_in, run_starts_given}
use jambonz_feature_server.Session.Replacing.{siprec_redirect_ends}

abbrev say : Task
say = record { id = 1; name = "say"; disables_barge_in = false }

abbrev play : Task
play = record { id = 2; name = "play"; disables_barge_in = false }

abbrev call : Kind → Phase → Session
call kind phase = record {
  tasks = [];
  task_idx = 0;
  stack_idx = 0;
  phase = phase;
  current_task = none;
  wakeup_resolver = true;
  call_gone = false;
  app_is_using_websockets = true;
  closed_gracefully = false;
  kind = kind;
  is_cur_task_play = false;
  started = [];
  killed = [];
  breaks = 0;
  pending_redirects = 0;
}

abbrev talk : List Op
talk =
    redirects true false (say ∷ play ∷ [])
    ∷ redirect_ends
    ∷ resumes
    ∷ prepares ready
    ∷ replaces (play ∷ [])
    ∷ finishes false
    ∷ []

run_starts_given_example :
    times 1 (run talk (call normal waiting)).started
    ≤ budget 1 (call normal waiting) + given_in 1 talk
run_starts_given_example = run_starts_given 1 talk (call normal waiting)

siprec_redirect_ends_example :
    (step resumes (redirect_over (on_redirect false false (say ∷ []) (call siprec waiting)))).phase
    ≡ over
unfolding prune includes
siprec_redirect_ends_example =
    siprec_redirect_ends (say ∷ []) false (call siprec waiting) refl refl refl refl refl
