-- ===== src/Session/Starts.antt =====
-- How often the tasks are started: lib/session/call-session.js.
use jambonz_feature_server.Prelude.{
  ℕ, zero, suc, ◌+◌, ◌≤◌, ◌≡◌, refl, ap, Bool, true, false, not, ◌&&◌, Option, none, some, List, [],
  ◌∷◌, ◌++◌, if◌then◌else◌, if-cases, arith, ◌==◌ as nat_eq,
}
use jambonz_feature_server.Session.{
  Task, Phase, preparing, executing, waiting, woken, over, Session, is_empty, next_task, interrupt,
  kill_some, loop, is_confirm, after_task, Prepared, ready, skipped, task_error, fatal_error,
  prepared, finished, resumed, wake_phase, wake, permitted, replace_tasks, replace_application,
  kill_current, clear_to_config, kill, is_gather, has_gather, splice, kill_gather, inject_tasks,
  on_redirect, redirect_over, end_redirect, call_released,
}
use jambonz_feature_server.Session.Execution.{
  Op, prepares, finishes, resumes, redirects, redirect_ends, replaces, kills, releases, prepare_at,
  finish_at, resume_at, step, run,
}
use jambonz_feature_server.Session.Counting.{
  one_if, times, times-append, times_of, permitted-times, clear_to_config-times, splice-times,
}

abbrev pub held : ℕ → Phase → ℕ
held id (preparing t) = one_if (nat_eq t.id id)
held id (executing t) = 0
held id waiting = 0
held id woken = 0
held id over = 0

-- The starts of the task so far, and those that may still come.
unfoldable pub budget : ℕ → Session → ℕ
unfolding times
budget id s = times id s.started + times id s.tasks + held id s.phase

unfoldable pub given : ℕ → Op → ℕ
unfolding times
given id (redirects queue inject ts) = times id ts
given id (replaces ts) = times id ts
given id _ = 0

unfoldable pub given_in : ℕ → List Op → ℕ
unfolding given
given_in id [] = 0
given_in id (op ∷ ops) = given id op + given_in id ops

module _ (id : ℕ) where
  next_task-budget :
      (ts : List Task) (s : Session)
      → times id ts ≡ times id s.tasks
      → budget id (next_task ts s) ≤ times id s.started + times id ts + held id s.phase
  unfolding budget times
  next_task-budget [] s h = omega arith
  next_task-budget (t ∷ ts) s h = omega arith

  loop-budget : (s : Session) → budget id (loop s) ≤ budget id s
  unfolding loop budget
  loop-budget s =
      if-cases (λ r. budget id r ≤ budget id s) s.call_gone _ _ (λ _. omega arith)
        (λ _. next_task-budget s.tasks s refl)

  after_task-budget : (s : Session) → budget id (after_task s) ≤ budget id s
  unfolding after_task budget
  after_task-budget s =
      if-cases (λ r. budget id r ≤ budget id s)
        (is_empty s.tasks
          && s.app_is_using_websockets
          && not s.closed_gracefully
          && not s.call_gone
          && not (is_confirm s.kind))
        _ _
        (λ _.
          if-cases (λ r. budget id r ≤ budget id s) s.wakeup_resolver _ _ (λ _. omega arith)
            (λ _. omega arith))
        (λ _. loop-budget s)

  wake_phase-held : (p : Phase) → held id (wake_phase p) ≡ held id p
  wake_phase-held (preparing t) = refl
  wake_phase-held (executing t) = refl
  wake_phase-held waiting = refl
  wake_phase-held woken = refl
  wake_phase-held over = refl

  wake-budget : (s : Session) → budget id (wake s) ≤ budget id s
  unfolding wake budget
  wake-budget s =
      if-cases (λ r. budget id r ≤ budget id s) s.wakeup_resolver _ _
        (λ _. omega (arith, wake_phase-held s.phase)) (λ _. omega arith)

  kill_some-budget : (o : Option Task) (s : Session) → budget id (kill_some o s) ≤ budget id s
  unfolding budget
  kill_some-budget none s = omega arith
  kill_some-budget (some t) s = omega arith

  interrupt-budget : (o : Option Task) (s : Session) → budget id (interrupt o s) ≤ budget id s
  unfolding budget
  interrupt-budget (some c) s = omega arith
  interrupt-budget none s =
      if-cases (λ r. budget id r ≤ budget id s) s.is_cur_task_play _ _ (λ _. wake-budget s)
        (λ _. wake-budget s)

  replace_tasks-budget :
      (o : Option (List Task)) (s : Session)
      → budget id (replace_tasks o s) ≤ budget id s + times_of id o
  unfolding budget
  replace_tasks-budget none s = omega arith
  replace_tasks-budget (some ts) s =
      let t : Session = record s { tasks = ts; task_idx = 0; stack_idx = suc s.stack_idx } in
      let le = interrupt-budget s.current_task t in omega arith

  replace_application-budget :
      (ts : List Task) (s : Session)
      → budget id (replace_application ts s) ≤ budget id s + times id ts
  unfolding replace_application
  replace_application-budget ts s =
      if-cases (λ r. budget id r ≤ budget id s + times id ts) s.call_gone _ _ (λ _. omega arith)
        (λ _.
          omega (arith, replace_tasks-budget (permitted s.kind ts) s, permitted-times id s.kind ts))

  -- Taking tasks away.
  fewer-budget :
      (ts : List Task) (n : ℕ) (s : Session)
      → times id ts ≤ times id s.tasks
      → budget id (record s { tasks = ts; task_idx = n }) ≤ budget id s
  unfolding budget
  fewer-budget ts n s h = omega arith

  kill_some-tasks : (o : Option Task) (s : Session) → (kill_some o s).tasks ≡ s.tasks
  kill_some-tasks none s = refl
  kill_some-tasks (some t) s = refl

  kill-budget : (on_barge_in : Bool) (s : Session) → budget id (kill on_barge_in s) ≤ budget id s
  unfolding kill times
  kill-budget on_barge_in s =
      let le =
        fewer-budget (if on_barge_in then clear_to_config s.tasks else []) 0 (kill_current s)
          (fewer on_barge_in) in
      omega (arith, le, kill_some-budget s.current_task s)
    where
      same : times id (kill_current s).tasks ≡ times id s.tasks
      same = ap (times id) (kill_some-tasks s.current_task s)

      fewer :
          (b : Bool)
          → times id (if b then clear_to_config s.tasks else []) ≤ times id (kill_current s).tasks
      fewer true = omega (arith, same, clear_to_config-times id s.tasks)
      fewer false = omega arith

  -- Setting the tasks.
  set-budget :
      (ts : List Task) (n : ℕ) (s : Session)
      → times id ts ≤ times id s.tasks + n
      → budget id (record s { tasks = ts }) ≤ budget id s + n
  unfolding budget
  set-budget ts n s h = omega arith

  kill_gather-budget :
      (o : Option Task) (s : Session)
      → budget id (kill_gather o s) ≤ budget id s × (kill_gather o s).tasks ≡ s.tasks
  unfolding budget
  kill_gather-budget none s = (omega arith, refl)
  kill_gather-budget (some t) s =
      if-cases (λ r. budget id r ≤ budget id s × r.tasks ≡ s.tasks) (is_gather t) _ _
        (λ _. (omega arith, refl)) (λ _. (omega arith, refl))

  inject_tasks-budget :
      (new : List Task) (s : Session) → budget id (inject_tasks new s) ≤ budget id s + times id new
  unfolding inject_tasks
  inject_tasks-budget new s =
      let (le, same) = kill_gather-budget s.current_task s in
      let kept = ap (times id) same in
      let set =
        set-budget (splice (has_gather new) new s.tasks) (times id new)
          (kill_gather s.current_task s)
          (omega (arith, kept, splice-times id (has_gather new) new s.tasks)) in
      omega arith

  redirects-budget :
      (n : ℕ) (s : Session) → budget id (record s { pending_redirects = n }) ≡ budget id s
  unfolding budget
  redirects-budget n s = refl

  on_redirect-budget :
      (queue inject : Bool) (new : List Task) (s : Session)
      → budget id (on_redirect queue inject new s) ≤ budget id s + times id new
  unfolding on_redirect
  on_redirect-budget false inject new s = omega (
    arith,
    redirects-budget (suc s.pending_redirects) s,
    replace_application-budget new (record s { pending_redirects = suc s.pending_redirects }),
  )
  on_redirect-budget true true new s = omega (
    arith,
    redirects-budget (suc s.pending_redirects) s,
    inject_tasks-budget new (record s { pending_redirects = suc s.pending_redirects }),
  )
  on_redirect-budget true false new s = omega (
    arith,
    redirects-budget (suc s.pending_redirects) s,
    set-budget (s.tasks ++ new) (times id new)
        (record s { pending_redirects = suc s.pending_redirects })
        (omega (arith, times-append id s.tasks new)),
  )

  end_redirect-budget : (n : ℕ) (s : Session) → budget id (end_redirect n s) ≤ budget id s
  end_redirect-budget zero s = omega arith
  end_redirect-budget (suc n) s =
      omega (arith, wake-budget (record s { pending_redirects = n }), redirects-budget n s)

  redirect_over-budget : (s : Session) → budget id (redirect_over s) ≤ budget id s
  unfolding redirect_over
  redirect_over-budget s = end_redirect-budget s.pending_redirects s

  gone-budget : (s : Session) → budget id (record s { call_gone = true }) ≤ budget id s
  unfolding budget
  gone-budget s = omega arith

  call_released-budget : (s : Session) → budget id (call_released s) ≤ budget id s
  unfolding call_released
  call_released-budget s =
      let gone : Session = record s { call_gone = true } in
      omega (
        arith,
        wake-budget (kill_current gone),
        kill_some-budget s.current_task gone,
        gone-budget s,
      )

  -- Between two tasks.
  idle-budget :
      (s : Session) → budget id (after_task (record s { current_task = none })) ≤ budget id s
  unfolding budget
  idle-budget s = after_task-budget (record s { current_task = none })

  prepare_at-budget :
      (r : Prepared) (p : Phase) (s : Session)
      → s.phase ≡ p
      → budget id (prepare_at r p s) ≤ budget id s
  unfolding prepared budget times
  prepare_at-budget ready (preparing t) s h =
      let here = ap (held id) h in omega (arith, here, times-append id s.started (t ∷ []))
  prepare_at-budget skipped (preparing t) s h = idle-budget s
  prepare_at-budget task_error (preparing t) s h = idle-budget s
  prepare_at-budget fatal_error (preparing t) s h = omega arith
  prepare_at-budget r (executing t) s h = omega arith
  prepare_at-budget r waiting s h = omega arith
  prepare_at-budget r woken s h = omega arith
  prepare_at-budget r over s h = omega arith

  finish_at-budget :
      (fatal : Bool) (p : Phase) (s : Session) → budget id (finish_at fatal p s) ≤ budget id s
  unfolding finished budget
  finish_at-budget true (executing t) s = omega arith
  finish_at-budget false (executing t) s = idle-budget s
  finish_at-budget fatal (preparing t) s = omega arith
  finish_at-budget fatal waiting s = omega arith
  finish_at-budget fatal woken s = omega arith
  finish_at-budget fatal over s = omega arith

  resume_at-budget : (p : Phase) (s : Session) → budget id (resume_at p s) ≤ budget id s
  unfolding resumed budget
  resume_at-budget woken s =
      if-cases (λ r. budget id r ≤ budget id s) s.call_gone _ _ (λ _. omega arith)
        (λ _. loop-budget s)
  resume_at-budget (preparing t) s = omega arith
  resume_at-budget (executing t) s = omega arith
  resume_at-budget waiting s = omega arith
  resume_at-budget over s = omega arith

  step-budget : (op : Op) (s : Session) → budget id (step op s) ≤ budget id s + given id op
  unfolding step given
  step-budget (prepares r) s = omega (arith, prepare_at-budget r s.phase s refl)
  step-budget (finishes fatal) s = omega (arith, finish_at-budget fatal s.phase s)
  step-budget resumes s = omega (arith, resume_at-budget s.phase s)
  step-budget (redirects queue inject ts) s = on_redirect-budget queue inject ts s
  step-budget redirect_ends s = omega (arith, redirect_over-budget s)
  step-budget (replaces ts) s = replace_application-budget ts s
  step-budget (kills on_barge_in) s = omega (arith, kill-budget on_barge_in s)
  step-budget releases s = omega (arith, call_released-budget s)

  run-budget : (ops : List Op) (s : Session) → budget id (run ops s) ≤ budget id s + given_in id ops
  unfolding run given_in
  run-budget [] s = omega arith
  run-budget (op ∷ ops) s = omega (arith, step-budget op s, run-budget ops (step op s))

  -- After any list of steps of `exec`, redirect commands, replacements, kills and releases, a task
  -- was started at most as often as it was started, queued or in preparation before, and given by
  -- the commands and replacements since.
  pub run_starts_given :
      (ops : List Op) (s : Session) → times id (run ops s).started ≤ budget id s + given_in id ops
  unfolding budget
  run_starts_given ops s = omega (arith, run-budget ops s)
