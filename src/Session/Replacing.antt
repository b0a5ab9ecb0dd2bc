-- ===== src/Session/Replacing.antt =====
-- What a replacement of the application does to the loop of lib/session/call-session.js.
use jambonz_feature_server.Prelude.{
  suc, ◌≡◌, refl, ap, ◌∙◌, Bool, true, false, none, List, [], ◌∷◌, if◌then◌else◌, if-cases, arith,
}
use jambonz_feature_server.Session.{
  Task, Kind, siprec, confirm, waiting, woken, over, Session, next_task, loop, resumed, wake, prune,
  permitted, some_tasks, replace_tasks, replace_application, on_redirect, redirect_over,
  end_redirect, allowed_siprec_verbs, allowed_confirm_session_verbs, includes,
}
use jambonz_feature_server.Session.Execution.{resumes, step}

-- A replacement with no task that is permitted.
ignored : (ts : List Task) (s : Session) → permitted s.kind ts ≡ none → replace_application ts s ≡ s
unfolding replace_application
ignored ts s h =
    if-cases (λ r. r ≡ s) s.call_gone _ _ (λ _. refl) (λ _. ap (λ o. replace_tasks o s) h)

siprec_none :
    (ts : List Task) (k : Kind)
    → k ≡ siprec
    → prune allowed_siprec_verbs ts ≡ []
    → permitted k ts ≡ none
unfolding permitted
siprec_none ts k kind pruned = ap (λ (x : Kind). permitted x ts) kind ∙ ap some_tasks pruned

wake_waiting :
    (s : Session)
    → s.phase ≡ waiting
    → s.wakeup_resolver ≡ true
    → wake s ≡ record s { phase = woken; wakeup_resolver = false }
unfolding wake
wake_waiting s waits waker = ground arith

resume_empty :
    (s : Session)
    → s.tasks ≡ []
    → (step resumes (record s { phase = woken; wakeup_resolver = false })).phase ≡ over
unfolding step resumed loop
resume_empty s empty =
    if-cases {A = Session} (λ r. r.phase ≡ over) s.call_gone _ _ (λ _. refl)
      (λ _.
        if-cases {A = Session} (λ r. r.phase ≡ over) s.call_gone _ _ (λ _. refl)
          (λ _. none_left s.tasks empty))
  where
    w : Session
    w = record s { phase = woken; wakeup_resolver = false }

    none_left : (ts : List Task) → ts ≡ [] → (next_task ts w).phase ≡ over
    none_left [] e = refl
    none_left (t ∷ ts) e = cc

-- Where a SIPREC session waits for commands, with its resolver set and no task queued, a redirect
-- command that does not queue and has no permitted verb wakes the loop at its end, which then ends.
pub siprec_redirect_ends :
    (ts : List Task) (inject : Bool) (s : Session)
    → s.kind ≡ siprec
    → prune allowed_siprec_verbs ts ≡ []
    → s.phase ≡ waiting
    → s.wakeup_resolver ≡ true
    → s.tasks ≡ []
    → (step resumes (redirect_over (on_redirect false inject ts s))).phase ≡ over
unfolding on_redirect redirect_over
siprec_redirect_ends ts inject s kind pruned waits waker empty =
    let under_way : Session = record s { pending_redirects = suc s.pending_redirects } in
    ap (λ r. (step resumes r).phase)
      (ap (λ (r : Session). end_redirect r.pending_redirects r)
          (ignored ts under_way (siprec_none ts s.kind kind pruned))
        ∙ wake_waiting s waits waker)
    ∙ resume_empty s empty

play_pruned : (t : Task) → t.name ≡ "play" → prune allowed_confirm_session_verbs (t ∷ []) ≡ []
unfolding prune includes
play_pruned t name =
    let out : includes t.name allowed_confirm_session_verbs ≡ false =
      ap (λ n. includes n allowed_confirm_session_verbs) name in
    ap (λ (b : Bool). if b then t ∷ [] else []) out

-- The replacement of the application of a confirm session by a single play changes nothing.
pub confirm_ignores_play :
    (t : Task) (s : Session)
    → s.kind ≡ confirm
    → t.name ≡ "play"
    → replace_application (t ∷ []) s ≡ s
unfolding permitted
confirm_ignores_play t s kind name =
    ignored (t ∷ []) s
      (ap (λ (x : Kind). permitted x (t ∷ [])) kind ∙ ap some_tasks (play_pruned t name))
