-- ===== src/Session/Execution.antt =====
-- Runs of the task list of lib/session/call-session.js.
use jambonz_feature_server.Prelude.{Bool, List, [], ◌∷◌}
use jambonz_feature_server.Session.{
  Task, Phase, preparing, executing, woken, Session, Prepared, prepared, finished, resumed,
  replace_application, kill, on_redirect, redirect_over, call_released,
}

-- What can happen: a step of `exec`, a redirect command and its end, a replacement, a barge-in or another kill, and
-- the end of the call.
pub data Op : Type 0 where
  prepares : Prepared → Op
  finishes : Bool → Op
  resumes : Op
  redirects : Bool → Bool → List Task → Op
  redirect_ends : Op
  replaces : List Task → Op
  kills : Bool → Op
  releases : Op

-- A step of `exec` happens only where `exec` stands before it.
abbrev pub prepare_at : Prepared → Phase → Session → Session
prepare_at r (preparing t) s = prepared r t s
prepare_at r _ s = s

abbrev pub finish_at : Bool → Phase → Session → Session
finish_at fatal (executing t) s = finished fatal s
finish_at fatal _ s = s

abbrev pub resume_at : Phase → Session → Session
resume_at woken s = resumed s
resume_at _ s = s

unfoldable pub step : Op → Session → Session
step (prepares r) s = prepare_at r s.phase s
step (finishes fatal) s = finish_at fatal s.phase s
step resumes s = resume_at s.phase s
step (redirects queue inject ts) s = on_redirect queue inject ts s
step redirect_ends s = redirect_over s
step (replaces ts) s = replace_application ts s
step (kills on_barge_in) s = kill on_barge_in s
step releases s = call_released s

unfoldable pub run : List Op → Session → Session
unfolding step
run [] s = s
run (op ∷ ops) s = run ops (step op s)
