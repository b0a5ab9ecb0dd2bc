-- ===== src/Dial/Orderly.antt =====
-- Runs of lib/tasks/dial.js that keep their legs tracked.
use jambonz_feature_server.Prelude.{
  ◌≡◌, Bool, true, false, not, ◌&&◌, List, [], ◌∷◌, if-cases, and-true,
}
use jambonz_feature_server.Dial.{
  Settings, rings_out, Dial, mem, delete, is_none, create, lose, accept_failed, answer_propagated,
  on_ring_timeout, on_destroy, on_max_call_duration,
}
use jambonz_feature_server.Dial.Race.{
  Op, places, reports, fails, accepts, propagates, kill_ends, hangs_up, ring_timer_fires,
  max_duration_fires, is_killed, is_heard, step, run,
}
use jambonz_feature_server.Dial.Tracking.{
  AllCover, IsTracked, kill_outdials-IsTracked, kill-IsTracked, outdial_killed-IsTracked,
}
use jambonz_feature_server.Dial.Legs.{
  no_loop, lose-IsTracked, place-IsTracked, on_leg_failed-IsTracked,
  on_call_status_change-IsTracked, select_single_dial-IsTracked, on_accept-IsTracked,
}

-- No leg is accepted while one is chosen, and none placed while others are being killed.
abbrev pub is_orderly : Op → Dial → Bool
is_orderly (accepts s) d = is_none d.sd
is_orderly (places s) d = no_loop d.loops
is_orderly _ d = true

unfoldable pub all_orderly : Settings → List Op → Dial → Bool
all_orderly o [] d = true
all_orderly o (op ∷ ops) d = is_orderly op d && all_orderly o ops (step o op d)

module _ (o : Settings) where
  pub step-IsTracked :
      (op : Op) (d : Dial) → is_orderly op d ≡ true → IsTracked d → IsTracked (step o op d)
  unfolding step answer_propagated accept_failed on_ring_timeout on_destroy on_max_call_duration
  step-IsTracked (places s) d p h = place-IsTracked s d p h
  step-IsTracked (reports s status sip info) d p h =
      if-cases IsTracked (is_heard s d) _ _
        (λ _. on_call_status_change-IsTracked o s status sip info d h) (λ _. h)
  step-IsTracked (fails s) d p h =
      if-cases IsTracked (is_heard s d) _ _ (λ _. on_leg_failed-IsTracked s d h) (λ _. h)
  step-IsTracked (accepts s) d p h =
      if-cases IsTracked (is_heard s d) _ _ (λ _. on_accept-IsTracked o s d p h) (λ _. h)
  step-IsTracked (propagates s true) d p h =
      if-cases IsTracked (mem s d.connecting) _ _
        (λ _. select_single_dial-IsTracked o s (record d { connecting = delete s d.connecting }) h)
        (λ _. h)
  step-IsTracked (propagates s false) d p h =
      if-cases IsTracked (mem s d.connecting) _ _
        (λ _.
          kill-IsTracked (record d { connecting = delete s d.connecting; heard = delete s d.heard })
            h)
        (λ _. h)
  step-IsTracked (kill_ends i) d p h = outdial_killed-IsTracked i d h
  step-IsTracked (hangs_up s) d p h =
      let l = lose-IsTracked s d h in
      if-cases IsTracked (mem s d.live) (on_destroy s d) _
        (λ _.
          if-cases IsTracked (mem s d.watched && not (is_none d.sd)) _ _
            (λ _. kill-IsTracked (record (lose s d) { timer_max_call_duration = false }) l)
            (λ _. l))
        (λ _. h)
  step-IsTracked ring_timer_fires d p h =
      if-cases IsTracked d.timer_ring _ _
        (λ _. kill_outdials-IsTracked rings_out (record d { timer_ring = false }) h) (λ _. h)
  step-IsTracked max_duration_fires d p h =
      if-cases IsTracked d.timer_max_call_duration _ _
        (λ _. kill-IsTracked (record d { timer_max_call_duration = false }) h) (λ _. h)
  step-IsTracked is_killed d p h = kill-IsTracked d h

  pub run-IsTracked :
      (ops : List Op) (d : Dial)
      → all_orderly o ops d ≡ true
      → IsTracked d
      → IsTracked (run o ops d)
  unfolding run all_orderly
  run-IsTracked [] d p h = h
  run-IsTracked (op ∷ ops) d p h =
      let both = and-true (is_orderly op d) (all_orderly o ops (step o op d)) p in
      run-IsTracked ops (step o op d) both.1 (step-IsTracked op d both.0 h)

pub create-IsTracked : IsTracked create
unfolding create mem AllCover
create-IsTracked = (λ s m. cc, tt)
