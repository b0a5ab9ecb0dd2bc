-- ===== src/Dial/Race.antt =====
-- What can happen to a dial of lib/tasks/dial.js. A handler is called while the dial has it.
use jambonz_feature_server.Prelude.{ℕ, Bool, List, [], ◌∷◌, if◌then◌else◌}
use jambonz_feature_server.Dial.{
  Settings, Status, Dial, mem, place, on_call_status_change, on_leg_failed, on_accept,
  answer_propagated, on_ring_timeout, on_destroy, outdial_killed, on_max_call_duration, kill,
}

pub data Op : Type 0 where
  places : ℕ → Op
  reports : ℕ → Status → ℕ → Bool → Op
  fails accepts : ℕ → Op
  propagates : ℕ → Bool → Op
  -- A leg that a run of `_killOutdials` awaits is killed.
  kill_ends : ℕ → Op
  hangs_up : ℕ → Op
  ring_timer_fires max_duration_fires is_killed : Op

abbrev pub is_heard : ℕ → Dial → Bool
is_heard s d = mem s d.heard

unfoldable pub step : Settings → Op → Dial → Dial
unfolding place on_call_status_change on_leg_failed on_accept answer_propagated on_ring_timeout
    on_destroy outdial_killed on_max_call_duration kill mem
step o (places s) d = place s d
step o (reports s status sip info) d =
    if is_heard s d then on_call_status_change o s status sip info d else d
step o (fails s) d = if is_heard s d then on_leg_failed s d else d
step o (accepts s) d = if is_heard s d then on_accept o s d else d
step o (propagates s ok) d = if mem s d.connecting then answer_propagated o s ok d else d
step o (kill_ends i) d = outdial_killed i d
step o (hangs_up s) d = if mem s d.live then on_destroy s d else d
step o ring_timer_fires d = if d.timer_ring then on_ring_timeout d else d
step o max_duration_fires d = if d.timer_max_call_duration then on_max_call_duration d else d
step o is_killed d = kill d

unfoldable pub run : Settings → List Op → Dial → Dial
unfolding step
run o [] d = d
run o (op ∷ ops) d = run o ops (step o op d)
