-- ===== src/Tracker/Examples.antt =====
-- Sessions tracked by lib/session/session-tracker.js.
use jambonz_feature_server.Prelude.{ℕ, ◌≡◌, none, List, [], ◌∷◌}
use jambonz_feature_server.Tracker.{create, get}
use jambonz_feature_server.Tracker.Refinement.{Op, adds, removes, run, held, run_refines}

abbrev calls : List (Op ℕ)
calls = adds "a" 1 ∷ adds "b" 2 ∷ adds "a" 3 ∷ removes "b" ∷ adds "b" 4 ∷ removes "a" ∷ []

run_refines_example : get "b" (run calls create) ≡ held "b" calls none
run_refines_example = run_refines calls "b"
