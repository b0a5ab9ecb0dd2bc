-- ===== src/Conference/Examples.antt =====
-- Callers of lib/tasks/conference.js that wait for one that starts the conference.
use jambonz_feature_server.Prelude.{◌≡◌, refl, true, [], ◌∷◌, arith}
use jambonz_feature_server.Conference.{
  Conference, create, init, add_to_wait_list, do_wait, provision, looks, adds, waits, is_killed,
  provisions, retrieves, notifies, step, run,
}
use jambonz_feature_server.Conference.Waiting.{is_joining}
use jambonz_feature_server.Conference.Ending.{waiting_caller_joins}
use jambonz_feature_server.Conference.Late.{is_apart, late_caller_never_joins}

-- The callers 1 and 2 wait, 3 has seen no conference, and the starter has joined.
abbrev begun : Conference
unfolding run step init add_to_wait_list do_wait provision
begun =
    run (looks 1 ∷ adds 1 ∷ waits 1 ∷ looks 2 ∷ adds 2 ∷ waits 2 ∷ looks 3 ∷ provisions ∷ []) create

waiting_caller_joins_example :
    is_joining (
      (run
          (retrieves true
            ∷ notifies true
            ∷ is_killed 1
            ∷ adds 3
            ∷ notifies true
            ∷ notifies true
            ∷ [])
          begun).phase
        2)
    ≡ true
unfolding begun run step init add_to_wait_list do_wait provision
waiting_caller_joins_example =
    waiting_caller_joins 2
      (notifies true ∷ is_killed 1 ∷ adds 3 ∷ notifies true ∷ notifies true ∷ []) begun refl refl
      refl refl (omega arith)

late_caller_never_joins_example :
    is_apart (
      (run
          (retrieves true ∷ adds 3 ∷ waits 3 ∷ notifies true ∷ notifies true ∷ notifies true ∷ [])
          begun).phase
        3)
    ≡ true
unfolding begun run step init add_to_wait_list do_wait provision
late_caller_never_joins_example =
    late_caller_never_joins 3
      (adds 3 ∷ waits 3 ∷ notifies true ∷ notifies true ∷ notifies true ∷ []) begun refl refl refl
