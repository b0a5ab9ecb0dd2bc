-- ===== src/Conference/Ending.antt =====
-- The starter notifies the waiting list to its end, and those that wait join.
use jambonz_feature_server.Prelude.{
  ℕ, suc, ◌+◌, ◌≤◌, Bool, true, List, [], ◌∷◌, ◌≡◌, refl, ap, ◌∙◌, if-cases, length, arith,
}
use jambonz_feature_server.Conference.{
  Phase, looking, adding, listed, waiting, joining, gone, Starter, idle, starting, notifying, done,
  Conference, has_member, init_in, init, add_in, add_to_wait_list, wait_in, do_wait, kill_in, kill,
  provision_in, provision, retrieve_in, retrieve_set, join_in, notify_in, notify_next, Op, looks,
  adds, waits, is_killed, provisions, retrieves, notifies, step, run,
}
use jambonz_feature_server.Conference.Waiting.{
  has_retrieved, is_joining, is_waiting, all_spare, run-IsServed, retrieved, ended,
}

-- The rounds of the loop of `_doStart` that are left.
abbrev pub rounds : Starter → ℕ
rounds (notifying is any) = suc (length is)
rounds idle = 0
rounds starting = 0
rounds done = 0

abbrev pub round_in : Op → ℕ
round_in (notifies ok) = 1
round_in _ = 0

abbrev pub rounds_in : List Op → ℕ
rounds_in [] = 0
rounds_in (op ∷ ops) = round_in op + rounds_in ops

module _ (i : ℕ) (c : Conference) where
  init_starter : (p : Phase) → (init_in p i c).starter ≡ c.starter
  init_starter looking =
      if-cases (λ (d : Conference). d.starter ≡ c.starter) c.provisioned _ _ (λ _. refl) (λ _. refl)
  init_starter adding = refl
  init_starter listed = refl
  init_starter waiting = refl
  init_starter joining = refl
  init_starter gone = refl

  add_starter : (p : Phase) → (add_in p i c).starter ≡ c.starter
  add_starter looking = refl
  add_starter adding =
      if-cases (λ (d : Conference). d.starter ≡ c.starter) (has_member i c.wait_list) _ _
        (λ _. refl) (λ _. refl)
  add_starter listed = refl
  add_starter waiting = refl
  add_starter joining = refl
  add_starter gone = refl

  wait_starter : (p : Phase) → (wait_in p i c).starter ≡ c.starter
  wait_starter looking = refl
  wait_starter adding = refl
  wait_starter listed = refl
  wait_starter waiting = refl
  wait_starter joining = refl
  wait_starter gone = refl

  kill_starter : (p : Phase) → (kill_in p i c).starter ≡ c.starter
  kill_starter looking = refl
  kill_starter adding = refl
  kill_starter listed = refl
  kill_starter waiting = refl
  kill_starter joining = refl
  kill_starter gone = refl

  join_starter : (p : Phase) → (join_in p i c).starter ≡ c.starter
  join_starter looking = refl
  join_starter adding = refl
  join_starter listed = refl
  join_starter waiting = refl
  join_starter joining = refl
  join_starter gone = refl

-- The starter is past the retrieval, with so many rounds left.
abbrev pub HasLeft : ℕ → Starter → Type 0
HasLeft n s = (has_retrieved s ≡ true) × (rounds s ≤ n)

as_before : (n : ℕ) (s t : Starter) → t ≡ s → HasLeft n s → HasLeft n t
as_before n s t e (r, h) = (ap has_retrieved e ∙ r, omega (arith, ap rounds e, h))

provision_left :
    (n : ℕ) (s : Starter) (c : Conference)
    → c.starter ≡ s
    → HasLeft n s
    → HasLeft n (provision_in s c).starter
provision_left n idle c e h = cc
provision_left n starting c e h = cc
provision_left n (notifying is any) c e h = as_before n (notifying is any) c.starter e h
provision_left n done c e h = as_before n done c.starter e h

retrieve_left :
    (n : ℕ) (s : Starter) (ok : Bool) (c : Conference)
    → c.starter ≡ s
    → HasLeft n s
    → HasLeft n (retrieve_in s ok c).starter
retrieve_left n idle ok c e h = cc
retrieve_left n starting ok c e h = cc
retrieve_left n (notifying is any) ok c e h = as_before n (notifying is any) c.starter e h
retrieve_left n done ok c e h = as_before n done c.starter e h

notify_left :
    (n : ℕ) (s : Starter) (ok : Bool) (c : Conference)
    → c.starter ≡ s
    → HasLeft (suc n) s
    → HasLeft n (notify_in s ok c).starter
notify_left n idle ok c e h = cc
notify_left n starting ok c e h = cc
notify_left n (notifying (j ∷ is) any) ok c e h =
    let told : Conference = record c { starter = notifying is any } in
    if-cases (λ (d : Conference). HasLeft n d.starter) ok _ _
      (λ _.
        as_before n (notifying is any) (join_in (c.phase j) j told).starter
          (join_starter j told (c.phase j)) (refl, omega (arith, h.1)))
      (λ _. (refl, omega (arith, h.1)))
notify_left n (notifying [] any) ok c e h = (refl, omega arith)
notify_left n done ok c e h = as_before n done c.starter e (refl, omega arith)

step_left :
    (n : ℕ) (op : Op) (c : Conference)
    → HasLeft (round_in op + n) c.starter
    → HasLeft n (step op c).starter
unfolding step init add_to_wait_list do_wait kill provision retrieve_set notify_next
step_left n (looks j) c h =
    as_before n c.starter (init_in (c.phase j) j c).starter (init_starter j c (c.phase j))
      (h.0, omega (arith, h.1))
step_left n (adds j) c h =
    as_before n c.starter (add_in (c.phase j) j c).starter (add_starter j c (c.phase j))
      (h.0, omega (arith, h.1))
step_left n (waits j) c h =
    as_before n c.starter (wait_in (c.phase j) j c).starter (wait_starter j c (c.phase j))
      (h.0, omega (arith, h.1))
step_left n (is_killed j) c h =
    as_before n c.starter (kill_in (c.phase j) j c).starter (kill_starter j c (c.phase j))
      (h.0, omega (arith, h.1))
step_left n provisions c h = provision_left n c.starter c refl (h.0, omega (arith, h.1))
step_left n (retrieves ok) c h = retrieve_left n c.starter ok c refl (h.0, omega (arith, h.1))
step_left n (notifies ok) c h = notify_left n c.starter ok c refl (h.0, omega (arith, h.1))

run_ends :
    (ops : List Op) (c : Conference)
    → HasLeft (rounds_in ops) c.starter
    → (run ops c).starter ≡ done
unfolding run
run_ends [] c (r, h) = none_left c.starter r h
  where
    none_left : (s : Starter) → has_retrieved s ≡ true → rounds s ≤ 0 → s ≡ done
    none_left idle r h = cc
    none_left starting r h = cc
    none_left done r h = refl
    none_left (notifying is any) r h = absurd (omega (arith, h))
run_ends (op ∷ ops) c h = run_ends ops (step op c) (step_left (rounds_in ops) op c h)

retrieved_left :
    (n : ℕ) (s : Starter) (c : Conference)
    → s ≡ starting
    → suc (length c.wait_list) ≤ n
    → HasLeft n (retrieve_in s true c).starter
retrieved_left n starting c e h = (refl, h)
retrieved_left n idle c e h = cc
retrieved_left n (notifying is any) c e h = cc
retrieved_left n done c e h = cc

-- Let the starter of a conference have joined it, and a caller listen in `_doWait` with its url in
-- the waiting list. The starter retrieves the list without an error, and then any steps follow, of
-- any callers, in which the caller is not killed, no POST to a member fails, and the loop of
-- `_doStart` has one round more than the list is long. Then the caller joins.
pub waiting_caller_joins :
    (i : ℕ) (ops : List Op) (c : Conference)
    → c.starter ≡ starting
    → is_waiting (c.phase i) ≡ true
    → has_member i c.wait_list ≡ true
    → all_spare i ops ≡ true
    → suc (length c.wait_list) ≤ rounds_in ops
    → is_joining ((run (retrieves true ∷ ops) c).phase i) ≡ true
unfolding run step retrieve_set
waiting_caller_joins i ops c s w m o n =
    let end = run ops (retrieve_set true c) in
    let h = run-IsServed i ops (retrieve_set true c) o (retrieved i c.starter c s w m) in
    ended i end.starter (end.phase i)
      (run_ends ops (retrieve_set true c) (retrieved_left (rounds_in ops) c.starter c s n)) h.1
