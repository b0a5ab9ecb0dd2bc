-- ===== src/Conference/Waiting.antt =====
-- What keeps a caller served that waits when the waiting list is retrieved.
use jambonz_feature_server.Prelude.{
  ℕ, Bool, true, false, not, ◌&&◌, ◌||◌, List, [], ◌∷◌, ◌==◌, ◌≡◌, refl, sym, ap, ◌∙◌, if-cases,
  and-true, Bool-cases, inl, inr, arith,
}
use jambonz_feature_server.Conference.{
  Phase, looking, adding, listed, waiting, joining, gone, Starter, idle, starting, notifying, done,
  Conference, has_member, set_phase, init_in, init, add_in, add_to_wait_list, wait_in, do_wait,
  kill_in, kill, provision_in, provision, retrieve_in, retrieve_set, join_in, notify_in,
  notify_next, Op, looks, adds, waits, is_killed, provisions, retrieves, notifies, step, run,
}

-- Those that the starter has still to notify, once it has retrieved the waiting list.
abbrev pub pending : Starter → List ℕ
pending (notifying is any) = is
pending idle = []
pending starting = []
pending done = []

abbrev pub has_retrieved : Starter → Bool
has_retrieved (notifying is any) = true
has_retrieved done = true
has_retrieved idle = false
has_retrieved starting = false

abbrev pub is_joining : Phase → Bool
is_joining joining = true
is_joining _ = false

abbrev pub is_waiting : Phase → Bool
is_waiting waiting = true
is_waiting _ = false

pub same_number : (i j : ℕ) → (i == j) ≡ true → i ≡ j
same_number i j e = ground (arith, e)

-- What holds of a phase holds of it after a caller has moved.
pub set_phase_keeps :
    (Q : Phase → Bool) (i j : ℕ) (p : Phase) (c : Conference)
    → (i ≡ j → Q p ≡ true)
    → Q (c.phase i) ≡ true
    → Q ((set_phase j p c).phase i) ≡ true
set_phase_keeps Q i j p c k h =
    if-cases (λ (x : Phase). Q x ≡ true) (i == j) _ _ (λ e. k (same_number i j e)) (λ _. h)

-- A caller has joined, or it waits and is to be notified.
abbrev pub is_served : Phase → Bool → Bool
is_served p told = is_joining p || (is_waiting p && told)

abbrev pub IsServed : ℕ → Conference → Type 0
IsServed i c =
    (has_retrieved c.starter ≡ true)
    × (is_served (c.phase i) (has_member i (pending c.starter)) ≡ true)

module _ (i j : ℕ) (c : Conference) where
  -- The caller `i` where the phase of `j` is known.
  at :
      (p : Phase) (b : Bool)
      → c.phase j ≡ p
      → is_served (c.phase i) b ≡ true
      → i ≡ j
      → is_served p b ≡ true
  at p b e h same = ap (λ x. is_served x b) (sym (ap c.phase same ∙ e)) ∙ h

  init-IsServed : (p : Phase) → c.phase j ≡ p → IsServed i c → IsServed i (init_in p j c)
  init-IsServed looking e (r, h) =
      let b = has_member i (pending c.starter) in
      let Q : Phase → Bool = λ x. is_served x b in
      if-cases (IsServed i) c.provisioned _ _
        (λ _. (r, set_phase_keeps Q i j joining c (λ _. refl) h))
        (λ _. (r, set_phase_keeps Q i j adding c (λ same. at looking b e h same) h))
  init-IsServed adding e h = h
  init-IsServed listed e h = h
  init-IsServed waiting e h = h
  init-IsServed joining e h = h
  init-IsServed gone e h = h

  add-IsServed : (p : Phase) → c.phase j ≡ p → IsServed i c → IsServed i (add_in p j c)
  add-IsServed adding e (r, h) =
      let b = has_member i (pending c.starter) in
      let Q : Phase → Bool = λ x. is_served x b in
      if-cases (IsServed i) (has_member j c.wait_list) _ _
        (λ _. (r, set_phase_keeps Q i j gone c (λ same. at adding b e h same) h))
        (λ _. (r, set_phase_keeps Q i j listed c (λ same. at adding b e h same) h))
  add-IsServed looking e h = h
  add-IsServed listed e h = h
  add-IsServed waiting e h = h
  add-IsServed joining e h = h
  add-IsServed gone e h = h

  wait-IsServed : (p : Phase) → c.phase j ≡ p → IsServed i c → IsServed i (wait_in p j c)
  wait-IsServed listed e (r, h) =
      let b = has_member i (pending c.starter) in
      (
        r,
        set_phase_keeps (λ x. is_served x b) i j waiting c
            (λ same. absurd (unlisted b (at listed b e h same))) h,
      )
    where
      unlisted : (b : Bool) → is_served listed b ≡ true → ⊥
      unlisted b h = cc
  wait-IsServed looking e h = h
  wait-IsServed adding e h = h
  wait-IsServed waiting e h = h
  wait-IsServed joining e h = h
  wait-IsServed gone e h = h

  kill-IsServed :
      (p : Phase) → c.phase j ≡ p → not (j == i) ≡ true → IsServed i c → IsServed i (kill_in p j c)
  kill-IsServed waiting e n (r, h) =
      let b = has_member i (pending c.starter) in
      (r, set_phase_keeps (λ x. is_served x b) i j gone c (λ same. ground (arith, n, same)) h)
  kill-IsServed looking e n h = h
  kill-IsServed adding e n h = h
  kill-IsServed listed e n h = h
  kill-IsServed joining e n h = h
  kill-IsServed gone e n h = h

  -- A caller that does not wait is notified in vain.
  skipped :
      (is : List ℕ)
      → is_waiting (c.phase j) ≡ false
      → is_served (c.phase i) (has_member i (j ∷ is)) ≡ true
      → is_served (c.phase i) (has_member i is) ≡ true
  skipped is w h = elim (Bool-cases (j == i)) [
    | inl e ↦
        (let u = ap (λ x. is_waiting (c.phase x)) (sym (same_number j i e)) ∙ w in
          ground (arith, h, u))
    | inr n ↦ ground (arith, h, n)
  ]

  -- The caller `j` is notified, and `is` are left.
  join-IsServed :
      (p : Phase) (is : List ℕ) (any : Bool)
      → c.phase j ≡ p
      → is_served (c.phase i) (has_member i (j ∷ is)) ≡ true
      → IsServed i (join_in p j (record c { starter = notifying is any }))
  join-IsServed waiting is any e h = (
    refl,
    if-cases (λ (x : Phase). is_served x (has_member i is) ≡ true) (i == j) _ _ (λ _. refl)
        (λ n. ground (arith, h, n)),
  )
  join-IsServed looking is any e h = (refl, skipped is (ap is_waiting e) h)
  join-IsServed adding is any e h = (refl, skipped is (ap is_waiting e) h)
  join-IsServed listed is any e h = (refl, skipped is (ap is_waiting e) h)
  join-IsServed joining is any e h = (refl, skipped is (ap is_waiting e) h)
  join-IsServed gone is any e h = (refl, skipped is (ap is_waiting e) h)

provision-IsServed :
    (i : ℕ) (s : Starter) (c : Conference)
    → c.starter ≡ s
    → IsServed i c
    → IsServed i (provision_in s c)
provision-IsServed i idle c e (r, h) = absurd (unready (sym (ap has_retrieved e) ∙ r))
  where
    unready : false ≡ true → ⊥
    unready x = cc
provision-IsServed i starting c e h = h
provision-IsServed i (notifying is any) c e h = h
provision-IsServed i done c e h = h

retrieve-IsServed :
    (i : ℕ) (s : Starter) (ok : Bool) (c : Conference)
    → c.starter ≡ s
    → IsServed i c
    → IsServed i (retrieve_in s ok c)
retrieve-IsServed i starting ok c e (r, h) = absurd (unready (sym (ap has_retrieved e) ∙ r))
  where
    unready : false ≡ true → ⊥
    unready x = cc
retrieve-IsServed i idle ok c e h = h
retrieve-IsServed i (notifying is any) ok c e h = h
retrieve-IsServed i done ok c e h = h

notify-IsServed :
    (i : ℕ) (s : Starter) (c : Conference)
    → c.starter ≡ s
    → IsServed i c
    → IsServed i (notify_in s true c)
notify-IsServed i (notifying (j ∷ is) any) c e (r, h) =
    join-IsServed i j c (c.phase j) is any refl
      (ap (λ s. is_served (c.phase i) (has_member i (pending s))) (sym e) ∙ h)
notify-IsServed i (notifying [] any) c e (r, h) =
    (refl, ap (λ s. is_served (c.phase i) (has_member i (pending s))) (sym e) ∙ h)
notify-IsServed i idle c e h = h
notify-IsServed i starting c e h = h
notify-IsServed i done c e h = h

-- No op of the list kills the caller, and no POST fails.
abbrev pub spares : ℕ → Op → Bool
spares i (is_killed j) = not (j == i)
spares i (notifies ok) = ok
spares i _ = true

abbrev pub all_spare : ℕ → List Op → Bool
all_spare i [] = true
all_spare i (op ∷ ops) = spares i op && all_spare i ops

step-IsServed :
    (i : ℕ) (op : Op) (c : Conference) → spares i op ≡ true → IsServed i c → IsServed i (step op c)
unfolding step init add_to_wait_list do_wait kill provision retrieve_set notify_next
step-IsServed i (looks j) c o h = init-IsServed i j c (c.phase j) refl h
step-IsServed i (adds j) c o h = add-IsServed i j c (c.phase j) refl h
step-IsServed i (waits j) c o h = wait-IsServed i j c (c.phase j) refl h
step-IsServed i (is_killed j) c o h = kill-IsServed i j c (c.phase j) refl o h
step-IsServed i provisions c o h = provision-IsServed i c.starter c refl h
step-IsServed i (retrieves ok) c o h = retrieve-IsServed i c.starter ok c refl h
step-IsServed i (notifies true) c o h = notify-IsServed i c.starter c refl h
step-IsServed i (notifies false) c o h = cc

pub run-IsServed :
    (i : ℕ) (ops : List Op) (c : Conference)
    → all_spare i ops ≡ true
    → IsServed i c
    → IsServed i (run ops c)
unfolding run
run-IsServed i [] c o h = h
run-IsServed i (op ∷ ops) c o h =
    let (now, later) = and-true (spares i op) (all_spare i ops) o in
    run-IsServed i ops (step op c) later (step-IsServed i op c now h)

pub retrieved :
    (i : ℕ) (s : Starter) (c : Conference)
    → s ≡ starting
    → is_waiting (c.phase i) ≡ true
    → has_member i c.wait_list ≡ true
    → IsServed i (retrieve_in s true c)
retrieved i starting c e w m = (refl, ground (arith, w, m))
retrieved i idle c e w m = cc
retrieved i (notifying is any) c e w m = cc
retrieved i done c e w m = cc

pub ended :
    (i : ℕ) (s : Starter) (p : Phase)
    → s ≡ done
    → is_served p (has_member i (pending s)) ≡ true
    → is_joining p ≡ true
ended i done p e h = ground (arith, h)
ended i idle p e h = cc
ended i starting p e h = cc
ended i (notifying is any) p e h = cc
