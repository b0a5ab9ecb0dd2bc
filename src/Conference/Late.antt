-- ===== src/Conference/Late.antt =====
-- A caller that is added to the waiting list too late.
use jambonz_feature_server.Prelude.{
  ℕ, Bool, true, false, List, [], ◌∷◌, ◌==◌, ◌≡◌, refl, sym, ap, ◌∙◌, if-cases, arith,
}
use jambonz_feature_server.Conference.{
  Phase, looking, adding, listed, waiting, joining, gone, Starter, idle, starting, notifying, done,
  Conference, has_member, init_in, init, add_in, add_to_wait_list, wait_in, do_wait, kill_in, kill,
  provision_in, provision, retrieve_in, retrieve_set, join_in, notify_in, notify_next, Op, looks,
  adds, waits, is_killed, provisions, retrieves, notifies, step, run,
}
use jambonz_feature_server.Conference.Waiting.{pending, has_retrieved, set_phase_keeps}

-- On its way to the end of `_doWait`, but not to a join.
abbrev pub is_apart : Phase → Bool
is_apart adding = true
is_apart listed = true
is_apart waiting = true
is_apart gone = true
is_apart looking = false
is_apart joining = false

-- The starter has retrieved the waiting list and will not notify the caller.
abbrev pub IsMissed : ℕ → Conference → Type 0
IsMissed i c =
    (has_retrieved c.starter ≡ true)
    × (has_member i (pending c.starter) ≡ false)
    × (is_apart (c.phase i) ≡ true)

module _ (i j : ℕ) (c : Conference) where
  init-IsMissed : (p : Phase) → c.phase j ≡ p → IsMissed i c → IsMissed i (init_in p j c)
  init-IsMissed looking e (r, m, h) =
      if-cases (IsMissed i) c.provisioned _ _
        (λ _. (r, m, set_phase_keeps is_apart i j joining c (λ same. absurd (looks_not same)) h))
        (λ _. (r, m, set_phase_keeps is_apart i j adding c (λ _. refl) h))
    where
      looks_not : i ≡ j → ⊥
      looks_not same = not_so (sym (ap is_apart (ap c.phase same ∙ e)) ∙ h)
        where
          not_so : false ≡ true → ⊥
          not_so x = cc
  init-IsMissed adding e h = h
  init-IsMissed listed e h = h
  init-IsMissed waiting e h = h
  init-IsMissed joining e h = h
  init-IsMissed gone e h = h

  add-IsMissed : (p : Phase) → IsMissed i c → IsMissed i (add_in p j c)
  add-IsMissed adding (r, m, h) =
      if-cases (IsMissed i) (has_member j c.wait_list) _ _
        (λ _. (r, m, set_phase_keeps is_apart i j gone c (λ _. refl) h))
        (λ _. (r, m, set_phase_keeps is_apart i j listed c (λ _. refl) h))
  add-IsMissed looking h = h
  add-IsMissed listed h = h
  add-IsMissed waiting h = h
  add-IsMissed joining h = h
  add-IsMissed gone h = h

  wait-IsMissed : (p : Phase) → IsMissed i c → IsMissed i (wait_in p j c)
  wait-IsMissed listed (r, m, h) = (r, m, set_phase_keeps is_apart i j waiting c (λ _. refl) h)
  wait-IsMissed looking h = h
  wait-IsMissed adding h = h
  wait-IsMissed waiting h = h
  wait-IsMissed joining h = h
  wait-IsMissed gone h = h

  kill-IsMissed : (p : Phase) → IsMissed i c → IsMissed i (kill_in p j c)
  kill-IsMissed waiting (r, m, h) = (r, m, set_phase_keeps is_apart i j gone c (λ _. refl) h)
  kill-IsMissed looking h = h
  kill-IsMissed adding h = h
  kill-IsMissed listed h = h
  kill-IsMissed joining h = h
  kill-IsMissed gone h = h

  join-IsMissed : (p : Phase) → (j == i) ≡ false → IsMissed i c → IsMissed i (join_in p j c)
  join-IsMissed waiting n (r, m, h) =
      (r, m, set_phase_keeps is_apart i j joining c (λ same. ground (arith, n, same)) h)
  join-IsMissed looking n h = h
  join-IsMissed adding n h = h
  join-IsMissed listed n h = h
  join-IsMissed joining n h = h
  join-IsMissed gone n h = h

provision-IsMissed :
    (i : ℕ) (s : Starter) (c : Conference)
    → c.starter ≡ s
    → has_retrieved s ≡ true
    → IsMissed i c
    → IsMissed i (provision_in s c)
provision-IsMissed i idle c e r h = cc
provision-IsMissed i starting c e r h = h
provision-IsMissed i (notifying is any) c e r h = h
provision-IsMissed i done c e r h = h

retrieve-IsMissed :
    (i : ℕ) (s : Starter) (ok : Bool) (c : Conference)
    → c.starter ≡ s
    → has_retrieved s ≡ true
    → IsMissed i c
    → IsMissed i (retrieve_in s ok c)
retrieve-IsMissed i starting ok c e r h = cc
retrieve-IsMissed i idle ok c e r h = h
retrieve-IsMissed i (notifying is any) ok c e r h = h
retrieve-IsMissed i done ok c e r h = h

notify-IsMissed :
    (i : ℕ) (s : Starter) (ok : Bool) (c : Conference)
    → has_member i (pending s) ≡ false
    → is_apart (c.phase i) ≡ true
    → IsMissed i c
    → IsMissed i (notify_in s ok c)
notify-IsMissed i (notifying (j ∷ is) any) ok c m a h =
    let next : Conference = record c { starter = notifying is any } in
    let missed_still : IsMissed i next = (refl, ground (arith, m), a) in
    if-cases (IsMissed i) ok _ _
      (λ _. join-IsMissed i j next (c.phase j) (ground (arith, m)) missed_still) (λ _. missed_still)
notify-IsMissed i (notifying [] any) ok c m a h = (refl, refl, a)
notify-IsMissed i idle ok c m a h = h
notify-IsMissed i starting ok c m a h = h
notify-IsMissed i done ok c m a h = h

step-IsMissed : (i : ℕ) (op : Op) (c : Conference) → IsMissed i c → IsMissed i (step op c)
unfolding step init add_to_wait_list do_wait kill provision retrieve_set notify_next
step-IsMissed i (looks j) c h = init-IsMissed i j c (c.phase j) refl h
step-IsMissed i (adds j) c h = add-IsMissed i j c (c.phase j) h
step-IsMissed i (waits j) c h = wait-IsMissed i j c (c.phase j) h
step-IsMissed i (is_killed j) c h = kill-IsMissed i j c (c.phase j) h
step-IsMissed i provisions c h = provision-IsMissed i c.starter c refl h.0 h
step-IsMissed i (retrieves ok) c h = retrieve-IsMissed i c.starter ok c refl h.0 h
step-IsMissed i (notifies ok) c h = notify-IsMissed i c.starter ok c h.1 h.2 h

run-IsMissed : (i : ℕ) (ops : List Op) (c : Conference) → IsMissed i c → IsMissed i (run ops c)
unfolding run
run-IsMissed i [] c h = h
run-IsMissed i (op ∷ ops) c h = run-IsMissed i ops (step op c) (step-IsMissed i op c h)

missed :
    (i : ℕ) (s : Starter) (c : Conference)
    → s ≡ starting
    → has_member i c.wait_list ≡ false
    → is_apart (c.phase i) ≡ true
    → IsMissed i (retrieve_in s true c)
missed i starting c e m a = (refl, m, a)
missed i idle c e m a = cc
missed i (notifying is any) c e m a = cc
missed i done c e m a = cc

-- Let the starter of a conference have joined it, and a caller be past its look for the conference,
-- without having been told, and not be in the waiting list. After the starter has retrieved the
-- list without an error and any steps have followed, the caller has not joined.
pub late_caller_never_joins :
    (i : ℕ) (ops : List Op) (c : Conference)
    → c.starter ≡ starting
    → is_apart (c.phase i) ≡ true
    → has_member i c.wait_list ≡ false
    → is_apart ((run (retrieves true ∷ ops) c).phase i) ≡ true
unfolding run step retrieve_set
late_caller_never_joins i ops c s a m =
    (run-IsMissed i ops (retrieve_set true c) (missed i c.starter c s m a)).2
