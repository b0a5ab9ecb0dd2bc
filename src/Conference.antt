-- ===== src/Conference.antt =====
-- lib/tasks/conference.js: how the callers that wait for a conference are told that it has started. The
-- hash of the conference and the set of the waiting list are in a database that the callers share; a
-- caller is a number. One caller starts the conference; the others have `startConferenceOnEnter` false.
-- The answers of the database and the notifications are the steps.
pub mod Waiting
pub mod Ending
pub mod Late
mod Examples
use jambonz_feature_server.Prelude.{
  ℕ, Bool, true, false, ◌||◌, List, [], ◌∷◌, ◌++◌, ◌==◌, if◌then◌else◌,
}

-- `looking` is in `_init`, `adding` in `_addToWaitList`, `listed` is in the set while the answer to that
-- is under way, and `waiting` has the listeners of `_doWait`.
pub data Phase : Type 0 where
  looking adding listed waiting joining gone : Phase

-- `notifying` holds the members that `_doStart` has still to notify; `has_any` says whether the set
-- that it retrieved had members.
pub data Starter : Type 0 where
  idle starting done : Starter
  notifying : List ℕ → Bool → Starter

pub record Conference : Type 0 where
  pub provisioned : Bool
  pub wait_list : List ℕ
  pub starter : Starter
  pub phase : ℕ → Phase

abbrev pub create : Conference
create = record { provisioned = false; wait_list = []; starter = idle; phase = (λ i. looking) }

abbrev pub has_member : ℕ → List ℕ → Bool
has_member i [] = false
has_member i (j ∷ js) = j == i || has_member i js

abbrev pub has_some : List ℕ → Bool
has_some [] = false
has_some (i ∷ is) = true

-- `removeFromSet`
abbrev pub remove_from_set : ℕ → List ℕ → List ℕ
remove_from_set i [] = []
remove_from_set i (j ∷ js) = let rest = remove_from_set i js in if j == i then rest else j ∷ rest

abbrev pub set_phase : ℕ → Phase → Conference → Conference
set_phase i p c = record c { phase = (λ j. if j == i then p else c.phase j) }

-- `_init`, of a caller that does not start the conference.
abbrev pub init_in : Phase → ℕ → Conference → Conference
init_in looking i c = if c.provisioned then set_phase i joining c else set_phase i adding c
init_in adding i c = c
init_in listed i c = c
init_in waiting i c = c
init_in joining i c = c
init_in gone i c = c

unfoldable pub init : ℕ → Conference → Conference
init i c = init_in (c.phase i) i c

-- `_addToWaitList`: the set has the caller, and then the answer comes, after which `_doWait` listens;
-- where the set had the caller before, `exec` ends in its `catch`.
abbrev pub add_in : Phase → ℕ → Conference → Conference
add_in adding i c =
    if has_member i c.wait_list
    then set_phase i gone c
    else set_phase i listed (record c { wait_list = c.wait_list ++ i ∷ [] })
add_in looking i c = c
add_in listed i c = c
add_in waiting i c = c
add_in joining i c = c
add_in gone i c = c

unfoldable pub add_to_wait_list : ℕ → Conference → Conference
add_to_wait_list i c = add_in (c.phase i) i c

abbrev pub wait_in : Phase → ℕ → Conference → Conference
wait_in listed i c = set_phase i waiting c
wait_in looking i c = c
wait_in adding i c = c
wait_in waiting i c = c
wait_in joining i c = c
wait_in gone i c = c

unfoldable pub do_wait : ℕ → Conference → Conference
do_wait i c = wait_in (c.phase i) i c

-- The `kill` listener of `_doWait`, with `_removeFromWaitList`.
abbrev pub kill_in : Phase → ℕ → Conference → Conference
kill_in waiting i c = set_phase i gone (record c { wait_list = remove_from_set i c.wait_list })
kill_in looking i c = c
kill_in adding i c = c
kill_in listed i c = c
kill_in joining i c = c
kill_in gone i c = c

unfoldable pub kill : ℕ → Conference → Conference
kill i c = kill_in (c.phase i) i c

-- `_init`, of the caller that starts the conference.
abbrev pub provision_in : Starter → Conference → Conference
provision_in idle c = record c { provisioned = true; starter = starting }
provision_in starting c = c
provision_in (notifying is any) c = c
provision_in done c = c

unfoldable pub provision : Conference → Conference
provision c = provision_in c.starter c

-- `_doStart`, once the starter has joined: `retrieveSet`, or its error, after which nobody is notified.
abbrev pub retrieve_in : Starter → Bool → Conference → Conference
retrieve_in starting ok c =
    if ok
    then record c { starter = notifying c.wait_list (has_some c.wait_list) }
    else record c { starter = done }
retrieve_in idle ok c = c
retrieve_in (notifying is any) ok c = c
retrieve_in done ok c = c

unfoldable pub retrieve_set : Bool → Conference → Conference
retrieve_set ok c = retrieve_in c.starter ok c

-- `notifyStartConference` of the caller: the `join` listener, if `_doWait` has added it.
abbrev pub join_in : Phase → ℕ → Conference → Conference
join_in waiting i c = set_phase i joining c
join_in looking i c = c
join_in adding i c = c
join_in listed i c = c
join_in joining i c = c
join_in gone i c = c

-- The next round of the loop of `_doStart`, whose POST arrives or fails, which is only logged; and
-- `deleteKey` at its end.
abbrev pub notify_in : Starter → Bool → Conference → Conference
notify_in (notifying (i ∷ is) any) ok c =
    let next = record c { starter = notifying is any } in
    if ok then join_in (c.phase i) i next else next
notify_in (notifying [] any) ok c = record c {
  starter = done;
  wait_list = if any then [] else c.wait_list;
}
notify_in idle ok c = c
notify_in starting ok c = c
notify_in done ok c = c

unfoldable pub notify_next : Bool → Conference → Conference
notify_next ok c = notify_in c.starter ok c

pub data Op : Type 0 where
  looks adds waits is_killed : ℕ → Op
  provisions : Op
  retrieves notifies : Bool → Op

unfoldable pub step : Op → Conference → Conference
unfolding init add_to_wait_list do_wait kill provision retrieve_set notify_next
step (looks i) c = init i c
step (adds i) c = add_to_wait_list i c
step (waits i) c = do_wait i c
step (is_killed i) c = kill i c
step provisions c = provision c
step (retrieves ok) c = retrieve_set ok c
step (notifies ok) c = notify_next ok c

unfoldable pub run : List Op → Conference → Conference
unfolding step
run [] c = c
run (op ∷ ops) c = run ops (step op c)
