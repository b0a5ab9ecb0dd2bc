-- ===== src/Queues/Member/Late.antt =====
-- A caller that is dequeued while its wait hook is asked, and one that is killed right after.
use jambonz_feature_server.Prelude.{
  ℕ, ◌+◌, Bool, true, false, some, List, [], ◌∷◌, ◌++◌, ◌==◌, ◌≡◌, refl, ap, ◌∙◌, if-cases, arith,
}
use jambonz_feature_server.Queues.Member.{
  State, bridged, Reason, waiting, apart, joined, done, Hook, asking, playing, Event,
  left_abandoned, left_dequeued, told_ready, told_hangup, unbridged, performed, Settings, Member,
  notify_task_done, expects,
}
use jambonz_feature_server.Queues.Member.Events.{
  removed, kill, on_dequeue, notify_dequeue, announced, hook_over, hook_answered,
}
use jambonz_feature_server.Queues.Member.Runs.{
  announces, removes, dequeues, is_killed, hook_answers, step, run,
}

-- How many results can have been told where `exec` is.

-- A caller that waits, has heard neither a kill nor a `dequeue` event, and has no action hook under way.
abbrev pub in_wait : Hook → Member → Member
in_wait k m = record m {
  phase = waiting;
  bridge = apart;
  hook = k;
  killed = false;
  task_done = false;
  leaves = false;
  has_session = false;
  has_details = false;
  dequeued = false;
  call_moved = false;
  hears_dequeue = true;
  hears_kill = true;
  hears_partner = false;
  removing = 0;
  announcing = 0;
}

-- Take a caller that waits for the answer of its wait hook and was not moved here, and let a
-- `dequeue` event of a call on this server come. Where the hook then answers with tasks, they start
-- while the call is bridged; where it answers with `leave` alone, the bridge ends and the task is
-- killed.
pub late_hook_plays :
    (o : Settings) (m : Member) (n : ℕ)
    → o.bridge_now ≡ false
    → (n == 0) ≡ false
    → (run o (dequeues true ∷ hook_answers (some (n, false)) ∷ []) (in_wait asking m)).hook
        ≡ playing n
      × (run o (dequeues true ∷ hook_answers (some (n, false)) ∷ []) (in_wait asking m)).bridge
        ≡ joined
      × (run o (dequeues true ∷ hook_answers (some (0, true)) ∷ []) (in_wait asking m)).bridge
        ≡ done
      × (run o (dequeues true ∷ hook_answers (some (0, true)) ∷ []) (in_wait asking m)).killed
        ≡ true
unfolding run step notify_dequeue hook_answered kill
late_hook_plays o m n b z =
    let waits : Member = in_wait asking m in
    let met : Member = record (on_dequeue true waits) { announcing = 1 } in
    let noted : Member = record met { leaves = true } in
    let (plays, stays) : ((hook_answered o (some (n, false)) met).hook ≡ playing n)
        × ((hook_answered o (some (n, false)) met).bridge ≡ joined) =
      if-cases (λ (k : Member). (k.hook ≡ playing n) × (k.bridge ≡ joined)) (n == 0) _ _ (λ t. cc)
        (λ _. (refl, refl)) in
    let (parts, dies) : ((hook_over o 0 noted).bridge ≡ done)
        × ((hook_over o 0 noted).killed ≡ true) =
      if-cases
        (λ (k : Member).
          ((notify_task_done k).bridge ≡ done) × ((notify_task_done k).killed ≡ true))
        o.has_action_hook _ _ (λ _. (refl, refl)) (λ _. (refl, refl)) in
    if-cases
      (λ (k : Member).
        ((hook_answered o (some (n, false)) k).hook ≡ playing n)
        × ((hook_answered o (some (n, false)) k).bridge ≡ joined)
        × ((hook_answered o (some (0, true)) k).bridge ≡ done)
        × ((hook_answered o (some (0, true)) k).killed ≡ true))
      o.bridge_now _ _ (λ t. cc) (λ _. (plays, stays, parts, dies))

-- How often the queue was said to be left.
abbrev pub left_in : Event → ℕ
left_in left_abandoned = 1
left_in left_dequeued = 1
left_in _ = 0

unfoldable pub count_left : List Event → ℕ
count_left [] = 0
count_left (e ∷ es) = left_in e + count_left es

count_left-append : (xs ys : List Event) → count_left (xs ++ ys) ≡ count_left xs + count_left ys
unfolding count_left
count_left-append [] ys = omega arith
count_left-append (x ∷ xs) ys = omega (arith, count_left-append xs ys)

abbrev parted : List Event → List Event
parted xs = ((xs ++ told_ready ∷ []) ++ unbridged ∷ []) ++ told_hangup ∷ []

parted_tells_none : (xs : List Event) → count_left (parted xs) ≡ count_left xs
unfolding count_left
parted_tells_none xs = omega (
  arith,
  count_left-append ((xs ++ told_ready ∷ []) ++ unbridged ∷ []) (told_hangup ∷ []),
  count_left-append (xs ++ told_ready ∷ []) (unbridged ∷ []),
  count_left-append xs (told_ready ∷ []),
)

tells_both :
    (xs : List Event)
    → count_left ((xs ++ left_dequeued ∷ []) ++ left_abandoned ∷ []) ≡ count_left xs + 2
unfolding count_left
tells_both xs = omega (
  arith,
  count_left-append (xs ++ left_dequeued ∷ []) (left_abandoned ∷ []),
  count_left-append xs (left_dequeued ∷ []),
)

tells_no_result :
    (xs : List Event) (s : State) (e : Bool)
    → count_left (parted xs ++ performed s e ∷ []) ≡ count_left xs
unfolding count_left
tells_no_result xs s e =
    omega (arith, count_left-append (parted xs) (performed s e ∷ []), parted_tells_none xs)

-- Where a waiting caller that was not moved here gets a `dequeue` event of a call on this server
-- and is killed before the length of the queue is known, two more `leave` events are sent once the
-- database has answered both.
pub killed_leaves_twice :
    (o : Settings) (r : Reason) (k : Hook) (m : Member)
    → o.bridge_now ≡ false
    → count_left
        (run o (dequeues true ∷ is_killed r ∷ announces true ∷ removes true ∷ []) (in_wait k m)).out
      ≡ count_left m.out + 2
unfolding run step notify_dequeue kill announced removed
killed_leaves_twice o r k m b =
    let met : Member = record (on_dequeue true (in_wait k m)) { announcing = 1 } in
    let results : List Event = parted m.out ++ performed bridged (expects (some r)) ∷ [] in
    if-cases
      (λ (k : Member).
        count_left (removed o true (announced true (kill o r k))).out ≡ count_left m.out + 2)
      o.bridge_now _ _ (λ t. cc)
      (λ _.
        if-cases
          (λ (k : Member).
            count_left (removed o true (announced true (notify_task_done k))).out
            ≡ count_left m.out + 2)
          o.has_action_hook _ _
          (λ _.
            tells_both results ∙ ap (λ n. n + 2) (tells_no_result m.out bridged (expects (some r))))
          (λ _. tells_both (parted m.out) ∙ ap (λ n. n + 2) (parted_tells_none m.out)))
