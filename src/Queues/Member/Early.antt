-- ===== src/Queues/Member/Early.antt =====
-- A caller that is killed while it is being added to the queue.
use jambonz_feature_server.Prelude.{
  Bool, true, false, ◌&&◌, some, List, [], ◌∷◌, ◌≡◌, refl, ap, ◌∙◌, if-cases, arith, and-true,
}
use jambonz_feature_server.Queues.Member.{
  Reason, waiting, apart, idle, join, Settings, Member, exec, answered_in, answered, added_in,
  added, counted_in, counted,
}
use jambonz_feature_server.Queues.Member.Events.{
  posted, stored_in, stored, referred_in, referred, removed_in, removed, kill, notify_dequeue,
  announced_in, announced, notify_hangup, silence_over_in, silence_over, hook_answered_in,
  hook_answered, session_over_in, session_over,
}
use jambonz_feature_server.Queues.Member.Runs.{
  Op, session_ends, partner_leaves, is_popped, adds, counts, posts, stores, announces, removes,
  acts, silence_ends, refers, dequeues, is_killed, hook_answers, step, run,
}

-- How many results can have been told where `exec` is.

-- Neither a member of the other end nor another kill comes.
abbrev pub is_unmet : Op → Bool
is_unmet (dequeues local) = false
is_unmet (is_killed r) = false
is_unmet is_popped = false
is_unmet _ = true

abbrev pub all_unmet : List Op → Bool
all_unmet [] = true
all_unmet (op ∷ ops) = is_unmet op && all_unmet ops

-- `exec` waits, and nothing is under way that could wake it.
abbrev pub IsStranded : Member → Type 0
IsStranded m =
    (m.phase ≡ waiting)
    × (m.bridge ≡ apart)
    × (m.hook ≡ idle)
    × (m.is_posting ≡ false)
    × (m.hears_partner ≡ false)
    × (m.removing ≡ 0)
    × (m.announcing ≡ 0)

step-IsStranded :
    (o : Settings) (op : Op) (m : Member) → is_unmet op ≡ true → IsStranded m → step o op m ≡ m
unfolding step answered added counted posted stored referred removed kill notify_dequeue announced
    notify_hangup silence_over hook_answered session_over
step-IsStranded o session_ends m u h = ap (λ k. session_over_in k o m) h.2
step-IsStranded o partner_leaves m u h =
    if-cases (λ (k : Member). k ≡ m) m.hears_partner _ _ (λ t. cc) (λ _. refl)
step-IsStranded o is_popped m u h = cc
step-IsStranded o (adds r) m u h = ap (λ p. added_in p r m) h.0
step-IsStranded o (counts ok) m u h = ap (λ p. counted_in p o ok m) h.0
step-IsStranded o (posts ok) m u h =
    if-cases (λ (k : Member). k ≡ m) m.is_posting _ _ (λ t. cc) (λ _. refl)
step-IsStranded o (stores ok) m u h = ap (λ b. stored_in b o ok m) h.1
step-IsStranded o (announces ok) m u h = ap (λ n. announced_in n ok m) h.6
step-IsStranded o (removes ok) m u h = ap (λ n. removed_in n o ok m) h.5
step-IsStranded o (acts ok) m u h = ap (λ p. answered_in p ok m) h.0
step-IsStranded o (silence_ends ok) m u h = ap (λ k. silence_over_in k ok m) h.2
step-IsStranded o (refers r) m u h = ap (λ b. referred_in b o r m) h.1
step-IsStranded o (dequeues local) m u h = cc
step-IsStranded o (is_killed r) m u h = cc
step-IsStranded o (hook_answers r) m u h = ap (λ k. hook_answered_in k o r m) h.2

run-IsStranded :
    (o : Settings) (ops : List Op) (m : Member)
    → all_unmet ops ≡ true
    → IsStranded m
    → run o ops m ≡ m
unfolding run
run-IsStranded o [] m u h = refl
run-IsStranded o (op ∷ ops) m u h =
    let (now, later) = and-true (is_unmet op) (all_unmet ops) u in
    ap (run o ops) (step-IsStranded o op m now h) ∙ run-IsStranded o ops m later h

-- The kill comes before the listeners are there, and the url is added after it.
queued : Reason → Member
unfolding exec
queued r =
    record (exec record { has_wait_hook = false; has_action_hook = false; bridge_now = false }) {
      phase = waiting;
      in_queue = true;
      killed = true;
      kill_reason = some r;
      task_done = true;
      hears_dequeue = true;
      hears_kill = true;
      out = join ∷ [];
    }

-- Where a caller that is not moved here is killed before the database has answered that it was
-- added, and then is added and the length is known, `exec` waits and the caller is in the queue
-- after any events that are neither a kill, nor a `dequeue` event, nor its being taken from the
-- queue.
pub early_kill_strands :
    (o : Settings) (r : Reason) (ops : List Op)
    → o.bridge_now ≡ false
    → all_unmet ops ≡ true
    → (run o (is_killed r ∷ adds (some true) ∷ counts true ∷ ops) (exec o)).phase ≡ waiting
      × (run o (is_killed r ∷ adds (some true) ∷ counts true ∷ ops) (exec o)).in_queue ≡ true
unfolding run step exec kill added counted queued
early_kill_strands o r ops b u =
    if-cases
      (λ (k : Member).
        ((run o ops (counted o true (added (some true) (kill o r k)))).phase ≡ waiting)
        × ((run o ops (counted o true (added (some true) (kill o r k)))).in_queue ≡ true))
      o.bridge_now _ _ (λ t. cc)
      (λ _.
        if-cases (λ (k : Member). ((run o ops k).phase ≡ waiting) × ((run o ops k).in_queue ≡ true))
          (o.has_wait_hook && false) _ _ (λ t. ground (arith, t))
          (λ _.
            let same =
              run-IsStranded o ops (queued r) u (refl, refl, refl, refl, refl, refl, refl) in
            (ap (λ k. k.phase) same, ap (λ k. k.in_queue) same)))
