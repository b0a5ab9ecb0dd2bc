-- ===== src/Requestor/Queueing.antt =====
-- What `sendQueuedMsgs` of lib/utils/ws-requestor.js does.
use jambonz_feature_server.Prelude.{
  ℕ, zero, suc, Bool, true, false, ◌||◌, Option, none, some, List, [], ◌∷◌, ◌++◌, ◌≡◌, refl, sym,
  ap, ◌∙◌, length, map, append_assoc, append-nil, if◌then◌else◌, if-cases, is_some, arith,
}
use jambonz_feature_server.Requestor.Line.{
  Msg, message, Wait, Line, transmit, queue_msg, pass, request, send_queued_msgs,
}

-- The messages that want an ack, and the others.
abbrev pub wanting : List Msg → List Msg
wanting [] = []
wanting (m ∷ ms) = let rest = wanting ms in if m.wants_ack then m ∷ rest else rest

abbrev pub notices : List Msg → List Msg
notices [] = []
notices (m ∷ ms) = let rest = notices ms in if m.wants_ack then rest else m ∷ rest

abbrev pub any_wanting : List Msg → Bool
any_wanting [] = false
any_wanting (m ∷ ms) = m.wants_ack || any_wanting ms

-- A message can be sent at once.
abbrev pub IsClear : Line → Type 0
IsClear l = (l.closed_gracefully ≡ false) × (l.is_open ≡ true) × (l.reconnect_promise ≡ none)

-- The queue was sent, in its order, but for the messages that are deferred.
abbrev pub Flushed : List Msg → Line → Option Line → Type 0
Flushed q l r =
    (k : Line) × (r ≡ some k)
    × (k.sent ≡ l.sent ++ map message (wanting q))
    × (k.deferred ≡ l.deferred ++ notices q)
    × (k.queued ≡ [])

request_clear : (m : Msg) (l : Line) → IsClear l → request m l ≡ transmit m l
unfolding request
request_clear m l (a, b, c) =
    if-cases (λ (k : Line). k ≡ transmit m l) l.closed_gracefully _ _ (λ t. cc)
      (λ _.
        if-cases (λ (k : Line). k ≡ transmit m l) l.is_open _ _ (λ _. ap (λ w. pass w m l) c)
          (λ f. cc))

pass_waits : (w : Option Wait) (m : Msg) (l : Line) → is_some w ≡ true → pass w m l ≡ queue_msg m l
pass_waits none m l h = cc
pass_waits (some w) m l h = refl

pub request_waits :
    (m : Msg) (l : Line)
    → l.closed_gracefully ≡ false
    → l.is_open ≡ true
    → is_some l.reconnect_promise ≡ true
    → request m l ≡ queue_msg m l
unfolding request
request_waits m l a b c =
    if-cases (λ (k : Line). k ≡ queue_msg m l) l.closed_gracefully _ _ (λ t. cc)
      (λ _.
        if-cases (λ (k : Line). k ≡ queue_msg m l) l.is_open _ _
          (λ _. pass_waits l.reconnect_promise m l c) (λ f. cc))

-- The queue after a message of one kind or the other.
sent_then_rest :
    (m : Msg) (ms : List Msg) (l : Line) (r : Option Line)
    → m.wants_ack ≡ true
    → Flushed ms (transmit m l) r
    → Flushed (m ∷ ms) l r
sent_then_rest m ms l r t (k, e, s, d, z) = (
  k,
  e,
  s
      ∙ append_assoc l.sent (message m ∷ []) (map message (wanting ms))
      ∙ ap (λ b. l.sent ++ map message (if b then m ∷ wanting ms else wanting ms)) (sym t),
  d ∙ ap (λ b. l.deferred ++ (if b then notices ms else m ∷ notices ms)) (sym t),
  z,
)

deferred_then_rest :
    (m : Msg) (ms : List Msg) (l : Line) (r : Option Line)
    → m.wants_ack ≡ false
    → Flushed ms (record l { deferred = l.deferred ++ m ∷ [] }) r
    → Flushed (m ∷ ms) l r
deferred_then_rest m ms l r t (k, e, s, d, z) = (
  k,
  e,
  s ∙ ap (λ b. l.sent ++ map message (if b then m ∷ wanting ms else wanting ms)) (sym t),
  d
      ∙ append_assoc l.deferred (m ∷ []) (notices ms)
      ∙ ap (λ b. l.deferred ++ (if b then notices ms else m ∷ notices ms)) (sym t),
  z,
)

any_wanting-append :
    (ms : List Msg) (m : Msg) → m.wants_ack ≡ true → any_wanting (ms ++ m ∷ []) ≡ true
any_wanting-append [] m t = ground (arith, t)
any_wanting-append (x ∷ xs) m t = ground (arith, any_wanting-append xs m t)

-- Over an open connection that was not closed gracefully and that awaits no reconnect,
-- `sendQueuedMsgs` ends after one step more than there are queued messages. It has sent those that
-- want an ack, in order, and deferred the others, in order, and the queue is empty.
pub clear_flushes :
    (q : List Msg) (l : Line)
    → IsClear l
    → Flushed q l (send_queued_msgs (suc (length q)) (record l { queued = q }))
unfolding send_queued_msgs
clear_flushes [] l h =
    (record l { queued = [] }, refl, sym (append-nil l.sent), sym (append-nil l.deferred), refl)
clear_flushes (m ∷ ms) l h =
    let rest : Line = record l { queued = ms } in
    let noted : Line = record l { deferred = l.deferred ++ m ∷ [] } in
    if-cases (λ (k : Line). Flushed (m ∷ ms) l (send_queued_msgs (suc (length ms)) k)) m.wants_ack
      (request m rest) (record noted { queued = ms })
      (λ t.
        let (k, e, s, d, z) =
          sent_then_rest m ms l
            (send_queued_msgs (suc (length ms)) (record (transmit m l) { queued = ms })) t
            (clear_flushes ms (transmit m l) h) in
        (k, ap (send_queued_msgs (suc (length ms))) (request_clear m rest h) ∙ e, s, d, z))
      (λ f.
        deferred_then_rest m ms l
          (send_queued_msgs (suc (length ms)) (record noted { queued = ms })) f
          (clear_flushes ms noted h))

-- One step of the loop, where the rest of it never ends.
unending :
    (n : ℕ) (l : Line) (q : List Msg)
    → l.closed_gracefully ≡ false
    → l.is_open ≡ true
    → is_some l.reconnect_promise ≡ true
    → any_wanting q ≡ true
    → ((k : Line)
        → k.closed_gracefully ≡ false
        → k.is_open ≡ true
        → is_some k.reconnect_promise ≡ true
        → any_wanting k.queued ≡ true
        → send_queued_msgs n k ≡ none)
    → send_queued_msgs (suc n) (record l { queued = q }) ≡ none
unfolding send_queued_msgs
unending n l [] a b c d ends = cc
unending n l (m ∷ ms) a b c d ends =
    let rest : Line = record l { queued = ms } in
    if-cases (λ (k : Line). send_queued_msgs n k ≡ none) m.wants_ack (request m rest) _
      (λ t.
        ap (send_queued_msgs n) (request_waits m rest a b c)
        ∙ ends (queue_msg m rest) a b c (any_wanting-append ms m t))
      (λ f.
        ends (record l { queued = ms; deferred = l.deferred ++ m ∷ [] }) a b c
          (ground (arith, d, f)))

-- Where an open connection that was not closed gracefully awaits a reconnect and a queued message
-- wants an ack, `sendQueuedMsgs` does not end in any number of steps.
pub waiting_never_flushes :
    (n : ℕ) (l : Line)
    → l.closed_gracefully ≡ false
    → l.is_open ≡ true
    → is_some l.reconnect_promise ≡ true
    → any_wanting l.queued ≡ true
    → send_queued_msgs n l ≡ none
unfolding send_queued_msgs
waiting_never_flushes zero l a b c d = refl
waiting_never_flushes (suc n) l a b c d = unending n l l.queued a b c d (waiting_never_flushes n)
