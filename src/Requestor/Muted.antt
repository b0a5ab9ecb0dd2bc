-- ===== src/Requestor/Muted.antt =====
-- A reconnection of lib/utils/ws-requestor.js before the ack to `session:new` came.
use jambonz_feature_server.Prelude.{
  ℕ, zero, suc, Bool, true, false, not, ◌&&◌, Option, none, some, List, [], ◌∷◌, ◌++◌, ◌≡◌, refl,
  ap, ◌∙◌, ltb, if-cases, and-true, is_some,
}
use jambonz_feature_server.Requestor.Line.{
  Msg, reconnect, Wait, Line, pass, request, request_reconnect, send_queued_msgs, release,
  written_in, written, settle_wait, settled_in, acked, on_failure, run_deferred_in, run_deferred,
  go_on, on_open, connect_failed, on_close, time_to_reconnect_in, time_to_reconnect,
  close_gracefully,
}
use jambonz_feature_server.Requestor.Line.Runs.{
  Op, opens, connect_fails, fires, runs_deferred, writes, acks, fails, closes, requests, drops,
  step, run,
}

-- No other connection is made.
abbrev pub no_open : Op → Bool
no_open opens = false
no_open _ = true

abbrev pub none_open : List Op → Bool
none_open [] = true
none_open (op ∷ ops) = no_open op && none_open ops

-- `_reconnectPromise` is there, and no callback is to come that would clear it.
abbrev pub IsMuted : Line → Type 0
IsMuted l = (is_some l.reconnect_promise ≡ true) × (l.holders ≡ 0) × (l.callbacks ≡ [])

abbrev pub Mute : Line → Line → Type 0
Mute l k = IsMuted k × (k.sent ≡ l.sent)

-- A step goes on, and what was sent stays.
abbrev pub GoesOn : Line → Option Line → Type 0
GoesOn l r = (k : Line) × (r ≡ some k) × IsMuted k × (k.sent ≡ l.sent)

to_line : (l k : Line) → Mute l k → GoesOn l (some k)
to_line l k (h, same) = (k, refl, h, same)

request-Mute : (m : Msg) (l : Line) → IsMuted l → Mute l (request m l)
unfolding request
request-Mute m l h =
    if-cases (Mute l) l.closed_gracefully _ _ (λ _. (h, refl))
      (λ _.
        if-cases (Mute l) l.is_open _ _ (λ _. passed l.reconnect_promise h.0)
          (λ _. if-cases (Mute l) l.connecting _ _ (λ _. (h, refl)) (λ _. (h, refl))))
  where
    passed : (w : Option Wait) → is_some w ≡ true → Mute l (pass w m l)
    passed none e = cc
    passed (some w) e = (h, refl)

settled-GoesOn :
    (n : ℕ) (ok : Bool) (w : Option Wait) (l : Line)
    → l.reconnect_promise ≡ w
    → IsMuted l
    → GoesOn l (settled_in w n ok l)
settled-GoesOn n ok none l e h = (l, refl, h, refl)
settled-GoesOn n ok (some w) l e h =
    let k : Line = record l { reconnect_promise = some (settle_wait ok w) } in
    (k, waits l.holders h.1, (refl, h.1, h.2), refl)
  where
    waits :
        (j : ℕ)
        → j ≡ 0
        → (elim j as (λ _. Option Line) [
          | zero ↦ some (record l { reconnect_promise = some (settle_wait ok w) })
          | suc i ↦ release n (some (settle_wait ok w)) l
        ])
          ≡ some (record l { reconnect_promise = some (settle_wait ok w) })
    waits zero z = refl
    waits (suc i) z = cc

step-GoesOn : (n : ℕ) (op : Op) (l : Line) → no_open op ≡ true → IsMuted l → GoesOn l (step n op l)
unfolding step written acked on_failure run_deferred connect_failed on_close time_to_reconnect
    close_gracefully
step-GoesOn n opens l o h = cc
step-GoesOn n connect_fails l o h = (connect_failed l, refl, h, refl)
step-GoesOn n fires l o h = to_line l (time_to_reconnect l) (fired l.scheduled)
  where
    fired : (k : ℕ) → Mute l (time_to_reconnect_in k l)
    fired zero = (h, refl)
    fired (suc k) =
        if-cases (Mute l) (not l.is_open && not l.connecting) _ _ (λ _. (h, refl)) (λ _. (h, refl))
step-GoesOn n runs_deferred l o h = to_line l (run_deferred l) (ran l.deferred)
  where
    ran : (ms : List Msg) → Mute l (run_deferred_in ms l)
    ran [] = (h, refl)
    ran (m ∷ ms) = request-Mute m (record l { deferred = ms }) h
step-GoesOn n writes l o h = (l, ap (λ cs. written_in cs n l) h.2, h, refl)
step-GoesOn n acks l o h =
    settled-GoesOn n true l.reconnect_promise (record l { has_init = false }) refl h
step-GoesOn n fails l o h = settled-GoesOn n false l.reconnect_promise l refl h
step-GoesOn n closes l o h = (close_gracefully l, refl, h, refl)
step-GoesOn n (requests m) l o h = to_line l (request m l) (request-Mute m l h)
step-GoesOn n (drops max) l o h = to_line l (on_close max l) dropped
  where
    dropped : Mute l (on_close max l)
    dropped =
        if-cases (Mute l) (ltb 0 l.connections && ltb l.connections max && not l.closed_gracefully)
          _ _ (λ _. (h, refl)) (λ _. (h, refl))

run-GoesOn :
    (n : ℕ) (ops : List Op) (l : Line) → none_open ops ≡ true → IsMuted l → GoesOn l (run n ops l)
unfolding run
run-GoesOn n [] l o h = (l, refl, h, refl)
run-GoesOn n (op ∷ ops) l o h =
    let (now, later) = and-true (no_open op) (none_open ops) o in
    let (k, e, muted, same) = step-GoesOn n op l now h in
    let (r, f, end, kept) = run-GoesOn n ops k later muted in
    (
      r,
      ap (λ s. elim s as (λ _. Option Line) [ none ↦ none | some k ↦ run n ops k ]) e ∙ f,
      end,
      kept ∙ same,
    )

-- The connection was lost before the ack to `session:new` came, and nothing is queued.
abbrev pub lost_early : Line → Line
lost_early l = record l {
  closed_gracefully = false;
  first = none;
  queued = [];
  has_init = true;
  holders = 0;
  callbacks = [];
}

-- Let the connection be lost before the ack to `session:new` came, with nothing queued, no callback
-- of `ws.send` to come or holding, and one or more connections made. A new connection sends
-- `session:reconnect`, and after its callback nothing more is sent, whatever is requested,
-- answered, failed, deferred, dropped or closed, unless yet another connection opens.
pub early_reconnect_mutes :
    (n : ℕ) (ops : List Op) (l : Line)
    → ltb 1 (suc l.connections) ≡ true
    → none_open ops ≡ true
    → (r : Line) × (run (suc n) (opens ∷ writes ∷ ops) (lost_early l) ≡ some r)
      × (r.sent ≡ l.sent ++ reconnect ∷ [])
unfolding run step on_open written send_queued_msgs
early_reconnect_mutes n ops l c o =
    let met : Line =
      record (request_reconnect (record (lost_early l) {
        is_open = true;
        connecting = false;
        connections = suc l.connections;
      })) { callbacks = [] } in
    let (r, e, end, kept) = run-GoesOn (suc n) ops met o (refl, refl, refl) in
    if-cases
      (λ (k : Line).
        (r : Line) × ((elim (written (suc n) (go_on k.first k)) as (λ _. Option Line) [
          | none ↦ none
          | some k ↦ run (suc n) ops k
        ])
          ≡ some r)
        × (r.sent ≡ l.sent ++ reconnect ∷ []))
      (ltb 1 (suc l.connections)) _ _ (λ _. (r, e, kept)) (λ f. cc)
