-- ===== src/Requestor/Retrying.antt =====
-- How often the retry loops of lib/utils/http-requestor.js and lib/utils/ws-requestor.js call.
use Prim.Native.String.{String}
use jambonz_feature_server.Prelude.{
  ℕ, zero, suc, ◌+◌, ◌≤◌, ◌<◌, ◌≡◌, ◌⊎◌, inl, inr, refl, ap, ◌∙◌, true, false, ◌&&◌, Option, none,
  some, List, [], ◌∷◌, leb, length, arith, Bool-cases,
}
use jambonz_feature_server.Requestor.Policy.{Error, should_retry}
use jambonz_feature_server.Requestor.Retry.{
  Attempt, success, failure, Run, next_backoff, retry_loop, Response, responds, status_error,
  make_request, alert_of, webhook_connection_failure, retry_count_of, request, connect,
}

module _ {A : Type 0} (rc : ℕ) (rp_values : List String) (others : ℕ → ℕ → ℕ)
    (attempt : ℕ → Attempt A) where
  -- What a loop that began after `n` failures with `backoff` came to: each attempt but the last failed
  -- with an error of the policy, and the last succeeded, or failed with an error that the policy does
  -- not cover, or with the retries used up.
  abbrev pub Came : ℕ → ℕ → List ℕ → Attempt A → Type 0
  Came n backoff [] r =
      (attempt n ≡ r)
      × (((a : A) × (r ≡ success a))
          ⊎ ((e : Error) × (r ≡ failure e) × ((should_retry e rp_values ≡ false) ⊎ (rc ≤ n))))
  Came n backoff (d ∷ ds) r =
      (d ≡ others n backoff)
      × ((e : Error) × (attempt n ≡ failure e) × (should_retry e rp_values ≡ true))
      × (n < rc)
      × Came (n + 1) (next_backoff d) ds r

  abbrev Loops : ℕ → ℕ → ℕ → Type 0
  Loops fuel n backoff =
      (run : Run A) × (retry_loop rc rp_values others attempt fuel n backoff ≡ some run)
      × Came n backoff run.delays run.result
      × (n + length run.delays ≤ rc)

  -- One round, for what the later rounds come to.
  round :
      (fuel n backoff : ℕ) (r : Attempt A)
      → attempt n ≡ r
      → n ≤ rc
      → (n + 1 ≤ rc → Loops fuel (n + 1) (next_backoff (others n backoff)))
      → Loops (suc fuel) n backoff
  unfolding retry_loop
  round fuel n backoff (success a) e h later = (
    record { result = success a; delays = []; backoff_ms = others n backoff },
    rw (e, retry_loop),
    (e, inl (a, refl)),
    omega arith,
  )
  round fuel n backoff (failure x) e h later =
      elim (Bool-cases (leb (n + 1) rc && should_retry x rp_values)) [
        | inl yes_again ↦
            let (run, looped, came, few) = later (ground arith) in
            (
              record run { delays = others n backoff ∷ run.delays },
              rw (e, yes_again, looped, retry_loop),
              (refl, (x, e, ground arith), ground arith, came),
              omega arith,
            )
        | inr stop ↦ (
          record { result = failure x; delays = []; backoff_ms = others n backoff },
          rw (e, stop, retry_loop),
          (e, inr (x, refl, ground arith)),
          omega arith,
        )
      ]

  pub retry_loop-Came : (fuel n backoff : ℕ) → n ≤ rc → rc < fuel + n → Loops fuel n backoff
  retry_loop-Came zero n backoff h k = absurd (omega arith)
  retry_loop-Came (suc fuel) n backoff h k =
      round fuel n backoff (attempt n) refl h
        λ more. retry_loop-Came fuel (n + 1) (next_backoff (others n backoff)) more (omega arith)

retry_count_of-le : (rc : Option ℕ) → retry_count_of rc ≤ 5
unfolding retry_count_of
retry_count_of-le none = omega arith
retry_count_of-le (some n) = omega arith

-- For any far end, and whatever other requests do to the field `backoffMs` that they share, the
-- loop of `HttpRequestor.request` ends. The attempts before the last failed with an error that the
-- policy covers; each delay is what `backoffMs` holds after the attempt, where this loop left 500
-- at first and later `next_backoff` of its last delay. The result is the first success, or the
-- failure that the policy does not cover or that no retry was left for. It waits at most `rc` times
-- and at most five times.
pub request-Came :
    {A : Type 0} (rc : Option ℕ) (rp_values : List String) (others : ℕ → ℕ → ℕ)
    (far_end : ℕ → Response A)
    → (run : Run A) × (request rc rp_values others far_end ≡ some run)
      × Came
          (retry_count_of rc)
          rp_values
          others
          (λ n. make_request (far_end n))
          0
          500
          run.delays
          run.result
      × (length run.delays ≤ retry_count_of rc)
      × (length run.delays ≤ 5)
unfolding request
request-Came rc rp_values others far_end =
    let (run, looped, came, few) =
      retry_loop-Came (retry_count_of rc) rp_values others (λ n. make_request (far_end n))
        (retry_count_of rc + 1) 0 500 (omega arith) (omega arith) in
    (run, looped, came, omega (arith), omega (arith, retry_count_of-le rc))

-- For any far end, limit and first backoff, the loop of `WsRequestor.request` that connects ends.
-- The attempts before the last failed with an error that the policy covers, each with the delay
-- that `backoffMs` then holds; the result is the first success, or the failure that
-- the policy does not cover or that no retry was left for. It waits at most as often as the limit
-- says.
pub connect-Came :
    {A : Type 0} (max_reconnects : ℕ) (rp_values : List String) (others : ℕ → ℕ → ℕ)
    (far_end : ℕ → Attempt A) (backoff : ℕ)
    → (run : Run A) × (connect max_reconnects rp_values others far_end backoff ≡ some run)
      × Came max_reconnects rp_values others far_end 0 backoff run.delays run.result
      × (length run.delays ≤ max_reconnects)
unfolding connect
connect-Came max_reconnects rp_values others far_end backoff =
    let (run, looped, came, few) =
      retry_loop-Came max_reconnects rp_values others far_end (max_reconnects + 1) 0 backoff
        (omega arith) (omega arith) in
    (run, looped, came, omega arith)

failure-make_request :
    {A : Type 0} (status : ℕ) (body : A) (e : Error)
    → make_request (responds status body) ≡ failure e
    → e ≡ status_error status
unfolding make_request
failure-make_request status body e h = ground arith

alert_of-status_error : (status : ℕ) → alert_of (status_error status) ≡ webhook_connection_failure
unfolding alert_of
alert_of-status_error status = refl

-- The error that a response with an unexpected status throws leads to the alert for a failed
-- connection.
pub make_request-alert :
    {A : Type 0} (status : ℕ) (body : A) (e : Error)
    → make_request (responds status body) ≡ failure e
    → alert_of e ≡ webhook_connection_failure
make_request-alert status body e h =
    ap alert_of (failure-make_request status body e h) ∙ alert_of-status_error status
