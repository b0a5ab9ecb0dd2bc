-- ===== src/Requestor/Retry.antt =====
-- The loops that call again after an error: that of `request` in lib/utils/http-requestor.js, and the
-- one that connects in `request` of lib/utils/ws-requestor.js. The far end is a function from the
-- number of the attempt, from 0, to what it does. Time enters by the delays alone. The field `backoffMs`
-- is shared with the other requests of the instance, which set it while this one awaits: `others` says
-- what it holds after an attempt, from the number of the attempt and what this loop left in it.
use Prim.Native.String.{String}
use Prim.Native.Nat.{min}
use jambonz_feature_server.Prelude.{
  ℕ, zero, suc, ◌+◌, ◌*◌, ◌&&◌, ◌||◌, Option, none, some, List, [], ◌∷◌, ◌==◌, leb, ltb,
  if◌then◌else◌,
}
use jambonz_feature_server.Requestor.Policy.{Error, should_retry, is}

pub data Attempt (A : Type 0) : Type 0 where
  success : A → Attempt A
  failure : Error → Attempt A

-- What a loop comes to: its result, the delays it waited, in order, and the last `backoffMs`.
pub record Run (A : Type 0) : Type 0 where
  pub result : Attempt A
  pub delays : List ℕ
  pub backoff_ms : ℕ

-- `this.backoffMs < 2000 ? this.backoffMs * 2 : (this.backoffMs + 2000)`
unfoldable pub next_backoff : ℕ → ℕ
next_backoff backoff = if ltb backoff 2000 then backoff * 2 else backoff + 2000

abbrev pub waited : {A : Type 0} → ℕ → Option (Run A) → Option (Run A)
waited delay none = none
waited delay (some r) = some (record r { delays = delay ∷ r.delays })

module _ {A : Type 0} (rc : ℕ) (rp_values : List String) (others : ℕ → ℕ → ℕ)
    (attempt : ℕ → Attempt A) where
  -- `while (true)`, for `retryCount` failures before; `none` when the fuel runs out.
  unfoldable pub retry_loop : ℕ → ℕ → ℕ → Option (Run A)
  retry_loop zero retry_count backoff = none
  retry_loop (suc fuel) retry_count backoff = elim (attempt retry_count) [
    | success a ↦
        some (record { result = success a; delays = []; backoff_ms = others retry_count backoff })
    | failure e ↦
        let delay = others retry_count backoff in
        let again = waited delay (retry_loop fuel (retry_count + 1) (next_backoff delay)) in
        if leb (retry_count + 1) rc && should_retry e rp_values
        then again
        else some (record { result = failure e; delays = []; backoff_ms = delay })
  ]

-- `makeRequest`: the body of a response with one of three status codes.
pub data Response (A : Type 0) : Type 0 where
  responds : ℕ → A → Response A
  breaks : Error → Response A

-- `HTTPResponseError` of lib/utils/error.js, which has the name of every `Error`.
abbrev pub status_error : ℕ → Error
status_error code = record { code = none; name = some "Error"; status_code = some code }

unfoldable pub make_request : {A : Type 0} → Response A → Attempt A
make_request (responds code body) =
    if code == 200 || code == 202 || code == 204 then success body else failure (status_error code)
make_request (breaks e) = failure e

-- `rc`: `none` stands for a value that `parseInt` makes nothing of, which allows no retry.
unfoldable pub retry_count_of : Option ℕ → ℕ
retry_count_of none = 0
retry_count_of (some n) = min n 5

-- The part of `HttpRequestor.request` from `this.backoffMs = 500` to the end of the loop.
unfoldable pub request :
    {A : Type 0} → Option ℕ → List String → (ℕ → ℕ → ℕ) → (ℕ → Response A) → Option (Run A)
unfolding retry_loop make_request retry_count_of
request rc rp_values others far_end =
    retry_loop (retry_count_of rc) rp_values others (λ n. make_request (far_end n))
      (retry_count_of rc + 1) 0 500

-- `maxReconnects`: `parseInt(hashObj.rc) || MAX_RECONNECTS`, at most 5.
unfoldable pub max_reconnects_of : Option ℕ → ℕ → ℕ
max_reconnects_of none default = min default 5
max_reconnects_of (some zero) default = min default 5
max_reconnects_of (some (suc n)) default = min (suc n) 5

-- The loop of `WsRequestor.request` that connects, from the backoff that earlier calls left.
unfoldable pub connect :
    {A : Type 0} → ℕ → List String → (ℕ → ℕ → ℕ) → (ℕ → Attempt A) → ℕ → Option (Run A)
unfolding retry_loop
connect max_reconnects rp_values others far_end backoff =
    retry_loop max_reconnects rp_values others far_end (max_reconnects + 1) 0 backoff

-- The alert that a failed webhook writes.
pub data Alert : Type 0 where
  webhook_connection_failure webhook_status_failure : Alert

unfoldable pub alert_of : Error → Alert
alert_of e =
    if is e.code "ECONNREFUSED"
    then webhook_connection_failure
    else if is e.name "StatusError"
    then webhook_status_failure
    else webhook_connection_failure
