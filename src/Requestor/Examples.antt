-- ===== src/Requestor/Examples.antt =====
-- Webhooks of lib/utils/http-requestor.js, and messages of lib/utils/ws-requestor.js.
use jambonz_feature_server.Prelude.{
  if◌then◌else◌, ◌==◌, ℕ, zero, suc, ◌≤◌, ◌≡◌, refl, true, false, none, some, List, [], ◌∷◌, length,
  arith,
}
use jambonz_feature_server.Requestor.Retry.{
  Attempt, success, failure, Run, Response, responds, request, make_request, retry_count_of,
}
use jambonz_feature_server.Requestor.Retrying.{Came, request-Came}
use jambonz_feature_server.Requestor.Socket.{Socket, init, Pending}
use jambonz_feature_server.Requestor.Settling.{
  Op, sends, acked, rings, closes, IsTracked, run, count_sends, run-IsTracked,
}

-- Two errors of the server, then an answer.
abbrev recovers : ℕ → Response ℕ
recovers zero = responds 503 0
recovers (suc zero) = responds 500 0
recovers (suc (suc n)) = responds 200 7

-- Another request begins while this one makes its second attempt.
abbrev reset_once : ℕ → ℕ → ℕ
reset_once n backoff = if n == 1 then 500 else backoff

request-Came_example :
    (r : Run ℕ) × (request (some 3) ("5xx" ∷ []) reset_once recovers ≡ some r)
    × Came
        (retry_count_of (some 3))
        ("5xx" ∷ [])
        reset_once
        (λ n. make_request (recovers n))
        0
        500
        r.delays
        r.result
    × (length r.delays ≤ retry_count_of (some 3))
    × (length r.delays ≤ 5)
request-Came_example = request-Came (some 3) ("5xx" ∷ []) reset_once recovers

abbrev refuses_once : ℕ → Attempt ℕ
refuses_once zero = failure (record { code = some "ECONNREFUSED"; name = none; status_code = none })
refuses_once (suc n) = success 7

init-IsTracked : IsTracked 0 init
init-IsTracked = record { timers = tt; once = λ q. omega arith; fresh = λ q le. refl }

abbrev exchange : List Op
exchange = sends true ∷ sends false ∷ acked 0 ∷ rings 1 ∷ closes ∷ []

run-IsTracked_example : IsTracked (count_sends 0 exchange) (run exchange 0 init)
run-IsTracked_example = run-IsTracked exchange 0 init init-IsTracked

-- The socket after the first message was sent.
abbrev greeted : Socket
unfolding run
greeted = run (sends true ∷ []) 0 init

abbrev first : Pending
first = record { timer = 0; promise = 0 }
