-- ===== src/Dtmf/Buffering.antt =====
-- What the digit buffer of lib/tasks/dialogflow/digit-buffer.js holds and reports.
use mathlib.Core.Path.{subst}
use jambonz_feature_server.Prelude.{
  ℕ, ◌+◌, ◌≤◌, ◌<◌, ◌≡◌, ◌∙◌, ap, sym, true, false, Option, List, [], ◌∷◌, ◌++◌, append_assoc,
  Units, length, length-append, arith, if◌then◌else◌,
}
use jambonz_feature_server.Dtmf.DigitBuffer.{
  Opts, DigitBuffer, create, report, flush, fulfill, is_term, process, on_inter_digit_timeout,
}

-- Fewer digits than the limit are held, and the timer runs just when enough of them are.
pub record IsReady (b : DigitBuffer) : Type 0 where
  pub limit : 0 < b.max_digits
  pub wanted : 0 < b.min_digits
  pub below : length b.buffer < b.max_digits
  pub timed : b.armed ≡ true → b.min_digits ≤ length b.buffer
  pub waits : b.min_digits ≤ length b.buffer → b.armed ≡ true

create-IsReady : (opts : Opts) → IsReady (create opts)
unfolding create
create-IsReady opts = ground arith

fulfill-IsReady : (b : DigitBuffer) → 0 < b.max_digits → 0 < b.min_digits → IsReady (fulfill b)
unfolding fulfill
fulfill-IsReady b h w = ground arith

-- A single digit keeps the buffer ready.
pub process-IsReady : (d : ℕ) (b : DigitBuffer) → IsReady b → IsReady (process (d ∷ []) b)
unfolding process
process-IsReady d b h = ground (arith, length-append b.buffer (d ∷ []))

abbrev pub process_all : List ℕ → DigitBuffer → DigitBuffer
process_all [] b = b
process_all (d ∷ ds) b = process_all ds (process (d ∷ []) b)

abbrev pub NoTerm : Option Units → List ℕ → Type 0
NoTerm term [] = Unit
NoTerm term (d ∷ ds) = (is_term term (d ∷ []) ≡ false) × NoTerm term ds

-- What can happen to the buffer: a digit, the timeout, or a call of `flush`.
pub data Op : Type 0 where
  digit : ℕ → Op
  timeout flushed : Op

-- The timeout comes only while the timer runs.
abbrev pub step : Op → DigitBuffer → DigitBuffer
step (digit d) b = process (d ∷ []) b
step timeout b = if b.armed then on_inter_digit_timeout b else b
step flushed b = flush b

abbrev pub run : List Op → DigitBuffer → DigitBuffer
run [] b = b
run (op ∷ ops) b = run ops (step op b)

step-IsReady : (op : Op) (b : DigitBuffer) → IsReady b → IsReady (step op b)
unfolding flush on_inter_digit_timeout
step-IsReady (digit d) b h = process-IsReady d b h
step-IsReady timeout b h =
    ground (arith, fulfill-IsReady (record b { armed = false }) h.limit h.wanted)
step-IsReady flushed b h = ground arith

run-IsReady : (ops : List Op) (b : DigitBuffer) → IsReady b → IsReady (run ops b)
run-IsReady [] b h = h
run-IsReady (op ∷ ops) b h = run-IsReady ops (step op b) (step-IsReady op b h)

-- After any list of digits, time-outs and flushes from a new digit buffer, for any options, fewer
-- digits than the maximum are held, and the inter-digit timer runs exactly if at least the minimum
-- is held.
pub run-create-IsReady : (opts : Opts) (ops : List Op) → IsReady (run ops (create opts))
run-create-IsReady opts ops = run-IsReady ops (create opts) (create-IsReady opts)

process_keeps :
    (d : ℕ) (b : DigitBuffer)
    → is_term b.term_digit (d ∷ []) ≡ false
    → length b.buffer + 1 < b.max_digits
    → ((process (d ∷ []) b).buffer ≡ b.buffer ++ d ∷ [])
      × ((process (d ∷ []) b).out ≡ b.out)
      × ((process (d ∷ []) b).max_digits ≡ b.max_digits)
      × ((process (d ∷ []) b).term_digit ≡ b.term_digit)
      × ((process (d ∷ []) b).template ≡ b.template)
unfolding process
process_keeps d b n h = ground (arith, length-append b.buffer (d ∷ []))

process_fills :
    (d : ℕ) (b : DigitBuffer)
    → is_term b.term_digit (d ∷ []) ≡ false
    → length b.buffer + 1 ≡ b.max_digits
    → ((process (d ∷ []) b).buffer ≡ [])
      × ((process (d ∷ []) b).out ≡ b.out ++ report b.template (b.buffer ++ d ∷ []) ∷ [])
unfolding process fulfill flush
process_fills d b n h = ground (arith, length-append b.buffer (d ∷ []))

-- Where the digits keyed in are none of them the terminator and fill the buffer to its maximum,
-- they empty the buffer, and the digits held before and they, in order, are reported once.
pub process_all_fills :
    (ds : List ℕ) (d : ℕ) (b : DigitBuffer)
    → NoTerm b.term_digit (ds ++ d ∷ [])
    → length b.buffer + length ds + 1 ≡ b.max_digits
    → ((process_all (ds ++ d ∷ []) b).buffer ≡ [])
      × ((process_all (ds ++ d ∷ []) b).out
          ≡ b.out ++ report b.template (b.buffer ++ (ds ++ d ∷ [])) ∷ [])
process_all_fills [] d b n h = process_fills d b n.0 (omega arith)
process_all_fills (e ∷ ds) d b n h =
    let (held, out, limit, term, template) = process_keeps e b n.0 (omega arith) in
    let room : length (process (e ∷ []) b).buffer + length ds + 1
        ≡ (process (e ∷ []) b).max_digits =
      omega (arith, ap length held, length-append b.buffer (e ∷ [])) in
    let (empty, reported) =
      process_all_fills ds d (process (e ∷ []) b)
        (subst (λ t. NoTerm t (ds ++ d ∷ [])) (sym term) n.1) room in
    let whole : (process (e ∷ []) b).buffer ++ (ds ++ d ∷ []) ≡ b.buffer ++ (e ∷ ds ++ d ∷ []) =
      ap (λ s. s ++ (ds ++ d ∷ [])) held ∙ append_assoc b.buffer (e ∷ []) (ds ++ d ∷ []) in
    (empty, reported ∙ cc (out, template, whole))
