-- ===== src/Tts/Invariant.antt =====
-- What holds of the buffer of lib/utils/tts-streaming-buffer.js between two runs of the event loop.
use jambonz_feature_server.Prelude.{
  ℕ, ◌+◌, ◌≤◌, ◌≡◌, refl, Bool, true, false, Option, none, some, List, [], ◌∷◌, ◌++◌, Units, String,
  length, get_elem?, Option-cases, inl, inr, arith, length-append, append-nil, ap, ◌∙◌,
}
use jambonz_feature_server.Tts.Buffer.{
  Item, spoken, flush_marker, Buffer, Command, settled, start, start_rejected, stop, flush, clear,
  api, do_flush, init_handlers, connect_stream, ensure_handlers, connected, on_connect_failure,
  on_tts_empty, high_water_buffer_size, set_timer_if_needed,
}
use jambonz_feature_server.Tts.Feed.{
  Progress, feed_queue, buffer_tokens, buffer_text, reject_tokens, on_connect, on_connected,
  on_timeout, texts,
}
use jambonz_feature_server.Tts.Queue.{texts-append}
use jambonz_feature_server.Tts.Counted.{Shrinks, feed_queue-Shrinks, go_on-Shrinks}
use jambonz_feature_server.Tts.System.{
  Feed, System, Op, buffers, flushes, clears, stops, connects, connect_fails, empties,
  start_rejects, starts, times_out, continues, session, after_part, step, run,
}

-- `bufferedLength` is the length of the queued text, and within the high water mark.
pub record IsValid (b : Buffer) : Type 0 where
  pub counted : b.buffered_length ≡ length (texts b.queue)
  pub bounded : b.buffered_length ≤ high_water_buffer_size

Shrinks-IsValid : {b c : Buffer} → IsValid b → Shrinks b c → IsValid c
Shrinks-IsValid v s = record { counted = s.counted; bounded = omega (arith, s.no_more, v.bounded) }

texts-append_marker : (q : List Item) → texts (q ++ flush_marker ∷ []) ≡ texts q
texts-append_marker q = texts-append q (flush_marker ∷ []) ∙ append-nil (texts q)

api-IsValid : (c : Command) (b : Buffer) → IsValid b → IsValid (api c b)
unfolding api
api-IsValid c b v = ground arith

do_flush-IsValid : (b : Buffer) → IsValid b → IsValid (settled (do_flush b))
unfolding do_flush
do_flush-IsValid b v = ground (arith, api-IsValid Command.flush_stream b v)

flush-IsValid : (b : Buffer) → IsValid b → IsValid (settled (flush b))
unfolding flush
flush-IsValid b v = ground (arith, do_flush-IsValid b v, texts-append_marker b.queue)

clear-IsValid : (b : Buffer) → IsValid b → IsValid (settled (clear b))
unfolding clear
clear-IsValid b v = ground arith

stop-IsValid : (b : Buffer) → IsValid b → IsValid (settled (stop b))
unfolding stop
stop-IsValid b v = ground arith

start-IsValid :
    (vendor : Option String) (b : Buffer) → IsValid b → IsValid (settled (start vendor b))
unfolding start init_handlers connect_stream ensure_handlers api
start-IsValid vendor b v = ground arith

set_timer_if_needed-IsValid : (b : Buffer) → IsValid b → IsValid (set_timer_if_needed b)
unfolding set_timer_if_needed
set_timer_if_needed-IsValid b v = ground arith

feed_queue-IsValid : (handling : Bool) (b : Buffer) → IsValid b → IsValid (feed_queue handling b).0
feed_queue-IsValid handling b v = Shrinks-IsValid v (feed_queue-Shrinks b v.counted handling)

on_timeout-IsValid : (now : ℕ) (b : Buffer) → IsValid b → IsValid (on_timeout now b).0
unfolding on_timeout
on_timeout-IsValid now b v =
    let c : Buffer = record b { timer = false } in
    let w : IsValid c = record { counted = v.counted; bounded = v.bounded } in
    ground (arith, set_timer_if_needed-IsValid c w, feed_queue-IsValid true c w)

on_connect-IsValid : (b : Buffer) → IsValid b → IsValid (on_connect b).0
unfolding on_connect
on_connect-IsValid b v =
    let c : Buffer = record b { status = connected } in
    let w : IsValid c = record { counted = v.counted; bounded = v.bounded } in
    ground (arith, feed_queue-IsValid false c w)

buffer_text-IsValid :
    (now : ℕ) (tokens : Units) (b : Buffer)
    → IsValid b
    → b.buffered_length + length tokens ≤ high_water_buffer_size
    → IsValid (buffer_text now tokens b).0
unfolding buffer_text
buffer_text-IsValid now tokens b v room =
    feed_queue-IsValid false _ (record { counted = longer; bounded = room })
  where
    longer : b.buffered_length + length tokens ≡ length (texts (b.queue ++ spoken tokens ∷ []))
    longer = omega (
      arith,
      v.counted,
      ap length (texts-append b.queue (spoken tokens ∷ [])),
      length-append (texts b.queue) (tokens ++ []),
      ap length (append-nil tokens),
    )

buffer_tokens-IsValid :
    (now : ℕ) (tokens : Units) (b : Buffer) → IsValid b → IsValid (buffer_tokens now tokens b).0.0
unfolding buffer_tokens reject_tokens
buffer_tokens-IsValid now tokens b v = ground (arith, buffer_text-IsValid now tokens b v)

after_part-IsValid :
    (announces : Bool) (p : Progress) (feeds : List Feed)
    → IsValid p.0
    → IsValid (after_part announces p feeds).buffer
unfolding after_part on_connected
after_part-IsValid announces (b, some pc) feeds v = v
after_part-IsValid true (b, none) feeds v = record { counted = v.counted; bounded = v.bounded }
after_part-IsValid false (b, none) feeds v = v

pub step-IsValid : (op : Op) (s : System) → IsValid s.buffer → IsValid (step op s).buffer
unfolding step on_connect_failure on_tts_empty start_rejected
step-IsValid (buffers now tokens) s v =
    after_part-IsValid false _ s.feeds (buffer_tokens-IsValid now tokens s.buffer v)
step-IsValid flushes s v = flush-IsValid s.buffer v
step-IsValid clears s v = clear-IsValid s.buffer v
step-IsValid stops s v = stop-IsValid s.buffer v
step-IsValid connects s v = after_part-IsValid true _ s.feeds (on_connect-IsValid s.buffer v)
step-IsValid connect_fails s v = record { counted = refl; bounded = omega arith }
step-IsValid empties s v = record { counted = v.counted; bounded = v.bounded }
step-IsValid start_rejects s v = record { counted = v.counted; bounded = v.bounded }
step-IsValid (starts vendor) s v = start-IsValid vendor s.buffer v
step-IsValid (times_out now) s v =
    after_part-IsValid false _ s.feeds (on_timeout-IsValid now s.buffer v)
step-IsValid (continues i) s v = elim (Option-cases (get_elem? s.feeds i)) [
  | inl missing ↦ rw (missing, step) v
  | inr (f, found) ↦
      rw (found, step)
        (after_part-IsValid f.announces _ _
          (Shrinks-IsValid v (go_on-Shrinks f.pc s.buffer v.counted)))
]
step-IsValid (session ep open_now) s v = record { counted = v.counted; bounded = v.bounded }

-- After any list of operations and of waiting feeds that go on, from a state where `bufferedLength`
-- is the length of the queued text and at most the high water mark, the same holds.
pub run-IsValid : (ops : List Op) (s : System) → IsValid s.buffer → IsValid (run ops s).buffer
unfolding run
run-IsValid [] s v = v
run-IsValid (op ∷ ops) s v = run-IsValid ops (step op s) (step-IsValid op s v)
