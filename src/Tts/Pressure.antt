-- ===== src/Tts/Pressure.antt =====
-- The Pause and Resume events of lib/utils/tts-streaming-buffer.js.
use jambonz_feature_server.Prelude.{
  ℕ, suc, ◌≡◌, refl, inl, inr, Bool, true, false, Option, none, some, List, [], ◌∷◌, ◌++◌, Units,
  String, take, drop, Option-cases, arith, not, replicate, get_elem?, all,
}
use mathlib.Core.Bool.{and-eq-true_iff}
use jambonz_feature_server.Tts.Scan.{respace}
use jambonz_feature_server.Tts.Buffer.{
  spoken, flush_marker, Buffer, Command, connected_to, connect_failure, empty, connected, Effect,
  call, flush_stream, send, emit, api, api_command, do_flush, returned, thrown, Outcome,
  remove_timer, start, connecting, connect_stream, ensure_handlers, stop, flush, settled,
  init_handlers, start_rejected, on_connect_failure, on_tts_empty,
}
use jambonz_feature_server.Tts.Feed.{
  Progress, find_flush, flush_upto, with_tokens, front, flushes, feed_queue, go_on, buffer_tokens,
  buffer_text, on_connect, on_connected, on_timeout,
}
use jambonz_feature_server.Tts.Termination.{drain}
use jambonz_feature_server.Tts.System.{
  Feed, System, Op, buffers, flushes as flush_op, clears, stops, connects, connect_fails, empties,
  start_rejects, starts, times_out, continues, session, after_part, step, run,
}
use jambonz_feature_server.Tts.Paired.{
  IsPaired, resumes, resumes-append, log-IsPaired, api-IsPaired, do_flush-IsPaired,
  set_timer_if_needed-IsPaired, reject_tokens-IsPaired, feed_queue-IsPaired, go_on-IsPaired,
}

buffer_tokens-IsPaired :
    (now : ℕ) (tokens : Units) (b : Buffer) → IsPaired b → IsPaired (buffer_tokens now tokens b).0.0
unfolding buffer_tokens buffer_text
buffer_tokens-IsPaired now tokens b h =
    ground
      (arith, reject_tokens-IsPaired b h, feed_queue-IsPaired false (with_tokens now tokens b) h)

flush-IsPaired : (b : Buffer) → IsPaired b → IsPaired (settled (flush b))
unfolding flush
flush-IsPaired b h = ground (arith, do_flush-IsPaired b h)

stop-IsPaired : (b : Buffer) → IsPaired b → IsPaired (settled (stop b))
unfolding stop
stop-IsPaired b h =
    ground (arith, api-IsPaired Command.stop_stream (record b { event_handlers = [] }) h)

connect_stream-IsPaired : (o : Outcome) → IsPaired (settled o) → IsPaired (connect_stream o)
unfolding connect_stream
connect_stream-IsPaired (returned b) h = ground (arith, api-IsPaired Command.connect b h)
connect_stream-IsPaired (thrown b) h = h

start-IsPaired :
    (vendor : Option String) (b : Buffer) → IsPaired b → IsPaired (settled (start vendor b))
unfolding start ensure_handlers init_handlers
start-IsPaired vendor b h = ground (
  arith,
  connect_stream-IsPaired (returned (record b { vendor = vendor; status = connecting })) h,
  connect_stream-IsPaired
      (returned
        (record b { vendor = vendor; status = connecting; event_handlers = replicate 18 true }))
      h,
)

on_connect-IsPaired : (b : Buffer) → IsPaired b → IsPaired (on_connect b).0
unfolding on_connect
on_connect-IsPaired b h =
    ground (arith, feed_queue-IsPaired false (record b { status = connected }) h)

on_timeout-IsPaired : (now : ℕ) (b : Buffer) → IsPaired b → IsPaired (on_timeout now b).0
unfolding on_timeout
on_timeout-IsPaired now b h = ground (
  arith,
  feed_queue-IsPaired true (record b { timer = false }) h,
  set_timer_if_needed-IsPaired (record b { timer = false }) h,
)

after_part-IsPaired :
    (announces : Bool) (p : Progress) (feeds : List Feed)
    → IsPaired p.0
    → IsPaired (after_part announces p feeds).buffer
unfolding after_part on_connected
after_part-IsPaired announces (b, some pc) feeds h = h
after_part-IsPaired true (b, none) feeds h = log-IsPaired (emit connected_to) b refl refl h
after_part-IsPaired false (b, none) feeds h = h

abbrev pub is_clear : Op → Bool
is_clear clears = true
is_clear _ = false

not-eq-true : (b : Bool) → not b ≡ true → b ≡ false
not-eq-true b h = ground arith

step-IsPaired :
    (op : Op) (s : System) → is_clear op ≡ false → IsPaired s.buffer → IsPaired (step op s).buffer
unfolding step on_connect_failure on_tts_empty start_rejected
step-IsPaired (buffers now tokens) s k h =
    after_part-IsPaired false (buffer_tokens now tokens s.buffer).0 s.feeds
      (buffer_tokens-IsPaired now tokens s.buffer h)
step-IsPaired flush_op s k h = flush-IsPaired s.buffer h
step-IsPaired clears s k h = cc
step-IsPaired stops s k h = stop-IsPaired s.buffer h
step-IsPaired connects s k h =
    after_part-IsPaired true (on_connect s.buffer) s.feeds (on_connect-IsPaired s.buffer h)
step-IsPaired connect_fails s k h = log-IsPaired (emit connect_failure) s.buffer refl refl h
step-IsPaired empties s k h = log-IsPaired (emit empty) s.buffer refl refl h
step-IsPaired start_rejects s k h = h
step-IsPaired (starts vendor) s k h = start-IsPaired vendor s.buffer h
step-IsPaired (times_out now) s k h =
    after_part-IsPaired false (on_timeout now s.buffer) s.feeds (on_timeout-IsPaired now s.buffer h)
step-IsPaired (continues i) s k h = elim (Option-cases (get_elem? s.feeds i)) [
  | inl missing ↦ rw (missing, step) h
  | inr (f, found) ↦
      rw (found, step)
        (after_part-IsPaired f.announces (go_on f.pc s.buffer)
          (take i s.feeds ++ drop (suc i) s.feeds) (go_on-IsPaired f.pc s.buffer h))
]
step-IsPaired (session ep open_now) s k h = h

-- After any list of operations other than `clear`, from a state where the Pause events sent are the
-- Resume events plus one exactly if the buffer counts as full, the same holds.
pub run-IsPaired :
    (ops : List Op) (s : System)
    → all (λ op. not (is_clear op)) ops ≡ true
    → IsPaired s.buffer
    → IsPaired (run ops s).buffer
unfolding run
run-IsPaired [] s k h = h
run-IsPaired (op ∷ ops) s k h =
    let (now, later) = (and-eq-true_iff _ _).0 k in
    run-IsPaired ops (step op s) later (step-IsPaired op s (not-eq-true (is_clear op) now) h)

-- A connected buffer that told the client to pause, with a text and a flush marker queued.
abbrev pub flushing : String → Units → Buffer → Buffer
flushing v t b = record b {
  queue = spoken t ∷ flush_marker ∷ [];
  full = true;
  status = connected;
  vendor = some v;
  ep = true;
  stream_open = true;
}

-- Where a connected buffer that counts as full holds one text that is not empty and a flush marker,
-- the feed empties the queue within two awaits, sends no Resume, and the buffer still counts as
-- full.
pub flush_forgets_resume :
    (v : String) (b : Buffer) (c : ℕ) (t : Units)
    → (d : Buffer) × (drain 2 (feed_queue false (flushing v (c ∷ t) b)) ≡ some d)
      × (d.queue ≡ [])
      × (d.full ≡ true)
      × (resumes d.out ≡ resumes b.out)
unfolding feed_queue flushes find_flush flush_upto go_on front drain remove_timer api do_flush
flush_forgets_resume v b c t = (
  _,
  refl,
  refl,
  refl,
  omega (arith, resumes-append (b.out ++ sent) (flushed ∷ []), resumes-append b.out sent),
)
  where
    sent : List Effect
    sent = call (api_command v) (send (respace (c ∷ t ++ []))) ∷ []

    flushed : Effect
    flushed = call (api_command v) flush_stream
