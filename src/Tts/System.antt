-- ===== src/Tts/System.antt =====
-- The buffer of lib/utils/tts-streaming-buffer.js under the event loop. A feed that waits for the
-- endpoint is an entry of `feeds`, and a step is one run of the event loop: a call by the session, an
-- event of the endpoint, the timeout, or a waiting feed that goes on.
use jambonz_feature_server.Prelude.{
  ℕ, suc, Bool, true, false, Option, none, some, List, [], ◌∷◌, ◌++◌, Units, String, if◌then◌else◌,
  get_elem?, take, drop,
}
use jambonz_feature_server.Tts.Buffer.{
  Buffer, settled, create, start, start_rejected, stop, flush, clear, on_connect_failure,
  on_tts_empty,
}
use jambonz_feature_server.Tts.Feed.{
  Pc, Progress, go_on, buffer_tokens, on_connect, on_connected, on_timeout,
}

-- A feed that waits; `announces` says that `_onConnect` emits its event once it has returned.
pub record Feed : Type 0 where
  pub pc : Pc
  pub announces : Bool

pub record System : Type 0 where
  pub buffer : Buffer
  pub feeds : List Feed

pub data Op : Type 0 where
  buffers : ℕ → Units → Op
  flushes clears stops connects connect_fails empties start_rejects : Op
  starts : Option String → Op
  times_out : ℕ → Op
  -- The waiting feed at a place of `feeds` goes on.
  continues : ℕ → Op
  -- The session's endpoint appears or goes away, and its stream opens or closes.
  session : Bool → Bool → Op

-- What a part of a feed leaves.
unfoldable pub after_part : Bool → Progress → List Feed → System
after_part announces (b, some pc) feeds = record {
  buffer = b;
  feeds = feeds ++ record { pc = pc; announces = announces } ∷ [];
}
after_part announces (b, none) feeds = record {
  buffer = if announces then on_connected b else b;
  feeds = feeds;
}

unfoldable pub step : Op → System → System
unfolding after_part
step (buffers now tokens) s = after_part false (buffer_tokens now tokens s.buffer).0 s.feeds
step flushes s = record s { buffer = settled (flush s.buffer) }
step clears s = record s { buffer = settled (clear s.buffer) }
step stops s = record s { buffer = settled (stop s.buffer) }
step connects s = after_part true (on_connect s.buffer) s.feeds
step connect_fails s = record s { buffer = on_connect_failure s.buffer }
step empties s = record s { buffer = on_tts_empty s.buffer }
step start_rejects s = record s { buffer = start_rejected s.buffer }
step (starts vendor) s = record s { buffer = settled (start vendor s.buffer) }
step (times_out now) s = after_part false (on_timeout now s.buffer) s.feeds
step (continues i) s = elim (get_elem? s.feeds i) [
  | none ↦ s
  | some f ↦ after_part f.announces (go_on f.pc s.buffer) (take i s.feeds ++ drop (suc i) s.feeds)
]
step (session ep open_now) s = record s { buffer = record buf { ep = ep; stream_open = open_now } }
  where
    buf : Buffer
    buf = s.buffer

unfoldable pub run : List Op → System → System
run [] s = s
run (op ∷ ops) s = run ops (step op s)

abbrev pub fresh : Bool → Bool → System
fresh ep stream_open = record { buffer = create ep stream_open; feeds = [] }
