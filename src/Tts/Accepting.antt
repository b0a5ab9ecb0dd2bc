-- ===== src/Tts/Accepting.antt =====
-- What the calls of lib/utils/tts-streaming-buffer.js promise to speak, and the ways `flush` and
-- `_onConnect` can go.
use jambonz_feature_server.Prelude.{
  ◌≡◌, Bool, true, false, [], ◌∷◌, ◌++◌, Units, String, if◌then◌else◌, arith, ◌==◌, ◌&&◌, ◌⊎◌,
}
use jambonz_feature_server.Tts.Scan.{is_whitespace}
use jambonz_feature_server.Tts.Buffer.{flush_marker, Buffer, settled, flush, do_flush, connected}
use jambonz_feature_server.Tts.Feed.{
  Reply, ok, reject_connection, reject_full, feed_queue, buffer_tokens, on_connect, await_flush,
  chunk_sent,
}
use jambonz_feature_server.Tts.Sending.{IsLive}
use jambonz_feature_server.Tts.System.{
  Op, buffers, flushes, connects, empties, times_out, continues,
}

-- The text that a reply of `ok` promises to speak: blank text on an empty buffer is dropped.
abbrev pub promised : Units → Buffer → Reply → Units
promised tokens b ok = if 0 == b.buffered_length && is_whitespace tokens then [] else tokens
promised tokens b reject_connection = []
promised tokens b reject_full = []

abbrev pub accepted : Op → Buffer → Units
accepted (buffers now tokens) b = promised tokens b (buffer_tokens now tokens b).1
accepted _ b = []

-- The operations that neither clear the queue nor change the endpoint or the vendor.
abbrev pub is_keeping : Op → Bool
is_keeping (buffers _ _) = true
is_keeping flushes = true
is_keeping connects = true
is_keeping empties = true
is_keeping (times_out _) = true
is_keeping (continues _) = true
is_keeping _ = false

pub on_connect-cases :
    (b : Buffer)
    → ((on_connect b).0 ≡ record b { status = connected })
      ⊎ ((on_connect b).0 ≡ (feed_queue false (record b { status = connected })).0)
unfolding on_connect
on_connect-cases b = ground arith

pub flush-cases :
    (b : Buffer)
    → (settled (flush b) ≡ b)
      ⊎ ((settled (flush b) ≡ record b { queue = b.queue ++ flush_marker ∷ [] })
          ⊎ (settled (flush b) ≡ settled (do_flush b)))
unfolding flush
flush-cases b = ground arith

pub settled-await_flush :
    {v : String} (b : Buffer)
    → IsLive b v
    → (await_flush chunk_sent (do_flush b)).0 ≡ settled (do_flush b)
unfolding do_flush
settled-await_flush b l = ground arith
