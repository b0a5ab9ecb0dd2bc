-- ===== src/Tts/Examples.antt =====
-- Runs of the buffer of lib/utils/tts-streaming-buffer.js.
use jambonz_feature_server.Prelude.{
  ◌*◌, ◌≡◌, refl, true, false, some, List, [], ◌∷◌, ◌++◌, Units, units, arith,
}
use jambonz_feature_server.Tts.Buffer.{Buffer, create, connected}
use jambonz_feature_server.Tts.Feed.{feed_queue, texts}
use jambonz_feature_server.Tts.System.{Op, System, buffers, flushes, continues, run}
use jambonz_feature_server.Tts.Sending.{sends, IsLive}
use jambonz_feature_server.Tts.Invariant.{IsValid, run-IsValid}
use jambonz_feature_server.Tts.Order.{run_in_order, accepted_in, spoken_text, payloads}
use jambonz_feature_server.Tts.Termination.{drain, weight, feed_queue_ends}
use jambonz_feature_server.Tts.Paired.{IsPaired}
use jambonz_feature_server.Tts.Pressure.{run-IsPaired}
use jambonz_feature_server.Tts.Bounds.{chunk_end-le}
use jambonz_feature_server.Tts.Buffer.{max_chunk_size}
use jambonz_feature_server.Tts.Feed.{chunk_end}
use jambonz_feature_server.Prelude.{◌+◌, ◌<◌, ◌≤◌, length}

-- A buffer that is connected, with nothing queued.
abbrev live : System
unfolding create
live = record {
  buffer = record (create true true) { status = connected; vendor = some "deepgram" };
  feeds = [];
}

abbrev talk : List Op
talk =
    buffers 0 (units "Hello. ")
    ∷ continues 0
    ∷ buffers 1 (units "How are you")
    ∷ flushes
    ∷ continues 0
    ∷ []

live-IsValid : IsValid live.buffer
unfolding create
live-IsValid = record { counted = refl; bounded = omega arith }

live-IsLive : IsLive live.buffer "deepgram"
unfolding create
live-IsLive = record { has_ep = refl; has_vendor = refl }

run_in_order_example :
    (chunks : List Units) × (texts live.buffer.queue ++ accepted_in talk live
      ≡ spoken_text chunks ++ texts (run talk live).buffer.queue)
    × (sends (run talk live).buffer.out ≡ sends live.buffer.out ++ payloads chunks)
run_in_order_example = run_in_order "deepgram" talk live refl live-IsLive live-IsValid.counted

run-IsValid_example : IsValid (run talk live).buffer
run-IsValid_example = run-IsValid talk live live-IsValid

run-IsPaired_example : IsPaired (run talk live).buffer
unfolding create
run-IsPaired_example = run-IsPaired talk live refl refl

feed_queue_ends_example :
    (c : Buffer) × (drain (2 * weight live.buffer.queue) (feed_queue false live.buffer) ≡ some c)
feed_queue_ends_example = feed_queue_ends false live.buffer

two_sentences : chunk_end false (units "Hi. How") ≡ some 3
unfolding chunk_end jambonz_feature_server.Tts.Scan.find_sentence_boundary
two_sentences = refl

chunk_end-le_example : (0 < 3) × (3 ≤ length (units "Hi. How")) × (3 ≤ max_chunk_size + 1)
chunk_end-le_example = chunk_end-le false (units "Hi. How") 3 two_sentences
