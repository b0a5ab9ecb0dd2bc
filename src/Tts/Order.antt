-- ===== src/Tts/Order.antt =====
-- The text that `bufferTokens` of lib/utils/tts-streaming-buffer.js accepts against the text that is
-- sent, over runs of the event loop.
use jambonz_feature_server.Prelude.{
  ◌≡◌, true, List, [], ◌∷◌, ◌++◌, Units, String, append-nil, ap, ◌∙◌, append_assoc, sym, all,
}
use mathlib.Core.Bool.{and-eq-true_iff}
use jambonz_feature_server.Tts.Feed.{texts}
use jambonz_feature_server.Tts.Sending.{sends, payload, IsLive, IsCounted}
use jambonz_feature_server.Tts.System.{System, Op, step, run}
use jambonz_feature_server.Tts.Moves.{step-Moves}
use jambonz_feature_server.Tts.Accepting.{accepted, is_keeping}

regroup :
    (q a more c cs t u : Units)
    → q ++ a ≡ c ++ t
    → t ++ more ≡ cs ++ u
    → q ++ (a ++ more) ≡ (c ++ cs) ++ u
regroup q a more c cs t u p r =
    sym (append_assoc q a more)
    ∙ ap (λ x. x ++ more) p
    ∙ append_assoc c t more
    ∙ ap (◌++◌ c) r
    ∙ sym (append_assoc c cs u)

-- All that the calls of `bufferTokens` in a history accepted, in order.
unfoldable pub accepted_in : List Op → System → Units
accepted_in [] s = []
accepted_in (op ∷ ops) s = accepted op s.buffer ++ accepted_in ops (step op s)

abbrev pub spoken_text : List Units → Units
spoken_text [] = []
spoken_text (chunk ∷ chunks) = chunk ++ spoken_text chunks

abbrev pub payloads : List Units → List Units
payloads [] = []
payloads (chunk ∷ chunks) = payload chunk ++ payloads chunks

-- Take any list of `bufferTokens`, `flush`, connect, empty and timeout events and of waiting feeds
-- that go on, from a state with an endpoint and a vendor whose counter is the length of its queue.
-- Then the text queued before, followed by all that the calls accepted, is the text of some chunks
-- followed by what is still queued, and the endpoint was sent just those chunks, in that order,
-- each after `respace`, an empty one not at all.
pub run_in_order :
    (v : String) (ops : List Op) (s : System)
    → all is_keeping ops ≡ true
    → IsLive s.buffer v
    → IsCounted s.buffer
    → (chunks : List Units) × (texts s.buffer.queue ++ accepted_in ops s
        ≡ spoken_text chunks ++ texts (run ops s).buffer.queue)
      × (sends (run ops s).buffer.out ≡ sends s.buffer.out ++ payloads chunks)
unfolding run accepted_in
run_in_order v [] s k l n = ([], append-nil _, sym (append-nil _))
run_in_order v (op ∷ ops) s k l n =
    let (now, later) = (and-eq-true_iff _ _).0 k in
    let (chunk, m) = step-Moves v op s now l n in
    let (chunks, order, sent) = run_in_order v ops (step op s) later m.live m.counted in
    (
      chunk ∷ chunks,
      regroup (texts s.buffer.queue) (accepted op s.buffer) (accepted_in ops (step op s)) chunk
          (spoken_text chunks) (texts (step op s).buffer.queue) _ m.order order,
      sent
          ∙ ap (λ o. o ++ payloads chunks) m.sent
          ∙ append_assoc (sends s.buffer.out) (payload chunk) (payloads chunks),
    )
