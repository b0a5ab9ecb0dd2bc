-- ===== src/Tts/Feed.antt =====
-- `_feedQueue` of lib/utils/tts-streaming-buffer.js. The function awaits the endpoint between its
-- parts, and other operations run meanwhile; all that it keeps across an `await` is where it stands
-- and `handlingTimeout`. So it is modelled as the parts from one `await` to the next, and a `Pc`
-- that says where a feed that waits goes on.
use jambonz_feature_server.Prelude.{
  ℕ, suc, ◌+◌, ◌-◌, Bool, true, false, ◌&&◌, Option, none, some, List, [], ◌∷◌, ◌++◌, Units, ◌==◌,
  ltb, leb, length, take, drop, if◌then◌else◌,
}
use Prim.Native.Nat.{min}
use jambonz_feature_server.Tts.Scan.{
  is_whitespace, respace, find_sentence_boundary, find_word_boundary,
}
use jambonz_feature_server.Tts.Buffer.{
  Item, spoken, flush_marker, Status, failed, connected, Buffer, Outcome, returned, thrown, send,
  emit, pause, resume, connected_to, log, is_connected, api, do_flush, set_timer_if_needed,
  remove_timer, max_chunk_size, high_water_buffer_size, low_water_buffer_size, timeout_retry_msecs,
}

-- The `await` at which a feed stands. All but the last carry `handlingTimeout`.
pub data Pc : Type 0 where
  flush_text_sent flush_sent front_flush_sent : Bool → Pc
  chunk_sent : Pc

-- The buffer after a part of the feed, and where the feed waits, `none` when it has returned.
abbrev pub Progress : Type 0
Progress = Buffer × Option Pc

-- The outer `catch`.
abbrev pub abandon : Buffer → Progress
abandon b = (record b { queue = []; buffered_length = 0 }, none)

-- All the text among the first items of the queue, and the items after a flush marker there.
abbrev pub texts : List Item → Units
texts [] = []
texts (spoken t ∷ q) = t ++ texts q
texts (flush_marker ∷ q) = texts q

-- `flushText.length > 0`
abbrev pub nonempty : Units → Bool
nonempty [] = false
nonempty (_ ∷ _) = true

-- `findIndex((item, idx) => item.type === 'flush' && idx > 0)`, over the items after the first.
unfoldable pub find_flush_after : List Item → ℕ → Option ℕ
find_flush_after [] idx = none
find_flush_after (spoken _ ∷ q) idx = find_flush_after q (suc idx)
find_flush_after (flush_marker ∷ q) idx = some idx

unfoldable pub find_flush : List Item → Option ℕ
unfolding find_flush_after
find_flush [] = none
find_flush (_ ∷ q) = find_flush_after q 1

-- `if (queue.length > 0 && queue[0].type === 'flush') queue.shift()`
abbrev pub shift_flush : List Item → List Item
shift_flush (flush_marker ∷ q) = q
shift_flush q = q

-- `await this._doFlush()`
abbrev pub await_flush : Pc → Outcome → Progress
await_flush pc (returned b) = (b, some pc)
await_flush pc (thrown b) = abandon b

-- The body of the loop over the flush markers, for a marker at `index`.
unfoldable pub flush_upto : ℕ → Bool → Buffer → Progress
flush_upto index handling b =
    let flush_text = texts (take index b.queue) in
    let b' = record b {
      queue = shift_flush (drop index b.queue);
      buffered_length = b.buffered_length - length flush_text;
    } in
    if nonempty flush_text
    then (api (send (respace flush_text)) b', some (flush_text_sent handling))
    else await_flush (flush_sent handling) (do_flush b')

-- The text of the leading text items, up to the first that brings it to `max_chunk_size`.
unfoldable pub combine : Units → List Item → Units
combine acc [] = acc
combine acc (flush_marker ∷ q) = acc
combine acc (spoken t ∷ q) =
    let more = combine (acc ++ t) q in
    if leb max_chunk_size (length (acc ++ t)) then acc ++ t else more

-- The loop that deducts the lengths of the items, with the `splice`.
unfoldable pub consume : ℕ → List Item → List Item
consume remaining [] = []
consume remaining (flush_marker ∷ q) = flush_marker ∷ q
consume remaining (spoken t ∷ q) =
    let rest = consume (remaining - length t) q in
    if leb (length t) remaining then rest else spoken (drop remaining t) ∷ q

-- `chunkEnd`: `none` for every value that is not positive.
unfoldable pub chunk_end : Bool → Units → Option ℕ
chunk_end handling combined =
    let limit = min max_chunk_size (length combined) in
    elim (find_sentence_boundary combined limit) [
      | some (suc n) ↦ some (suc n)
      | _ ↦
          if handling
          then (elim (find_word_boundary combined limit) [ some (suc n) ↦ some (suc n) | _ ↦ none ])
          else none
    ]

-- From the chosen end of the chunk on, up to the `await`.
unfoldable pub send_chunk : ℕ → Units → Buffer → Progress
send_chunk end combined b =
    let chunk = take end combined in
    let b' = record b { queue = consume end b.queue; buffered_length = b.buffered_length - end } in
    let restored = record b' {
      queue = spoken chunk ∷ b'.queue;
      buffered_length = b'.buffered_length + end;
    } in
    if is_whitespace chunk
    then (set_timer_if_needed b, none)
    else if is_whitespace (respace chunk)
    then (set_timer_if_needed restored, none)
    else (api (send (respace chunk)) b', some chunk_sent)

-- Phase 2.
unfoldable pub feed_text : Bool → Buffer → Progress
feed_text handling b = elim (combine [] b.queue) [
  | [] ↦ (remove_timer b, none)
  | c ∷ cs ↦ elim (chunk_end handling (c ∷ cs)) [
    | none ↦ (set_timer_if_needed b, none)
    | some end ↦ send_chunk end (c ∷ cs) b
  ]
]

-- The loop over flush markers at the very front, and phase 2 after it.
unfoldable pub front_of : Bool → Buffer → List Item → Progress
front_of handling b [] = (remove_timer b, none)
front_of handling b (flush_marker ∷ q) =
    await_flush (front_flush_sent handling) (do_flush (record b { queue = q }))
front_of handling b (spoken t ∷ q) = feed_text handling b

unfoldable pub front : Bool → Buffer → Progress
unfolding front_of
front handling b = front_of handling b b.queue

-- The head of the loop of phase 1.
unfoldable pub flushes : Bool → Buffer → Progress
flushes handling b = elim (find_flush b.queue) [
  | some index ↦ flush_upto index handling b
  | none ↦ front handling b
]

-- `_feedQueue(handlingTimeout)`, up to its first `await`.
unfoldable pub feed_queue : Bool → Buffer → Progress
feed_queue handling b =
    if b.stream_open && b.ep && is_connected b.status then flushes handling b else (b, none)

-- What follows the send of a chunk: the test of the low water mark.
unfoldable pub resume_if_low : Buffer → Buffer
resume_if_low b =
    if b.full && leb b.buffered_length low_water_buffer_size
    then log (emit resume) (record b { full = false })
    else b

-- A feed that waited goes on to its next `await`.
unfoldable pub go_on : Pc → Buffer → Progress
go_on (flush_text_sent handling) b = await_flush (flush_sent handling) (do_flush b)
go_on (flush_sent handling) b = flushes handling b
go_on (front_flush_sent handling) b = front handling b
go_on chunk_sent b = feed_queue false (resume_if_low b)

pub data Reply : Type 0 where
  ok reject_connection reject_full : Reply

-- The buffer with the tokens at the end of the queue.
abbrev pub with_tokens : ℕ → Units → Buffer → Buffer
with_tokens now tokens b = record b {
  queue = b.queue ++ spoken tokens ∷ [];
  buffered_length = b.buffered_length + length tokens;
  last_update_time = now;
}

unfoldable pub buffer_text : ℕ → Units → Buffer → Progress
buffer_text now tokens b = feed_queue false (with_tokens now tokens b)

-- The rejection of tokens for which there is no room.
unfoldable pub reject_tokens : Buffer → Buffer
reject_tokens b = if b.full then b else log (emit pause) (record b { full = true })

abbrev pub is_failed : Status → Bool
is_failed failed = true
is_failed _ = false

-- `bufferTokens`, up to the first `await` of its feed.
unfoldable pub buffer_tokens : ℕ → Units → Buffer → Progress × Reply
buffer_tokens now tokens b =
    if is_failed b.status
    then ((b, none), reject_connection)
    else if 0 == b.buffered_length && is_whitespace tokens
    then ((b, none), ok)
    else if ltb high_water_buffer_size (b.buffered_length + length tokens)
    then ((reject_tokens b, none), reject_full)
    else (buffer_text now tokens b, ok)

-- `_onConnect`: the event follows the feed; here it is emitted once the feed has returned.
unfoldable pub on_connect : Buffer → Progress
on_connect b =
    let c = record b { status = connected } in
    elim b.queue [ [] ↦ (c, none) | _ ∷ _ ↦ feed_queue false c ]

unfoldable pub on_connected : Buffer → Buffer
on_connected b = log (emit connected_to) b

-- `_onTimeout`
unfoldable pub on_timeout : ℕ → Buffer → Progress
on_timeout now b =
    let c = record b { timer = false } in
    if ltb (now - b.last_update_time) timeout_retry_msecs
    then (set_timer_if_needed c, none)
    else feed_queue true c
