-- ===== src/Tts/Termination.antt =====
-- How much a feed of lib/utils/tts-streaming-buffer.js has left to do.
use jambonz_feature_server.Prelude.{
  ℕ, zero, suc, ◌+◌, ◌-◌, ◌*◌, ◌≤◌, ◌<◌, ◌≡◌, refl, ap, ◌∙◌, ◌⊎◌, inl, inr, Bool, false, Option,
  none, some, List, [], ◌∷◌, Units, length, take, drop, length-append, length-take, length-drop,
  Bool-cases, Option-cases, arith, ◌&&◌,
}
use native.Mathlib.Nat.{add-zero}
use mathlib.Core.Path.{subst}
use jambonz_feature_server.Tts.Scan.{is_whitespace}
use jambonz_feature_server.Tts.Buffer.{
  Item, spoken, flush_marker, Buffer, Command, flush_stream, api, do_flush, returned, thrown,
  is_connected,
}
use jambonz_feature_server.Tts.Feed.{
  Pc, nonempty, flush_text_sent, flush_sent, front_flush_sent, chunk_sent, Progress, texts,
  shift_flush, combine, consume, chunk_end, find_flush, find_flush_after, flush_upto, send_chunk,
  feed_text, front, front_of, flushes, feed_queue, resume_if_low, go_on, await_flush,
}
use jambonz_feature_server.Tts.Bounds.{chunk_end-le}
use jambonz_feature_server.Tts.Queue.{texts-take-drop, take-combine-texts-consume}
use jambonz_feature_server.Tts.Respace.{is_whitespace-respace}

-- How much is queued: the items and the text in them.
abbrev pub weight : List Item → ℕ
weight q = length q + length (texts q)

abbrev pub rank : Pc → ℕ
rank (flush_text_sent _) = 1
rank _ = 0

-- What is left to do at an `await`, below `m`; nothing once the feed has returned.
abbrev Below : ℕ → Progress → Type 0
Below m (b, none) = Unit
Below m (b, some pc) = 2 * weight b.queue + rank pc < m

api-queue : (c : Command) (b : Buffer) → (api c b).queue ≡ b.queue
unfolding api
api-queue c b = ground arith

do_flush-cases :
    (b : Buffer) → (do_flush b ≡ returned (api flush_stream b)) ⊎ (do_flush b ≡ thrown b)
unfolding do_flush
do_flush-cases b = ground arith

await_flush-Below :
    (m : ℕ) (pc : Pc) (b : Buffer)
    → 2 * weight b.queue + rank pc < m
    → Below m (await_flush pc (do_flush b))
await_flush-Below m pc b h = elim (do_flush-cases b) [
  | inl sent ↦ rw (sent, api-queue flush_stream b) h
  | inr gone ↦ rw gone tt
]

length-shift_flush : (q : List Item) → length (shift_flush q) ≤ length q
length-shift_flush [] = omega arith
length-shift_flush (spoken t ∷ q) = omega arith
length-shift_flush (flush_marker ∷ q) = omega arith

-- A marker that `findIndex` finds lies behind the first item.
find_flush_after-pos : (q : List Item) (idx i : ℕ) → find_flush_after q idx ≡ some i → idx ≤ i
unfolding find_flush_after
find_flush_after-pos [] idx i h = cc
find_flush_after-pos (spoken _ ∷ q) idx i h = omega (arith, find_flush_after-pos q (suc idx) i h)
find_flush_after-pos (flush_marker ∷ q) idx i h = ground arith

length-consume : (e : ℕ) (q : List Item) → length (consume e q) ≤ length q
unfolding consume
length-consume e [] = omega arith
length-consume e (flush_marker ∷ q) = omega arith
length-consume e (spoken t ∷ q) = ground (arith, length-consume (e - length t) q)

find_flush-pos : (q : List Item) (i : ℕ) → find_flush q ≡ some i → (0 < i) × (0 < length q)
unfolding find_flush
find_flush-pos [] i h = cc
find_flush-pos (_ ∷ q) i h = (find_flush_after-pos q 1 i h, omega arith)

module _ (b : Buffer) where
  flush_upto-Below :
      (index : ℕ) (handling : Bool)
      → 0 < index
      → 0 < length b.queue
      → Below (2 * weight b.queue) (flush_upto index handling b)
  unfolding flush_upto
  flush_upto-Below index handling pos some_items =
      elim (Bool-cases (nonempty (texts (take index b.queue)))) [
        | inl t ↦ rw (t, api-queue) (omega (arith, shorter, lighter))
        | inr t ↦
            rw t (await_flush-Below _ (flush_sent handling) _ (omega (arith, shorter, lighter)))
      ]
    where
      shorter : length (shift_flush (drop index b.queue)) < length b.queue
      shorter = omega (arith, length-shift_flush (drop index b.queue), length-drop index b.queue)

      lighter :
          length (texts b.queue)
          ≡ length (texts (take index b.queue)) + length (texts (shift_flush (drop index b.queue)))
      lighter =
          ap length (texts-take-drop index b.queue)
          ∙ length-append (texts (take index b.queue)) (texts (shift_flush (drop index b.queue)))

  send_chunk-Below :
      (e : ℕ)
      → 0 < e
      → e ≤ length (combine [] b.queue)
      → Below (2 * weight b.queue) (send_chunk e (combine [] b.queue) b)
  unfolding send_chunk
  send_chunk-Below e pos le = elim (Bool-cases (is_whitespace (take e (combine [] b.queue)))) [
    | inl blank ↦ rw blank tt
    | inr words ↦
        rw (words, is_whitespace-respace (take e (combine [] b.queue)), words, api-queue)
          (omega (
            arith,
            length-consume e b.queue,
            ap length (take-combine-texts-consume e b.queue le)
                ∙ length-append (take e (combine [] b.queue)) (texts (consume e b.queue)),
            length-take e (combine [] b.queue),
          ))
  ]

  feed_text-Below : (handling : Bool) → Below (2 * weight b.queue) (feed_text handling b)
  unfolding feed_text
  feed_text-Below handling = go (combine [] b.queue) refl
    where
      go : (t : Units) → combine [] b.queue ≡ t → Below (2 * weight b.queue) (feed_text handling b)
      go [] h = rw (h, feed_text) tt
      go (c ∷ t) h = elim (Option-cases (chunk_end handling (combine [] b.queue))) [
        | inl wait ↦ rw (h, rw h at wait, feed_text) tt
        | inr (e, found) ↦
            let (pos, le, _) = chunk_end-le handling (combine [] b.queue) e found in
            rw (h, rw h at found, feed_text) (rw h at (send_chunk-Below e pos le))
      ]

  front-Below : (handling : Bool) → Below (2 * weight b.queue) (front handling b)
  unfolding front
  front-Below handling = go b.queue refl
    where
      go : (q : List Item) → b.queue ≡ q → Below (2 * weight b.queue) (front_of handling b q)
      go [] h = tt
      go (flush_marker ∷ q) h =
          await_flush-Below _ (front_flush_sent handling) _ (omega (arith, ap weight h))
      go (spoken t ∷ q) h = feed_text-Below handling

  flushes-Below : (handling : Bool) → Below (2 * weight b.queue) (flushes handling b)
  unfolding flushes
  flushes-Below handling = elim (Option-cases (find_flush b.queue)) [
    | inl none_left ↦ rw (none_left, flushes) (front-Below handling)
    | inr (i, found) ↦
        let (pos, some_items) = find_flush-pos b.queue i found in
        rw (found, flushes) (flush_upto-Below i handling pos some_items)
  ]

  feed_queue-Below : (handling : Bool) → Below (2 * weight b.queue) (feed_queue handling b)
  unfolding feed_queue
  feed_queue-Below handling = elim (Bool-cases (b.stream_open && b.ep && is_connected b.status)) [
    | inl ready ↦ rw ready (flushes-Below handling)
    | inr idle ↦ rw idle tt
  ]

resume_if_low-queue : (b : Buffer) → (resume_if_low b).queue ≡ b.queue
unfolding resume_if_low
resume_if_low-queue b = ground arith

-- Each part of a feed leaves less to do than the part before it.
go_on-Below : (pc : Pc) (b : Buffer) → Below (2 * weight b.queue + rank pc) (go_on pc b)
unfolding go_on
go_on-Below (flush_text_sent handling) b = await_flush-Below _ (flush_sent handling) b (omega arith)
go_on-Below (flush_sent handling) b = rw add-zero (flushes-Below b handling)
go_on-Below (front_flush_sent handling) b = rw add-zero (front-Below b handling)
go_on-Below chunk_sent b =
    let less = feed_queue-Below (resume_if_low b) false in
    rw add-zero (
      subst (λ q. Below (2 * weight q) (feed_queue false (resume_if_low b))) (resume_if_low-queue b)
        less)

-- The feed run to its end, `none` if the fuel runs out.
unfoldable pub drain : ℕ → Progress → Option Buffer
drain fuel (b, none) = some b
drain zero (b, some pc) = none
drain (suc fuel) (b, some pc) = drain fuel (go_on pc b)

drain_total :
    (fuel m : ℕ) (p : Progress) → Below m p → m ≤ fuel → (c : Buffer) × (drain fuel p ≡ some c)
unfolding drain
drain_total fuel m (b, none) h le = (b, refl)
drain_total zero m (b, some pc) h le = absurd (omega arith)
drain_total (suc fuel) m (b, some pc) h le =
    drain_total fuel (2 * weight b.queue + rank pc) (go_on pc b) (go_on-Below pc b) (omega arith)

-- For any buffer, `_feedQueue` with each of its awaits answered at once returns, after at most
-- twice as many awaits as the weight of the queue, which counts its items and its queued code
-- units.
pub feed_queue_ends :
    (handling : Bool) (b : Buffer)
    → (c : Buffer) × (drain (2 * weight b.queue) (feed_queue handling b) ≡ some c)
feed_queue_ends handling b =
    drain_total (2 * weight b.queue) (2 * weight b.queue) (feed_queue handling b)
      (feed_queue-Below b handling) (omega arith)
