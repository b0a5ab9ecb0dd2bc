-- ===== src/Tts/Counted.antt =====
-- What the parts of `_feedQueue` of lib/utils/tts-streaming-buffer.js do to `bufferedLength`.
use jambonz_feature_server.Prelude.{
  ℕ, ◌-◌, ◌≤◌, ◌≡◌, refl, ap, ◌∙◌, inl, inr, Bool, false, List, [], ◌∷◌, Units, length, take, drop,
  length-append, length-take, Bool-cases, Option-cases, arith, ◌&&◌, leb,
}
use jambonz_feature_server.Tts.Scan.{is_whitespace}
use jambonz_feature_server.Tts.Buffer.{
  Item, spoken, flush_marker, Buffer, Command, resume, low_water_buffer_size, flush_stream, emit,
  log, api, do_flush, set_timer_if_needed, remove_timer,
}
use jambonz_feature_server.Tts.Feed.{
  Pc, nonempty, flush_text_sent, flush_sent, front_flush_sent, chunk_sent, texts, shift_flush,
  combine, consume, chunk_end, find_flush, flush_upto, send_chunk, feed_text, front, front_of,
  flushes, feed_queue, resume_if_low, go_on, await_flush,
}
use jambonz_feature_server.Tts.Bounds.{chunk_end-le}
use jambonz_feature_server.Tts.Queue.{texts-take-drop, take-combine-texts-consume}
use jambonz_feature_server.Tts.Respace.{is_whitespace-respace}

pub record Shrinks (b c : Buffer) : Type 0 where
  pub counted : c.buffered_length ≡ length (texts c.queue)
  pub no_more : c.buffered_length ≤ b.buffered_length

api-Shrinks :
    (x : Command) (b c : Buffer)
    → c.buffered_length ≡ length (texts c.queue)
    → c.buffered_length ≤ b.buffered_length
    → Shrinks b (api x c)
unfolding api
api-Shrinks x b c n le = ground arith

await_flush-Shrinks :
    (pc : Pc) (b c : Buffer)
    → c.buffered_length ≡ length (texts c.queue)
    → c.buffered_length ≤ b.buffered_length
    → Shrinks b (await_flush pc (do_flush c)).0
unfolding do_flush
await_flush-Shrinks pc b c n le = ground (arith, api-Shrinks flush_stream b c n le)

module _ (b : Buffer) (n : b.buffered_length ≡ length (texts b.queue)) where
  flush_upto-Shrinks : (index : ℕ) (handling : Bool) → Shrinks b (flush_upto index handling b).0
  unfolding flush_upto
  flush_upto-Shrinks index handling = elim (Bool-cases (nonempty (texts (take index b.queue)))) [
    | inl t ↦ rw t (api-Shrinks _ b _ fewer (omega arith))
    | inr t ↦ rw t (await_flush-Shrinks _ b _ fewer (omega arith))
  ]
    where
      fewer :
          b.buffered_length - length (texts (take index b.queue))
          ≡ length (texts (shift_flush (drop index b.queue)))
      fewer = omega (
        arith,
        ap length (texts-take-drop index b.queue)
            ∙ length-append (texts (take index b.queue)) (texts (shift_flush (drop index b.queue))),
      )

  set_timer_if_needed-Shrinks : Shrinks b (set_timer_if_needed b)
  unfolding set_timer_if_needed
  set_timer_if_needed-Shrinks = ground arith

  remove_timer-Shrinks : Shrinks b (remove_timer b)
  unfolding remove_timer
  remove_timer-Shrinks = ground arith

  send_chunk-Shrinks :
      (e : ℕ) → e ≤ length (combine [] b.queue) → Shrinks b (send_chunk e (combine [] b.queue) b).0
  unfolding send_chunk
  send_chunk-Shrinks e le = elim (Bool-cases (is_whitespace (take e (combine [] b.queue)))) [
    | inl blank ↦ rw blank set_timer_if_needed-Shrinks
    | inr words ↦
        rw (words, is_whitespace-respace (take e (combine [] b.queue)), words)
          (api-Shrinks _ b _ fewer (omega arith))
  ]
    where
      fewer : b.buffered_length - e ≡ length (texts (consume e b.queue))
      fewer = omega (
        arith,
        ap length (take-combine-texts-consume e b.queue le)
            ∙ length-append (take e (combine [] b.queue)) (texts (consume e b.queue)),
        length-take e (combine [] b.queue),
      )

  feed_text-Shrinks : (handling : Bool) → Shrinks b (feed_text handling b).0
  unfolding feed_text
  feed_text-Shrinks handling = go (combine [] b.queue) refl
    where
      go : (t : Units) → combine [] b.queue ≡ t → Shrinks b (feed_text handling b).0
      go [] h = rw (h, feed_text) remove_timer-Shrinks
      go (c ∷ t) h = elim (Option-cases (chunk_end handling (combine [] b.queue))) [
        | inl wait ↦ rw (h, rw h at wait, feed_text) set_timer_if_needed-Shrinks
        | inr (e, found) ↦
            rw (h, rw h at found, feed_text)
              (rw h at (send_chunk-Shrinks e (chunk_end-le handling _ e found).1))
      ]

  front-Shrinks : (handling : Bool) → Shrinks b (front handling b).0
  unfolding front
  front-Shrinks handling = go b.queue refl
    where
      go : (q : List Item) → b.queue ≡ q → Shrinks b (front_of handling b q).0
      go [] h = remove_timer-Shrinks
      go (flush_marker ∷ q) h =
          await_flush-Shrinks _ b _ (n ∙ ap (λ q. length (texts q)) h) (omega arith)
      go (spoken t ∷ q) h = feed_text-Shrinks handling

  flushes-Shrinks : (handling : Bool) → Shrinks b (flushes handling b).0
  unfolding flushes
  flushes-Shrinks handling = elim (Option-cases (find_flush b.queue)) [
    | inl none_left ↦ rw (none_left, flushes) (front-Shrinks handling)
    | inr (i, found) ↦ rw (found, flushes) (flush_upto-Shrinks i handling)
  ]

  pub feed_queue-Shrinks : (handling : Bool) → Shrinks b (feed_queue handling b).0
  unfolding feed_queue
  feed_queue-Shrinks handling = ground (arith, flushes-Shrinks handling)

pub go_on-Shrinks :
    (pc : Pc) (b : Buffer) → b.buffered_length ≡ length (texts b.queue) → Shrinks b (go_on pc b).0
unfolding go_on resume_if_low
go_on-Shrinks (flush_text_sent handling) b n = await_flush-Shrinks _ b b n (omega arith)
go_on-Shrinks (flush_sent handling) b n = flushes-Shrinks b n handling
go_on-Shrinks (front_flush_sent handling) b n = front-Shrinks b n handling
go_on-Shrinks chunk_sent b n =
    elim (Bool-cases (b.full && leb b.buffered_length low_water_buffer_size)) [
      | inl low ↦
          let lower : Buffer = log (emit resume) (record b { full = false }) in
          let s = feed_queue-Shrinks lower n false in
          rw low (record { counted = s.counted; no_more = s.no_more })
      | inr high ↦ rw high (feed_queue-Shrinks b n false)
    ]
