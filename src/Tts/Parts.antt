-- ===== src/Tts/Parts.antt =====
-- What each part of `_feedQueue` of lib/utils/tts-streaming-buffer.js takes off the queue and sends.
use jambonz_feature_server.Prelude.{
  ℕ, ◌+◌, ◌≤◌, ◌<◌, ◌≡◌, refl, sym, ap, ◌∙◌, inl, inr, Bool, true, false, some, List, [], ◌∷◌, ◌++◌,
  append-nil, Units, String, length, take, drop, length-append, length-take, Bool-cases,
  Option-cases, arith, ◌&&◌,
}
use jambonz_feature_server.Tts.Scan.{is_whitespace}
use jambonz_feature_server.Tts.Buffer.{
  Item, spoken, flush_marker, Buffer, resume, emit, set_timer_if_needed, remove_timer, is_connected,
}
use jambonz_feature_server.Tts.Feed.{
  Pc, nonempty, flush_text_sent, flush_sent, front_flush_sent, chunk_sent, texts, shift_flush,
  combine, consume, chunk_end, find_flush, flush_upto, send_chunk, feed_text, front, front_of,
  flushes, feed_queue, resume_if_low, go_on,
}
use jambonz_feature_server.Tts.Bounds.{chunk_end-le}
use jambonz_feature_server.Tts.Queue.{texts-take-drop, take-combine-texts-consume}
use jambonz_feature_server.Tts.Respace.{is_whitespace-respace}
use jambonz_feature_server.Tts.Sending.{
  sends-append, sends, payload, IsLive, Takes, IsCounted, Takes-none, send-Takes, flush-Takes,
}

nil_of_length : (t : Units) → nonempty t ≡ false → t ≡ []
nil_of_length [] h = refl
nil_of_length (c ∷ t) h = cc

pos_of_nonempty : (t : Units) → nonempty t ≡ true → 0 < length t
pos_of_nonempty [] h = cc
pos_of_nonempty (c ∷ t) h = omega arith

resume_if_low-queue : (b : Buffer) → (resume_if_low b).queue ≡ b.queue
unfolding resume_if_low
resume_if_low-queue b = ground arith

resume_if_low-buffered_length : (b : Buffer) → (resume_if_low b).buffered_length ≡ b.buffered_length
unfolding resume_if_low
resume_if_low-buffered_length b = ground arith

resume_if_low-IsCounted : (b : Buffer) → IsCounted b → IsCounted (resume_if_low b)
resume_if_low-IsCounted b n = rw (resume_if_low-queue b, resume_if_low-buffered_length b) n

resume_if_low-sends : (b : Buffer) → sends (resume_if_low b).out ≡ sends b.out
unfolding resume_if_low
resume_if_low-sends b =
    ground (arith, sends-append b.out (emit resume ∷ []), append-nil (sends b.out))

module _ (v : String) where
  flush_upto-Takes :
      (index : ℕ) (handling : Bool) (b : Buffer)
      → IsLive b v
      → IsCounted b
      → Takes v b (texts (take index b.queue)) (flush_upto index handling b).0
  unfolding flush_upto
  flush_upto-Takes index handling b l n =
      elim (Bool-cases (nonempty (texts (take index b.queue)))) [
        | inl some_text ↦ rw some_text (
            send-Takes v b _ live refl (texts (take index b.queue)) order (omega (arith, sizes))
              (pos_of_nonempty (texts (take index b.queue)) some_text))
        | inr no_text ↦
            let none_taken : texts (take index b.queue) ≡ [] = nil_of_length _ no_text in
            rw (no_text, none_taken)
              (flush-Takes v b _ live refl (flush_sent handling) (rw none_taken at order)
                (omega arith))
      ]
    where
      order : texts b.queue ≡ texts (take index b.queue) ++ texts (shift_flush (drop index b.queue))
      order = texts-take-drop index b.queue

      sizes :
          length (texts b.queue)
          ≡ length (texts (take index b.queue)) + length (texts (shift_flush (drop index b.queue)))
      sizes = ap length order ∙ length-append (texts (take index b.queue)) _

      live : {n : ℕ} {q : List Item} → IsLive (record b { queue = q; buffered_length = n }) v
      live = record { has_ep = l.has_ep; has_vendor = l.has_vendor }

  pub quiet-Takes :
      (b c : Buffer)
      → c.queue ≡ b.queue
      → c.out ≡ b.out
      → c.buffered_length ≡ b.buffered_length
      → IsLive c v
      → Takes v b [] c
  quiet-Takes b c q o n l = record {
    order = rw q;
    sent = rw o (sym (append-nil _));
    less = omega arith;
    live = l;
  }

  pub set_timer_if_needed-Takes : (b : Buffer) → IsLive b v → Takes v b [] (set_timer_if_needed b)
  unfolding set_timer_if_needed
  set_timer_if_needed-Takes b l =
      quiet-Takes b (set_timer_if_needed b) (ground arith) (ground arith) (ground arith)
        (ground arith)

  remove_timer-Takes : (b : Buffer) → IsLive b v → Takes v b [] (remove_timer b)
  unfolding remove_timer
  remove_timer-Takes b l =
      quiet-Takes b (remove_timer b) refl refl refl
        (record { has_ep = l.has_ep; has_vendor = l.has_vendor })

  abbrev pub Some : Buffer → Buffer → Type 0
  Some b c = (chunk : Units) × Takes v b chunk c

  send_chunk-Takes :
      (e : ℕ) (b : Buffer)
      → IsLive b v
      → IsCounted b
      → 0 < e
      → e ≤ length (combine [] b.queue)
      → Some b (send_chunk e (combine [] b.queue) b).0
  unfolding send_chunk
  send_chunk-Takes e b l n pos le =
      elim (Bool-cases (is_whitespace (take e (combine [] b.queue)))) [
        | inl blank ↦ ([], rw blank (set_timer_if_needed-Takes b l))
        | inr words ↦ (
          take e (combine [] b.queue),
          rw (words, is_whitespace-respace (take e (combine [] b.queue)), words)
              (send-Takes v b _ (record { has_ep = l.has_ep; has_vendor = l.has_vendor }) refl
                (take e (combine [] b.queue)) order (omega (arith, sizes, taken))
                (omega (arith, taken))),
        )
      ]
    where
      order : texts b.queue ≡ take e (combine [] b.queue) ++ texts (consume e b.queue)
      order = take-combine-texts-consume e b.queue le

      sizes :
          length (texts b.queue)
          ≡ length (take e (combine [] b.queue)) + length (texts (consume e b.queue))
      sizes = ap length order ∙ length-append (take e (combine [] b.queue)) _

      taken : length (take e (combine [] b.queue)) ≡ e
      taken = omega (arith, length-take e (combine [] b.queue))

  feed_text-Takes :
      (handling : Bool) (b : Buffer) → IsLive b v → IsCounted b → Some b (feed_text handling b).0
  unfolding feed_text
  feed_text-Takes handling b l n = go (combine [] b.queue) refl
    where
      cut :
          (e : ℕ)
          → chunk_end handling (combine [] b.queue) ≡ some e
          → Some b (send_chunk e (combine [] b.queue) b).0
      cut e h =
          let (pos, le, _) = chunk_end-le handling (combine [] b.queue) e h in
          send_chunk-Takes e b l n pos le

      go : (t : Units) → combine [] b.queue ≡ t → Some b (feed_text handling b).0
      go [] h = ([], rw (h, feed_text) (remove_timer-Takes b l))
      go (c ∷ t) h = elim (Option-cases (chunk_end handling (combine [] b.queue))) [
        | inl wait ↦ ([], rw (h, rw h at wait, feed_text) (set_timer_if_needed-Takes b l))
        | inr (e, found) ↦
            let (chunk, takes) = cut e found in
            (chunk, rw (h, rw h at found, feed_text) (rw h at takes))
      ]

  front-Takes :
      (handling : Bool) (b : Buffer) → IsLive b v → IsCounted b → Some b (front handling b).0
  unfolding front
  front-Takes handling b l n = go b.queue refl
    where
      go : (q : List Item) → b.queue ≡ q → Some b (front_of handling b q).0
      go [] h = ([], remove_timer-Takes b l)
      go (flush_marker ∷ q) h = (
        [],
        flush-Takes v b _ (record { has_ep = l.has_ep; has_vendor = l.has_vendor }) refl
            (front_flush_sent handling) (rw h) refl,
      )
      go (spoken t ∷ q) h = feed_text-Takes handling b l n

  flushes-Takes :
      (handling : Bool) (b : Buffer) → IsLive b v → IsCounted b → Some b (flushes handling b).0
  unfolding flushes
  flushes-Takes handling b l n = elim (Option-cases (find_flush b.queue)) [
    | inl none_left ↦ rw (none_left, flushes) (front-Takes handling b l n)
    | inr (i, found) ↦ rw (found, flushes) (_, flush_upto-Takes i handling b l n)
  ]

  pub feed_queue-Takes :
      (handling : Bool) (b : Buffer) → IsLive b v → IsCounted b → Some b (feed_queue handling b).0
  unfolding feed_queue
  feed_queue-Takes handling b l n =
      elim (Bool-cases (b.stream_open && b.ep && is_connected b.status)) [
        | inl ready ↦ rw ready (flushes-Takes handling b l n)
        | inr idle ↦ rw idle ([], Takes-none v b l)
      ]

  resume_if_low-IsLive : (b : Buffer) → IsLive b v → IsLive (resume_if_low b) v
  unfolding resume_if_low
  resume_if_low-IsLive b l = ground arith

  pub go_on-Takes : (pc : Pc) (b : Buffer) → IsLive b v → IsCounted b → Some b (go_on pc b).0
  unfolding go_on
  go_on-Takes (flush_text_sent handling) b l n =
      ([], flush-Takes v b b l refl (flush_sent handling) refl refl)
  go_on-Takes (flush_sent handling) b l n = flushes-Takes handling b l n
  go_on-Takes (front_flush_sent handling) b l n = front-Takes handling b l n
  go_on-Takes chunk_sent b l n =
      let (chunk, t) =
        feed_queue-Takes false (resume_if_low b) (resume_if_low-IsLive b l)
          (resume_if_low-IsCounted b n) in
      (
        chunk,
        record {
          order = sym (ap texts (resume_if_low-queue b)) ∙ t.order;
          sent = t.sent ∙ ap (λ s. s ++ payload chunk) (resume_if_low-sends b);
          less = t.less ∙ resume_if_low-buffered_length b;
          live = t.live;
        },
      )
