-- ===== src/Tts/Moves.antt =====
-- What each operation of lib/utils/tts-streaming-buffer.js does to the queued text and to what was
-- sent, while the endpoint and the vendor are there.
use jambonz_feature_server.Prelude.{
  ℕ, ◌+◌, ◌-◌, ◌≡◌, refl, Bool, true, false, none, some, List, [], ◌∷◌, ◌++◌, Units, String, length,
  get_elem?, Bool-cases, Option-cases, inl, inr, arith, length-append, append-nil, ◌==◌, ltb, ap,
  ◌∙◌, sym, ◌&&◌,
}
use jambonz_feature_server.Tts.Scan.{is_whitespace}
use jambonz_feature_server.Tts.Buffer.{
  spoken, flush_marker, Buffer, emit, connected_to, empty, pause, settled, flush, do_flush,
  connected, on_tts_empty, high_water_buffer_size, set_timer_if_needed, timeout_retry_msecs,
}
use jambonz_feature_server.Tts.Feed.{
  Progress, feed_queue, buffer_tokens, buffer_text, with_tokens, is_failed, reject_tokens,
  on_connect, on_connected, on_timeout, texts, chunk_sent,
}
use jambonz_feature_server.Tts.Queue.{texts-append}
use jambonz_feature_server.Tts.Sending.{
  sends, payload, sends-append, IsLive, Takes, IsCounted, Takes-none, flush-Takes,
}
use jambonz_feature_server.Tts.Parts.{feed_queue-Takes, go_on-Takes, set_timer_if_needed-Takes}
use jambonz_feature_server.Tts.System.{
  Feed, System, Op, buffers, flushes, connects, empties, times_out, continues, after_part, step,
}
use jambonz_feature_server.Tts.Accepting.{
  promised, accepted, is_keeping, on_connect-cases, flush-cases, settled-await_flush,
}

-- From `b` to `c` the text `more` was added behind the queue, and the front `chunk` was sent.
pub record Moves (v : String) (more : Units) (b : Buffer) (chunk : Units) (c : Buffer)
    : Type 0 where
  pub order : texts b.queue ++ more ≡ chunk ++ texts c.queue
  pub sent : sends c.out ≡ sends b.out ++ payload chunk
  pub counted : IsCounted c
  pub live : IsLive c v

module _ (v : String) where
  abbrev pub Some : Units → Buffer → Buffer → Type 0
  Some more b c = (chunk : Units) × Moves v more b chunk c

  of_Takes : (b c : Buffer) → IsCounted b → ((chunk : Units) × Takes v b chunk c) → Some [] b c
  of_Takes b c n (chunk, t) = (
    chunk,
    record {
      order = append-nil _ ∙ t.order;
      sent = t.sent;
      counted = omega (arith, t.less, ap length t.order, length-append chunk (texts c.queue));
      live = t.live;
    },
  )

  of_same :
      (b c : Buffer)
      → c.queue ≡ b.queue
      → c.out ≡ b.out
      → c.buffered_length ≡ b.buffered_length
      → (d : Buffer) → Some [] c d
      → Some [] b d
  of_same b c q o k d (chunk, m) = (
    chunk,
    record {
      order = ap (λ q. texts q ++ []) (sym q) ∙ m.order;
      sent = m.sent ∙ ap (λ o. sends o ++ payload chunk) o;
      counted = m.counted;
      live = m.live;
    },
  )

  buffer_text-Moves :
      (now : ℕ) (tokens : Units) (b : Buffer)
      → IsLive b v
      → IsCounted b
      → Some tokens b (buffer_text now tokens b).0
  unfolding buffer_text
  buffer_text-Moves now tokens b l n =
      let added : texts (b.queue ++ spoken tokens ∷ []) ≡ texts b.queue ++ tokens =
        texts-append b.queue (spoken tokens ∷ []) ∙ ap (◌++◌ (texts b.queue)) (append-nil tokens) in
      let longer : b.buffered_length + length tokens
          ≡ length (texts (b.queue ++ spoken tokens ∷ [])) =
        omega (arith, ap length added, length-append (texts b.queue) tokens) in
      let c : Buffer = with_tokens now tokens b in
      let live : IsLive c v = record { has_ep = l.has_ep; has_vendor = l.has_vendor } in
      let (chunk, m) =
        of_Takes c (feed_queue false c).0 longer (feed_queue-Takes v false c live longer) in
      (
        chunk,
        record {
          order = sym added ∙ sym (append-nil _) ∙ m.order;
          sent = m.sent;
          counted = m.counted;
          live = m.live;
        },
      )

  module _ (b : Buffer) (l : IsLive b v) (n : IsCounted b) where
    Moves-none :
        (c : Buffer)
        → c.queue ≡ b.queue
        → c.buffered_length ≡ b.buffered_length
        → sends c.out ≡ sends b.out
        → IsLive c v
        → Some [] b c
    Moves-none c q k o live = (
      [],
      record {
        order = append-nil _ ∙ ap texts (sym q);
        sent = o ∙ sym (append-nil _);
        counted = k ∙ n ∙ ap (λ q. length (texts q)) (sym q);
        live = live;
      },
    )

    reject_tokens-Moves : Some [] b (reject_tokens b)
    unfolding reject_tokens
    reject_tokens-Moves =
        Moves-none (reject_tokens b) (ground arith) (ground arith)
          (ground (arith, sends-append b.out (emit pause ∷ []), append-nil (sends b.out)))
          (ground arith)

    buffer_tokens-Moves :
        (now : ℕ) (tokens : Units)
        → Some (promised tokens b (buffer_tokens now tokens b).1) b (buffer_tokens now tokens b).0.0
    unfolding buffer_tokens
    buffer_tokens-Moves now tokens = elim (Bool-cases (is_failed b.status)) [
      | inl gone ↦ rw gone (Moves-none b refl refl refl l)
      | inr there ↦ elim (Bool-cases (0 == b.buffered_length && is_whitespace tokens)) [
        | inl blank ↦ rw (there, blank, blank) (Moves-none b refl refl refl l)
        | inr words ↦
            elim (Bool-cases (ltb high_water_buffer_size (b.buffered_length + length tokens))) [
              | inl no_room ↦ rw (there, words, no_room) reject_tokens-Moves
              | inr room ↦ rw (there, words, room, words) (buffer_text-Moves now tokens b l n)
            ]
      ]
    ]

  on_timeout-Moves :
      (now : ℕ) (b : Buffer) → IsLive b v → IsCounted b → Some [] b (on_timeout now b).0
  unfolding on_timeout
  on_timeout-Moves now b l n =
      let c : Buffer = record b { timer = false } in
      let live : IsLive c v = record { has_ep = l.has_ep; has_vendor = l.has_vendor } in
      elim (Bool-cases (ltb (now - b.last_update_time) timeout_retry_msecs)) [
        | inl early ↦ rw early (
            of_same b c refl refl refl (set_timer_if_needed c)
              (of_Takes c (set_timer_if_needed c) n ([], set_timer_if_needed-Takes v c live)))
        | inr late ↦ rw late (
            of_same b c refl refl refl (feed_queue true c).0
              (of_Takes c (feed_queue true c).0 n (feed_queue-Takes v true c live n)))
      ]

  on_connect-Moves : (b : Buffer) → IsLive b v → IsCounted b → Some [] b (on_connect b).0
  on_connect-Moves b l n =
      let c : Buffer = record b { status = connected } in
      let live : IsLive c v = record { has_ep = l.has_ep; has_vendor = l.has_vendor } in
      elim (on_connect-cases b) [
        | inl e ↦ rw e (of_same b c refl refl refl c (of_Takes c c n ([], Takes-none v c live)))
        | inr e ↦ rw e (
            of_same b c refl refl refl (feed_queue false c).0
              (of_Takes c (feed_queue false c).0 n (feed_queue-Takes v false c live n)))
      ]

  flush-Moves : (b : Buffer) → IsLive b v → IsCounted b → Some [] b (settled (flush b))
  flush-Moves b l n = elim (flush-cases b) [
    | inl e ↦ rw e (Moves-none b l n b refl refl refl l)
    | inr e ↦ elim e [
      | inl marked ↦
          let same : texts (b.queue ++ flush_marker ∷ []) ≡ texts b.queue =
            texts-append b.queue (flush_marker ∷ []) ∙ append-nil _ in
          rw marked (
            [],
            record {
              order = append-nil _ ∙ sym same;
              sent = sym (append-nil _);
              counted = n ∙ ap length (sym same);
              live = record { has_ep = l.has_ep; has_vendor = l.has_vendor };
            },
          )
      | inr sent ↦ rw sent (
          of_Takes b (settled (do_flush b)) n
            ([], rw (settled-await_flush b l) at (flush-Takes v b b l refl chunk_sent refl refl)))
    ]
  ]

  after_part-Moves :
      (announces : Bool) (more : Units) (b : Buffer) (p : Progress) (feeds : List Feed)
      → Some more b p.0
      → Some more b (after_part announces p feeds).buffer
  unfolding after_part on_connected
  after_part-Moves announces more b (c, some pc) feeds m = m
  after_part-Moves false more b (c, none) feeds m = m
  after_part-Moves true more b (c, none) feeds (chunk, m) = (
    chunk,
    record {
      order = m.order;
      sent = sends-append c.out (emit connected_to ∷ []) ∙ append-nil _ ∙ m.sent;
      counted = m.counted;
      live = record { has_ep = m.live.has_ep; has_vendor = m.live.has_vendor };
    },
  )

  pub step-Moves :
      (op : Op) (s : System)
      → is_keeping op ≡ true
      → IsLive s.buffer v
      → IsCounted s.buffer
      → Some (accepted op s.buffer) s.buffer (step op s).buffer
  unfolding step on_tts_empty
  step-Moves (buffers now tokens) s k l n =
      after_part-Moves false _ _ _ s.feeds (buffer_tokens-Moves s.buffer l n now tokens)
  step-Moves flushes s k l n = flush-Moves s.buffer l n
  step-Moves connects s k l n = after_part-Moves true _ _ _ s.feeds (on_connect-Moves s.buffer l n)
  step-Moves (times_out now) s k l n =
      after_part-Moves false _ _ _ s.feeds (on_timeout-Moves now s.buffer l n)
  step-Moves empties s k l n =
      Moves-none s.buffer l n _ refl refl
        (sends-append s.buffer.out (emit empty ∷ []) ∙ append-nil _)
        (record { has_ep = l.has_ep; has_vendor = l.has_vendor })
  step-Moves (continues i) s k l n = elim (Option-cases (get_elem? s.feeds i)) [
    | inl missing ↦ rw (missing, step) (Moves-none s.buffer l n s.buffer refl refl refl l)
    | inr (f, found) ↦
        rw (found, step)
          (after_part-Moves f.announces _ _ _ _
            (of_Takes s.buffer _ n (go_on-Takes v f.pc s.buffer l n)))
  ]
  step-Moves op s k l n = cc
