-- ===== src/Tts/Sending.antt =====
-- What it is that a part of `_feedQueue` of lib/utils/tts-streaming-buffer.js takes text off the
-- queue and sends it.
use jambonz_feature_server.Prelude.{
  ◌+◌, ◌<◌, ◌≡◌, refl, sym, true, some, List, [], ◌∷◌, ◌++◌, append-nil, Units, String, length,
  arith,
}
use jambonz_feature_server.Tts.Scan.{respace}
use jambonz_feature_server.Tts.Buffer.{
  Buffer, Command, connect, stop_stream, clear_stream, flush_stream, send, Effect, call, emit, log,
  api, api_command, do_flush, returned,
}
use jambonz_feature_server.Tts.Feed.{Pc, texts, await_flush}

-- The texts that the endpoint was asked to speak, in order.
abbrev pub sends : List Effect → List Units
sends [] = []
sends (call _ (send t) ∷ out) = t ∷ sends out
sends (call _ connect ∷ out) = sends out
sends (call _ stop_stream ∷ out) = sends out
sends (call _ clear_stream ∷ out) = sends out
sends (call _ flush_stream ∷ out) = sends out
sends (emit _ ∷ out) = sends out

-- What is sent for a piece of text: nothing for none.
abbrev pub payload : Units → List Units
payload [] = []
payload (c ∷ t) = respace (c ∷ t) ∷ []

pub sends-append : (xs ys : List Effect) → sends (xs ++ ys) ≡ sends xs ++ sends ys
sends-append [] ys = refl
sends-append (call _ (send t) ∷ xs) ys = rw (sends-append xs ys)
sends-append (call _ connect ∷ xs) ys = sends-append xs ys
sends-append (call _ stop_stream ∷ xs) ys = sends-append xs ys
sends-append (call _ clear_stream ∷ xs) ys = sends-append xs ys
sends-append (call _ flush_stream ∷ xs) ys = sends-append xs ys
sends-append (emit _ ∷ xs) ys = sends-append xs ys

-- The endpoint is there and a vendor was chosen.
pub record IsLive (b : Buffer) (v : String) : Type 0 where
  pub has_ep : b.ep ≡ true
  pub has_vendor : b.vendor ≡ some v

-- A part of a feed took `chunk` off the front of the text, sent it, and kept the rest as it was.
pub record Takes (v : String) (b : Buffer) (chunk : Units) (b' : Buffer) : Type 0 where
  pub order : texts b.queue ≡ chunk ++ texts b'.queue
  pub sent : sends b'.out ≡ sends b.out ++ payload chunk
  pub less : b'.buffered_length + length chunk ≡ b.buffered_length
  pub live : IsLive b' v

abbrev pub IsCounted : Buffer → Type 0
IsCounted b = b.buffered_length ≡ length (texts b.queue)

module _ (v : String) where
  api-eq-log : (c : Command) (b : Buffer) → IsLive b v → api c b ≡ log (call (api_command v) c) b
  unfolding api
  api-eq-log c b l = ground arith

  do_flush-eq-log :
      (b : Buffer) → IsLive b v → do_flush b ≡ returned (log (call (api_command v) flush_stream) b)
  unfolding do_flush
  do_flush-eq-log b l = ground (arith, api-eq-log flush_stream b l)

  pub Takes-none : (b : Buffer) → IsLive b v → Takes v b [] b
  Takes-none b l = record { order = refl; sent = sym (append-nil _); less = omega arith; live = l }

  module _ (b c : Buffer) (l : IsLive c v) (same : c.out ≡ b.out) where
    pub send-Takes :
        (chunk : Units)
        → texts b.queue ≡ chunk ++ texts c.queue
        → c.buffered_length + length chunk ≡ b.buffered_length
        → 0 < length chunk
        → Takes v b chunk (api (send (respace chunk)) c)
    send-Takes [] order less h = elim h [ ]
    send-Takes (x ∷ t) order less h = rw (api-eq-log (send (respace (x ∷ t))) c l) (record {
      order = order;
      sent = rw (← same) (sends-append c.out (call (api_command v) (send (respace (x ∷ t))) ∷ []));
      less = less;
      live = record { has_ep = l.has_ep; has_vendor = l.has_vendor };
    })

    pub flush-Takes :
        (pc : Pc)
        → texts b.queue ≡ texts c.queue
        → c.buffered_length ≡ b.buffered_length
        → Takes v b [] (await_flush pc (do_flush c)).0
    flush-Takes pc order less = rw (do_flush-eq-log c l) (record {
      order = order;
      sent = rw (← same) (sends-append c.out (call (api_command v) flush_stream ∷ []));
      less = omega arith;
      live = record { has_ep = l.has_ep; has_vendor = l.has_vendor };
    })
