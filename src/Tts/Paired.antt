-- ===== src/Tts/Paired.antt =====
-- What the parts of `_feedQueue` do to the Pause and Resume events of lib/utils/tts-streaming-buffer.js.
use jambonz_feature_server.Prelude.{
  ℕ, suc, ◌+◌, ◌≡◌, refl, ◌⊎◌, inl, inr, Bool, true, false, List, [], ◌∷◌, ◌++◌, Units, String,
  take, Bool-cases, Option-cases, arith,
}
use jambonz_feature_server.Tts.Scan.{is_whitespace}
use jambonz_feature_server.Tts.Buffer.{
  Item, spoken, flush_marker, Buffer, Command, pause, resume, connected_to, connect_failure, empty,
  Effect, call, flush_stream, emit, log, api, api_command, do_flush, set_timer_if_needed,
  remove_timer, settled,
}
use jambonz_feature_server.Tts.Feed.{
  Pc, nonempty, flush_text_sent, flush_sent, front_flush_sent, chunk_sent, texts, combine,
  chunk_end, find_flush, flush_upto, send_chunk, feed_text, front, front_of, flushes, feed_queue,
  resume_if_low, go_on, await_flush, reject_tokens,
}
use jambonz_feature_server.Tts.Respace.{is_whitespace-respace}

-- How often the client was told to pause, and to go on.
abbrev pub pauses : List Effect → ℕ
pauses [] = 0
pauses (emit pause ∷ out) = suc (pauses out)
pauses (emit resume ∷ out) = pauses out
pauses (emit connected_to ∷ out) = pauses out
pauses (emit connect_failure ∷ out) = pauses out
pauses (emit empty ∷ out) = pauses out
pauses (call _ _ ∷ out) = pauses out

abbrev pub resumes : List Effect → ℕ
resumes [] = 0
resumes (emit resume ∷ out) = suc (resumes out)
resumes (emit pause ∷ out) = resumes out
resumes (emit connected_to ∷ out) = resumes out
resumes (emit connect_failure ∷ out) = resumes out
resumes (emit empty ∷ out) = resumes out
resumes (call _ _ ∷ out) = resumes out

abbrev pub open_pauses : Bool → ℕ
open_pauses true = 1
open_pauses false = 0

-- The client is told to pause once for each time the buffer fills, and to go on once for each time
-- that it is no longer full.
abbrev pub IsPaired : Buffer → Type 0
IsPaired b = pauses b.out ≡ resumes b.out + open_pauses b.full

pub pauses-append : (xs ys : List Effect) → pauses (xs ++ ys) ≡ pauses xs + pauses ys
pauses-append [] ys = omega arith
pauses-append (emit pause ∷ xs) ys = omega (arith, pauses-append xs ys)
pauses-append (emit resume ∷ xs) ys = pauses-append xs ys
pauses-append (emit connected_to ∷ xs) ys = pauses-append xs ys
pauses-append (emit connect_failure ∷ xs) ys = pauses-append xs ys
pauses-append (emit empty ∷ xs) ys = pauses-append xs ys
pauses-append (call _ _ ∷ xs) ys = pauses-append xs ys

pub resumes-append : (xs ys : List Effect) → resumes (xs ++ ys) ≡ resumes xs + resumes ys
resumes-append [] ys = omega arith
resumes-append (emit pause ∷ xs) ys = resumes-append xs ys
resumes-append (emit resume ∷ xs) ys = omega (arith, resumes-append xs ys)
resumes-append (emit connected_to ∷ xs) ys = resumes-append xs ys
resumes-append (emit connect_failure ∷ xs) ys = resumes-append xs ys
resumes-append (emit empty ∷ xs) ys = resumes-append xs ys
resumes-append (call _ _ ∷ xs) ys = resumes-append xs ys

pub log-IsPaired :
    (e : Effect) (b : Buffer)
    → pauses (e ∷ []) ≡ 0
    → resumes (e ∷ []) ≡ 0
    → IsPaired b
    → IsPaired (log e b)
log-IsPaired e b p r h = omega (arith, pauses-append b.out (e ∷ []), resumes-append b.out (e ∷ []))

api-cases :
    (c : Command) (b : Buffer) → (api c b ≡ b) ⊎ ((name : String) × (api c b ≡ log (call name c) b))
unfolding api
api-cases c b = elim (Option-cases b.vendor) [
  | inl e ↦ inl (ground arith)
  | inr (v, e) ↦ elim (Bool-cases b.ep) [
    | inl there ↦ inr (api_command v, ground arith)
    | inr gone ↦ inl (ground arith)
  ]
]

pub api-IsPaired : (c : Command) (b : Buffer) → IsPaired b → IsPaired (api c b)
api-IsPaired c b h = elim (api-cases c b) [
  | inl e ↦ rw e h
  | inr (name, e) ↦ rw e (log-IsPaired (call name c) b refl refl h)
]

pub do_flush-IsPaired : (b : Buffer) → IsPaired b → IsPaired (settled (do_flush b))
unfolding do_flush
do_flush-IsPaired b h = ground (arith, api-IsPaired flush_stream b h)

await_flush-IsPaired :
    (pc : Pc) (b : Buffer) → IsPaired b → IsPaired (await_flush pc (do_flush b)).0
unfolding do_flush
await_flush-IsPaired pc b h = ground (arith, api-IsPaired flush_stream b h)

pub set_timer_if_needed-IsPaired : (b : Buffer) → IsPaired b → IsPaired (set_timer_if_needed b)
unfolding set_timer_if_needed
set_timer_if_needed-IsPaired b h = ground arith

resume_if_low-IsPaired : (b : Buffer) → IsPaired b → IsPaired (resume_if_low b)
unfolding resume_if_low
resume_if_low-IsPaired b h =
    ground (arith, pauses-append b.out (emit resume ∷ []), resumes-append b.out (emit resume ∷ []))

pub reject_tokens-IsPaired : (b : Buffer) → IsPaired b → IsPaired (reject_tokens b)
unfolding reject_tokens
reject_tokens-IsPaired b h =
    ground (arith, pauses-append b.out (emit pause ∷ []), resumes-append b.out (emit pause ∷ []))

flush_upto-IsPaired :
    (index : ℕ) (handling : Bool) (b : Buffer)
    → IsPaired b
    → IsPaired (flush_upto index handling b).0
unfolding flush_upto
flush_upto-IsPaired index handling b h = elim (Bool-cases (nonempty (texts (take index b.queue)))) [
  | inl t ↦ rw t (api-IsPaired _ _ h)
  | inr t ↦ rw t (await_flush-IsPaired (flush_sent handling) _ h)
]

send_chunk-IsPaired :
    (e : ℕ) (combined : Units) (b : Buffer) → IsPaired b → IsPaired (send_chunk e combined b).0
unfolding send_chunk
send_chunk-IsPaired e combined b h = elim (Bool-cases (is_whitespace (take e combined))) [
  | inl blank ↦ rw blank (set_timer_if_needed-IsPaired b h)
  | inr words ↦ rw (words, is_whitespace-respace (take e combined), words) (api-IsPaired _ _ h)
]

feed_text-IsPaired : (handling : Bool) (b : Buffer) → IsPaired b → IsPaired (feed_text handling b).0
unfolding feed_text remove_timer
feed_text-IsPaired handling b h = go (combine [] b.queue) refl
  where
    go : (t : Units) → combine [] b.queue ≡ t → IsPaired (feed_text handling b).0
    go [] e = rw (e, feed_text) h
    go (c ∷ t) e = elim (Option-cases (chunk_end handling (combine [] b.queue))) [
      | inl wait ↦ rw (e, rw e at wait, feed_text) (set_timer_if_needed-IsPaired b h)
      | inr (end, found) ↦ rw (e, rw e at found, feed_text) (send_chunk-IsPaired end (c ∷ t) b h)
    ]

front-IsPaired : (handling : Bool) (b : Buffer) → IsPaired b → IsPaired (front handling b).0
unfolding front remove_timer
front-IsPaired handling b h = go b.queue
  where
    go : (q : List Item) → IsPaired (front_of handling b q).0
    go [] = h
    go (flush_marker ∷ q) = await_flush-IsPaired (front_flush_sent handling) _ h
    go (spoken t ∷ q) = feed_text-IsPaired handling b h

flushes-IsPaired : (handling : Bool) (b : Buffer) → IsPaired b → IsPaired (flushes handling b).0
unfolding flushes
flushes-IsPaired handling b h = elim (Option-cases (find_flush b.queue)) [
  | inl none_left ↦ rw (none_left, flushes) (front-IsPaired handling b h)
  | inr (i, found) ↦ rw (found, flushes) (flush_upto-IsPaired i handling b h)
]

pub feed_queue-IsPaired :
    (handling : Bool) (b : Buffer) → IsPaired b → IsPaired (feed_queue handling b).0
unfolding feed_queue
feed_queue-IsPaired handling b h = ground (arith, flushes-IsPaired handling b h)

pub go_on-IsPaired : (pc : Pc) (b : Buffer) → IsPaired b → IsPaired (go_on pc b).0
unfolding go_on
go_on-IsPaired (flush_text_sent handling) b h = await_flush-IsPaired (flush_sent handling) b h
go_on-IsPaired (flush_sent handling) b h = flushes-IsPaired handling b h
go_on-IsPaired (front_flush_sent handling) b h = front-IsPaired handling b h
go_on-IsPaired chunk_sent b h = feed_queue-IsPaired false _ (resume_if_low-IsPaired b h)
