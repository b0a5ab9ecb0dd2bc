-- ===== src/SttLatency.antt =====
-- lib/utils/stt-latency-calculator.js: how long a recognizer takes after the caller stopped talking.
-- Times are milliseconds, 0 where none is set, and `Date.now()` is an argument. The two fields that
-- `toFixed` prints are not modelled.
pub mod Cycles
mod Examples
use jambonz_feature_server.Prelude.{
  ℕ, zero, suc, ◌+◌, ◌-◌, ◌/◌, Bool, true, false, Option, none, some, List, [], ◌∷◌, ◌++◌, map,
  if◌then◌else◌,
}
use mathlib.Core.Option

pub record Spurt : Type 0 where
  pub start : ℕ
  pub stop : ℕ

-- The session's endpoint: whether `sttLatencyVadHandler` is set, how many such handlers the endpoint
-- calls, and whether its detection runs.
pub record Endpoint : Type 0 where
  pub has_handler : Bool
  pub listeners : ℕ
  pub detecting : Bool

pub record Calculator : Type 0 where
  pub is_running : Bool
  pub is_in_talk_spurt : Bool
  pub start_talking_time : ℕ
  pub talkspurts : List Spurt
  pub stt_start_time : ℕ
  pub stt_stop_time : ℕ
  pub stt_on_transcription_time : ℕ
  pub ep : Option Endpoint

-- `constructor`
unfoldable pub create : Option Endpoint → Calculator
create ep = record {
  is_running = false;
  is_in_talk_spurt = false;
  start_talking_time = 0;
  talkspurts = [];
  stt_start_time = 0;
  stt_stop_time = 0;
  stt_on_transcription_time = 0;
  ep = ep;
}

-- The header `detected-event`.
pub data Detected : Type 0 where
  start_talking stop_talking something_else : Detected

abbrev pub end_spurt : ℕ → Calculator → List Spurt
end_spurt now c =
    if c.is_in_talk_spurt
    then c.talkspurts ++ record { start = c.start_talking_time; stop = now } ∷ []
    else c.talkspurts

-- `_onVadDetected`, of one handler.
unfoldable pub on_vad_detected : Detected → ℕ → Calculator → Calculator
on_vad_detected stop_talking now c = record c {
  talkspurts = end_spurt now c;
  start_talking_time = 0;
  is_in_talk_spurt = false;
}
on_vad_detected start_talking now c = record c { start_talking_time = now; is_in_talk_spurt = true }
on_vad_detected something_else now c = c

-- An event of the endpoint reaches every handler that was added.
unfoldable pub detected_times : ℕ → Detected → ℕ → Calculator → Calculator
detected_times zero d now c = c
detected_times (suc n) d now c = detected_times n d now (on_vad_detected d now c)

-- `_startVad`, at the endpoint.
unfoldable pub start_vad : Endpoint → Endpoint
start_vad e = record {
  has_handler = true;
  listeners = if e.has_handler then e.listeners else suc e.listeners;
  detecting = true;
}

-- `start`
unfoldable pub start : Calculator → Calculator
unfolding start_vad
start c = if c.is_running then c else (elim c.ep [
  | none ↦ c
  | some e ↦ record c { start_talking_time = 0; ep = some (start_vad e); is_running = true }
])

-- `_stopVad`, at the endpoint: the calculator has no `ep` of its own, so its handler is not removed.
unfoldable pub stop_vad : Endpoint → Endpoint
stop_vad e = record { has_handler = false; listeners = e.listeners; detecting = false }

-- `stop`; it throws where it runs and the session's endpoint is gone.
unfoldable pub stop : Calculator → Option Calculator
unfolding stop_vad
stop c =
    if c.is_running
    then (elim c.ep [
      | none ↦ none
      | some e ↦ some (record c { ep = some (stop_vad e); is_running = false })
    ])
    else some c

-- `a || b` on times.
abbrev pub or_time : ℕ → ℕ → ℕ
or_time zero b = b
or_time (suc a) b = suc a

-- `Math.abs(a - b)`
abbrev pub distance : ℕ → ℕ → ℕ
distance a b = (a - b) + (b - a)

-- `toUnixTimestamp`
abbrev pub to_unix_timestamp : ℕ → ℕ
to_unix_timestamp t = t / 1000

abbrev pub first_start : List Spurt → Option ℕ
first_start [] = none
first_start (s ∷ _) = some s.start

abbrev pub last_stop : List Spurt → ℕ
last_stop [] = 0
last_stop (s ∷ []) = s.stop
last_stop (s ∷ t ∷ ts) = last_stop (t ∷ ts)

pub record Latency : Type 0 where
  pub stt_start_time : ℕ
  pub stt_stop_time : ℕ
  pub start_talking_time : Option ℕ
  pub stop_talking_time : ℕ
  pub stt_latency_ms : ℕ
  pub talkspurts : List (ℕ × ℕ)

-- The spurt that is open ends with the transcription.
unfoldable pub close_spurt : ℕ → Calculator → Calculator
close_spurt now c =
    if c.is_in_talk_spurt
    then record c { talkspurts = end_spurt now c; is_in_talk_spurt = false; start_talking_time = 0 }
    else c

abbrev pub spurt_times : Spurt → ℕ × ℕ
spurt_times s = (to_unix_timestamp s.start, to_unix_timestamp s.stop)

-- The times that are reported, where the recognizer stopped at `stopped`.
unfoldable pub report : ℕ → Calculator → Latency
report stopped c =
    let talked = or_time (last_stop c.talkspurts) stopped in
    record {
      stt_start_time = to_unix_timestamp c.stt_start_time;
      stt_stop_time = to_unix_timestamp stopped;
      start_talking_time = Option.map to_unix_timestamp (first_start c.talkspurts);
      stop_talking_time = to_unix_timestamp talked;
      stt_latency_ms = distance (or_time c.stt_on_transcription_time stopped) talked;
      talkspurts = map spurt_times c.talkspurts;
    }

-- `calculateLatency`
unfoldable pub calculate_latency : ℕ → Calculator → Calculator × Option Latency
unfolding close_spurt report
calculate_latency now c =
    let stopped = or_time c.stt_stop_time now in
    let d = close_spurt stopped c in
    if c.is_running then (d, some (report stopped d)) else (c, none)

-- `clearTalkspurts`
unfoldable pub clear_talkspurts : Calculator → Calculator
clear_talkspurts c =
    if c.is_in_talk_spurt
    then record c { talkspurts = [] }
    else record c { talkspurts = []; start_talking_time = 0 }

-- `resetTime`
unfoldable pub reset_time : ℕ → Calculator → Calculator
unfolding clear_talkspurts
reset_time now c =
    if c.is_running
    then clear_talkspurts
        (record c { stt_start_time = now; stt_stop_time = 0; stt_on_transcription_time = 0 })
    else c

-- `onTranscriptionReceived`
unfoldable pub on_transcription_received : ℕ → Calculator → Calculator
on_transcription_received now c =
    if c.is_running then record c { stt_on_transcription_time = now } else c

-- `onTranscribeStop`
unfoldable pub on_transcribe_stop : ℕ → Calculator → Calculator
on_transcribe_stop now c = if c.is_running then record c { stt_stop_time = now } else c
