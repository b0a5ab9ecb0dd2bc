-- ===== src/Tts/Buffer.antt =====
-- The state of `TtsStreamingBuffer` of lib/utils/tts-streaming-buffer.js and its operations, less
-- `_feedQueue`, which is Tts/Feed.antt. Two fields stand for the session that owns the buffer: `ep`
-- says that `cs.ep` is set, `stream_open` is `cs.isTtsStreamOpen`. `out` is the record of what the
-- buffer asked of the endpoint and of the events it emitted, oldest first.
use Prim.Native.String
use text.Mathlib.Text.{starts_with}
use jambonz_feature_server.Prelude.{
  ℕ, Bool, true, false, not, ◌&&◌, Option, none, some, List, [], ◌∷◌, ◌++◌, String, Units, ltb, all,
  replicate, if◌then◌else◌,
}

abbrev pub max_chunk_size : ℕ
max_chunk_size = 1800

abbrev pub high_water_buffer_size : ℕ
high_water_buffer_size = 1000

abbrev pub low_water_buffer_size : ℕ
low_water_buffer_size = 200

abbrev pub timeout_retry_msecs : ℕ
timeout_retry_msecs = 1000

pub data Item : Type 0 where
  spoken : Units → Item
  flush_marker : Item

pub data Status : Type 0 where
  not_connected connecting connected failed : Status

pub data Command : Type 0 where
  connect stop_stream clear_stream flush_stream : Command
  send : Units → Command

pub data Event : Type 0 where
  pause resume connected_to connect_failure empty : Event

pub data Effect : Type 0 where
  call : String → Command → Effect
  emit : Event → Effect

pub record Buffer : Type 0 where
  pub queue : List Item
  pub buffered_length : ℕ
  pub full : Bool
  pub status : Status
  pub vendor : Option String
  pub timer : Bool
  pub last_update_time : ℕ
  -- For each registered handler, whether the endpoint it was registered on exists.
  pub event_handlers : List Bool
  pub ep : Bool
  pub stream_open : Bool
  pub out : List Effect

abbrev pub log : Effect → Buffer → Buffer
log e b = record b { out = b.out ++ e ∷ [] }

abbrev pub is_connected : Status → Bool
is_connected connected = true
is_connected _ = false

abbrev pub is_flush : Item → Bool
is_flush flush_marker = true
is_flush (spoken _) = false

-- The command that `_api` runs.
unfoldable pub api_command : String → String
api_command vendor =
    String.◌++◌ "uuid_"
      (String.◌++◌ (if starts_with vendor "custom:" then "custom" else vendor) "_tts_streaming")

-- `_api`, up to its `await`: nothing is asked when there is no vendor or no endpoint, since both
-- throw. Its callers catch what it throws, and the reply.
unfoldable pub api : Command → Buffer → Buffer
unfolding api_command
api c b = elim b.vendor [ none ↦ b | some v ↦ if b.ep then log (call (api_command v) c) b else b ]

-- `new TtsStreamingBuffer(cs)`
unfoldable pub create : Bool → Bool → Buffer
create ep stream_open = record {
  queue = [];
  buffered_length = 0;
  full = false;
  status = not_connected;
  vendor = none;
  timer = false;
  last_update_time = 0;
  event_handlers = [];
  ep = ep;
  stream_open = stream_open;
  out = [];
}

-- `_setTimerIfNeeded`
unfoldable pub set_timer_if_needed : Buffer → Buffer
set_timer_if_needed b =
    if ltb 0 b.buffered_length && not b.timer then record b { timer = true } else b

-- `_removeTimer`
unfoldable pub remove_timer : Buffer → Buffer
remove_timer b = record b { timer = false }

-- What a call leaves, whether it returned or threw.
pub data Outcome : Type 0 where
  returned thrown : Buffer → Outcome

abbrev pub settled : Outcome → Buffer
settled (returned b) = b
settled (thrown b) = b

-- `_initHandlers`: six vendors with three events each. The first registration on a missing endpoint
-- throws, after its handler was recorded.
unfoldable pub init_handlers : Buffer → Outcome
init_handlers b =
    if b.ep
    then returned (record b { event_handlers = replicate 18 true })
    else thrown (record b { event_handlers = false ∷ [] })

-- `if (this.eventHandlers.length === 0) this._initHandlers(this.ep)`
unfoldable pub ensure_handlers : Buffer → Outcome
unfolding init_handlers
ensure_handlers b = elim b.event_handlers [ [] ↦ init_handlers b | _ ∷ _ ↦ returned b ]

-- The rest of the `try` block of `start`, and its `catch`.
unfoldable pub connect_stream : Outcome → Buffer
connect_stream (returned b) = if b.ep then api connect b else record b { status = failed }
connect_stream (thrown b) = record b { status = failed }

-- `start`, up to the `await` of the connect command; `vendor` is what `cs.getTsStreamingVendor()`
-- returns, `none` where that is falsy.
unfoldable pub start : Option String → Buffer → Outcome
unfolding ensure_handlers connect_stream
start vendor b = elim b.status [
  | not_connected ↦ elim vendor [
    | none ↦ thrown (record b { vendor = none })
    | some v ↦
        returned
          (connect_stream (ensure_handlers (record b { vendor = some v; status = connecting })))
  ]
  | _ ↦ thrown b
]

-- The `catch` of `start` when the connect command is rejected.
unfoldable pub start_rejected : Buffer → Buffer
start_rejected b = record b { status = failed }

-- `stop`. `removeCustomEventListeners` throws at a handler that was registered on no endpoint.
unfoldable pub stop : Buffer → Outcome
stop b =
    let quiet = record b { event_handlers = [] } in
    let told = if quiet.ep then api stop_stream quiet else quiet in
    if all (λ on. on) b.event_handlers
    then returned
        (record told { timer = false; queue = []; buffered_length = 0; status = not_connected })
    else thrown b

abbrev pub last_is_flush : List Item → Bool
last_is_flush [] = false
last_is_flush (i ∷ []) = is_flush i
last_is_flush (i ∷ j ∷ q) = last_is_flush (j ∷ q)

-- `_doFlush`: `this.ep.uuid` throws at once where there is no endpoint.
unfoldable pub do_flush : Buffer → Outcome
do_flush b = if b.ep then returned (api flush_stream b) else thrown b

-- `flush`
unfoldable pub flush : Buffer → Outcome
flush b =
    let marked = record b { queue = b.queue ++ flush_marker ∷ [] } in
    elim b.status [
      | connecting ↦ returned (if last_is_flush b.queue then b else marked)
      | connected ↦ elim b.queue [
        | [] ↦ do_flush b
        | _ ∷ _ ↦ returned (if last_is_flush b.queue then b else marked)
      ]
      | not_connected ↦ returned b
      | failed ↦ returned b
    ]

-- `clear`: `this.ep.uuid` throws, after the timeout was cleared, where there is no endpoint.
unfoldable pub clear : Buffer → Outcome
clear b =
    if is_connected b.status
    then if b.ep
      then returned (record (api clear_stream b) {
        queue = [];
        buffered_length = 0;
        timer = false;
        full = false;
      })
      else thrown b
    else returned b

-- `_onConnectFailure`
unfoldable pub on_connect_failure : Buffer → Buffer
on_connect_failure b =
    log (emit connect_failure) (record b { status = failed; queue = []; buffered_length = 0 })

-- `_onTtsEmpty`
unfoldable pub on_tts_empty : Buffer → Buffer
on_tts_empty b = log (emit empty) b
