-- ===== src/SttLatency/Cycles.antt =====
-- The handlers that starting and stopping leave at the endpoint: lib/utils/stt-latency-calculator.js.
use jambonz_feature_server.SttLatency.{
  Endpoint, Calculator, Detected, on_vad_detected, detected_times, start_vad, start, stop_vad, stop,
  start_talking, stop_talking, something_else,
}
use jambonz_feature_server.Prelude.{
  ℕ, zero, suc, ◌+◌, false, Option, none, some, ◌≡◌, refl, ap, ◌∙◌, arith,
}

-- A start and a stop, as often as is said.
unfoldable pub cycles : ℕ → Calculator → Option Calculator
unfolding start stop start_vad stop_vad
cycles zero c = some c
cycles (suc n) c = elim (stop (start c)) [ none ↦ none | some d ↦ cycles n d ]

abbrev pub listeners_of : Option Calculator → Option ℕ
listeners_of none = none
listeners_of (some c) = elim c.ep [ none ↦ none | some e ↦ some e.listeners ]

abbrev pub idle_at : Calculator → Endpoint → Calculator
idle_at c e = record c { ep = some e; is_running = false }

-- Where the endpoint has no handler set and the calculator does not run, starting and stopping it
-- any number of times leaves as many more listeners at the endpoint.
pub cycles_leave :
    (n : ℕ) (c : Calculator) (e : Endpoint)
    → e.has_handler ≡ false
    → listeners_of (cycles n (idle_at c e)) ≡ some (n + e.listeners)
unfolding cycles start stop start_vad stop_vad
cycles_leave zero c e h = ap some (omega arith)
cycles_leave (suc n) c e h = rw h (
    cycles_leave n (record c { start_talking_time = 0 })
      (record { has_handler = false; listeners = suc e.listeners; detecting = false }) refl
    ∙ ap some (omega arith))

end_spurt_once :
    (now : ℕ) (c : Calculator)
    → on_vad_detected stop_talking now (on_vad_detected stop_talking now c)
      ≡ on_vad_detected stop_talking now c
unfolding on_vad_detected
end_spurt_once now c = refl

detected_twice :
    (d : Detected) (now : ℕ) (c : Calculator)
    → on_vad_detected d now (on_vad_detected d now c) ≡ on_vad_detected d now c
unfolding on_vad_detected
detected_twice start_talking now c = refl
detected_twice stop_talking now c = refl
detected_twice something_else now c = refl

-- However many of its handlers, one or more, an event of the detection calls, the calculator is as
-- if one had been called.
pub detected_times_once :
    (n : ℕ) (d : Detected) (now : ℕ) (c : Calculator)
    → detected_times (suc n) d now c ≡ on_vad_detected d now c
unfolding detected_times
detected_times_once zero d now c = refl
detected_times_once (suc n) d now c =
    ap (detected_times n d now) (detected_twice d now c) ∙ detected_times_once n d now c
