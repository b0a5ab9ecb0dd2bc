-- ===== src/HookDelay/Turns.antt =====
-- The timers, listeners and actions between two starts: lib/utils/action-hook-delay.js.
use jambonz_feature_server.HookDelay.State.{
  Event, Processor, giveup, giveup_with_tasks, killed_audio, killed_play, started,
}
use jambonz_feature_server.HookDelay.Timers.{
  disarm, clear, stop, stop_after_kill, on_no_response_timer, exec_failed, on_playback_start,
  on_playback_stop, on_give_up_timer,
}
use jambonz_feature_server.Prelude.{
  ℕ, suc, ◌+◌, ◌≤◌, Bool, true, false, ◌||◌, Option, none, some, List, [], ◌∷◌, ◌++◌, ◌==◌, ltb,
  length, if◌then◌else◌, ◌≡◌, sym, ap, ◌∙◌, inl, inr, arith, Bool-cases,
}

-- What can happen between a start and the next one.
pub data Op : Type 0 where
  timer : (made : Bool) → ℕ → Op
  give_up : ℕ → Op
  playback_start playback_stop failed stopping killed : Op

unfoldable pub mem : ℕ → List ℕ → Bool
mem n [] = false
mem n (m ∷ ms) = (n == m) || mem n ms

-- One event; only a timer that is armed fires.
unfoldable pub step : Op → Processor → Processor
unfolding mem
step (timer made n) p = if mem n p.no_response_armed then on_no_response_timer made n p else p
step (give_up n) p = if mem n p.give_up_armed then on_give_up_timer n p else p
step playback_start p = on_playback_start p
step playback_stop p = on_playback_stop p
step failed p = exec_failed p
step stopping p = (stop p).0
step killed p = stop_after_kill p

unfoldable pub run : List Op → Processor → Processor
unfolding step
run [] p = p
run (op ∷ ops) p = run ops (step op p)

-- How many actions were started.
unfoldable pub count_started : List Event → ℕ
count_started [] = 0
count_started (started _ ∷ es) = suc (count_started es)
count_started (_ ∷ es) = count_started es

unfoldable pub allowed : Processor → ℕ
allowed p = if ltb 0 p.retries then p.retries else 1

-- Each action that may still start has a timer, and there is a timer or a listener, not both.
unfoldable pub Turns : (n armed done listeners count most : ℕ) → Type 0
Turns n armed done listeners count most =
    armed + done ≤ n × armed + listeners ≤ 1 × done ≡ count × most ≡ n

unfoldable pub HasTurns : ℕ → Processor → Type 0
unfolding Turns
HasTurns n p =
    Turns n (length p.no_response_armed) (count_started p.out) p.listeners p.retry_count (allowed p)

-- Fewer timers and listeners, after the same number of actions.
pub Turns-fewer :
    (n a a1 d d1 l l1 c m : ℕ) → a1 ≤ a → l1 ≤ l → d1 ≡ d → Turns n a d l c m → Turns n a1 d1 l1 c m
unfolding Turns
Turns-fewer n a a1 d d1 l l1 c m p q r (x, y, z, w) = (omega arith, omega arith, omega arith, w)

pub Turns-arm :
    (n a d l c m : ℕ) → a + l ≤ 0 → suc c ≤ m → Turns n a d l c m → Turns n (suc a) d l c m
unfolding Turns
Turns-arm n a d l c m p q (x, y, z, w) = (omega arith, omega arith, z, w)

pub Turns-fire :
    (n a a1 d d1 l c m : ℕ)
    → a ≡ suc a1
    → d1 ≡ suc d
    → Turns n a d l c m
    → Turns n a1 d1 (suc l) (suc c) m
unfolding Turns
Turns-fire n a a1 d d1 l c m p q (x, y, z, w) = (omega arith, omega arith, omega arith, w)

pub count_started-append :
    (es fs : List Event) → count_started (es ++ fs) ≡ count_started es + count_started fs
unfolding count_started
count_started-append [] fs = omega arith
count_started-append (started v ∷ es) fs = omega (arith, count_started-append es fs)
count_started-append (giveup ∷ es) fs = count_started-append es fs
count_started-append (giveup_with_tasks ∷ es) fs = count_started-append es fs
count_started-append (killed_audio ∷ es) fs = count_started-append es fs
count_started-append (killed_play ∷ es) fs = count_started-append es fs

pub length-disarm : (n : ℕ) (ms : List ℕ) → length (disarm n ms) ≤ length ms
unfolding disarm
length-disarm n [] = omega arith
length-disarm n (m ∷ ms) = elim (Bool-cases (n == m)) [
  | inl e ↦ rw e (omega arith)
  | inr e ↦ rw e (omega (arith, length-disarm n ms))
]

pub length-disarm-mem :
    (n : ℕ) (ms : List ℕ) → mem n ms ≡ true → suc (length (disarm n ms)) ≡ length ms
unfolding disarm mem
length-disarm-mem n [] h = cc
length-disarm-mem n (m ∷ ms) h = elim (Bool-cases (n == m)) [
  | inl e ↦ rw e
  | inr e ↦ rw e (ap suc (length-disarm-mem n ms (sym (ap (λ b. b || mem n ms) e) ∙ h)))
]

pub clear-le : (o : Option ℕ) (ms : List ℕ) → length (clear o ms) ≤ length ms
clear-le none ms = omega arith
clear-le (some n) ms = length-disarm n ms

pub append-started :
    (es : List Event) (e : Event) (k : ℕ)
    → count_started (e ∷ []) ≡ k
    → count_started (es ++ e ∷ []) ≡ k + count_started es
append-started es e k h =
    count_started-append es (e ∷ []) ∙ ap (λ m. count_started es + m) h ∙ omega arith

pub append-quiet :
    (es : List Event) (e : Event)
    → count_started (e ∷ []) ≡ 0
    → count_started (es ++ e ∷ []) ≡ count_started es
append-quiet es e h = append-started es e 0 h ∙ omega arith
