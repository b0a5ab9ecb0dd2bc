-- ===== src/Requestor/InFlight.antt =====
-- The entries of `messagesInFlight` of lib/utils/ws-requestor.js and their time-outs.
use jambonz_feature_server.Prelude.{
  ℕ, suc, ◌+◌, ◌≤◌, ◌≡◌, ◌≢◌, refl, Bool, true, false, ◌||◌, Option, none, some, List, [], ◌∷◌,
  ◌++◌, ◌==◌, if◌then◌else◌, arith, Bool-cases, inl, inr,
}
use jambonz_feature_server.Prelude.Maps.{lookup, insert, remove}
use jambonz_feature_server.Requestor.Socket.{Pending, Settled, cancel}

abbrev pub mem : ℕ → List ℕ → Bool
mem t [] = false
mem t (u ∷ us) = u == t || mem t us

-- How often a promise was settled, and how many entries would settle it.
abbrev pub times_settled : ℕ → List Settled → ℕ
times_settled q [] = 0
times_settled q (x ∷ xs) = if x.promise == q then suc (times_settled q xs) else times_settled q xs

abbrev pub occurs : ℕ → Option Pending → ℕ
occurs q none = 0
occurs q (some p) = if p.promise == q then 1 else 0

abbrev pub in_flight_for : ℕ → List (ℕ × Option Pending) → ℕ
in_flight_for q [] = 0
in_flight_for q ((id, p) ∷ m) = occurs q p + in_flight_for q m

-- Each entry is that of the message of its key, whose time-out is running.
abbrev pub HasTimers : List ℕ → List (ℕ × Option Pending) → Type 0
HasTimers timers [] = Unit
HasTimers timers ((id, none) ∷ m) = ⊥
HasTimers timers ((id, some p) ∷ m) =
    (p.timer ≡ id) × (p.promise ≡ id) × (mem id timers ≡ true) × HasTimers timers m

pub mem-cancel :
    (t j : ℕ) (ts : List ℕ) → mem j (cancel t ts) ≡ (if t == j then false else mem j ts)
unfolding cancel
mem-cancel t j [] = ground arith
mem-cancel t j (u ∷ us) = ground (arith, mem-cancel t j us)

pub mem-append : (t j : ℕ) (ts : List ℕ) → mem j (ts ++ t ∷ []) ≡ (mem j ts || t == j)
mem-append t j [] = ground arith
mem-append t j (u ∷ us) = ground (arith, mem-append t j us)

pub times_settled-append :
    (q : ℕ) (xs : List Settled) (x : Settled)
    → times_settled q (xs ++ x ∷ []) ≡ times_settled q xs + times_settled q (x ∷ [])
times_settled-append q [] x = omega arith
times_settled-append q (y ∷ xs) x = ground (arith, times_settled-append q xs x)

-- Removing a key leaves the other entries with their time-outs.
pub HasTimers-remove :
    (id : ℕ) (ts us : List ℕ) (m : List (ℕ × Option Pending))
    → ((j : ℕ) → j ≢ id → mem j ts ≡ true → mem j us ≡ true)
    → HasTimers ts m
    → HasTimers us (remove id m)
unfolding remove
HasTimers-remove id ts us [] keep h = tt
HasTimers-remove id ts us ((j, none) ∷ m) keep h = absurd h
HasTimers-remove id ts us ((j, some p) ∷ m) keep (t, q, r, h) =
    ground (arith, keep j, HasTimers-remove id ts us m keep h)

pub in_flight_for-remove-le :
    (q id : ℕ) (m : List (ℕ × Option Pending)) → in_flight_for q (remove id m) ≤ in_flight_for q m
unfolding remove
in_flight_for-remove-le q id [] = omega arith
in_flight_for-remove-le q id ((j, p) ∷ m) = ground (arith, in_flight_for-remove-le q id m)

pub in_flight_for-remove :
    (q id : ℕ) (m : List (ℕ × Option Pending)) (o : Option Pending)
    → lookup id m ≡ some o
    → in_flight_for q (remove id m) + occurs q o ≤ in_flight_for q m
unfolding lookup remove
in_flight_for-remove q id [] o h = cc
in_flight_for-remove q id ((j, p) ∷ m) o h =
    ground (arith, in_flight_for-remove q id m o, in_flight_for-remove-le q id m)

-- A new key goes to the end.
pub HasTimers-insert :
    (n : ℕ) (ts us : List ℕ) (m : List (ℕ × Option Pending))
    → ((j : ℕ) → mem j ts ≡ true → mem j us ≡ true)
    → mem n us ≡ true
    → HasTimers ts m
    → HasTimers us (insert n (some (record { timer = n; promise = n })) m)
unfolding insert
HasTimers-insert n ts us [] keep k h = (refl, refl, k, tt)
HasTimers-insert n ts us ((j, none) ∷ m) keep k h = absurd h
HasTimers-insert n ts us ((j, some p) ∷ m) keep k (t, q, r, h) =
    ground (arith, keep j r, HasTimers-insert n ts us m keep k h, HasTimers-mono ts us m keep h)
  where
    HasTimers-mono :
        (ts us : List ℕ) (m : List (ℕ × Option Pending))
        → ((j : ℕ) → mem j ts ≡ true → mem j us ≡ true)
        → HasTimers ts m
        → HasTimers us m
    HasTimers-mono ts us [] keep h = tt
    HasTimers-mono ts us ((j, none) ∷ m) keep h = absurd h
    HasTimers-mono ts us ((j, some p) ∷ m) keep (t, q, r, h) =
        (t, q, keep j r, HasTimers-mono ts us m keep h)

pub in_flight_for-insert :
    (q n : ℕ) (o : Option Pending) (m : List (ℕ × Option Pending))
    → in_flight_for q (insert n o m) ≤ in_flight_for q m + occurs q o
unfolding insert
in_flight_for-insert q n o [] = omega arith
in_flight_for-insert q n o ((j, p) ∷ m) = ground (arith, in_flight_for-insert q n o m)

pub lookup-HasTimers :
    (ts : List ℕ) (id : ℕ) (m : List (ℕ × Option Pending)) (o : Option Pending)
    → HasTimers ts m
    → lookup id m ≡ some o
    → (p : Pending) × (o ≡ some p) × (p.timer ≡ id) × (p.promise ≡ id)
unfolding lookup
lookup-HasTimers ts id [] o h e = cc
lookup-HasTimers ts id ((j, none) ∷ m) o h e = absurd h
lookup-HasTimers ts id ((j, some p) ∷ m) o (t, q, r, h) e = elim (Bool-cases (j == id)) [
  | inl same ↦ (p, ground arith, ground arith, ground arith)
  | inr other ↦ lookup-HasTimers ts id m o h (ground arith)
]
