-- ===== src/Sticky.antt =====
-- lib/utils/sticky-event-emitter.js, over the listeners of Node's `EventEmitter`. A listener is known
-- by a number; `calls` records which were called with what, oldest first, and each call of
-- `onSuccess`. The arguments of an event are left abstract, as one value.
pub mod Repeats
mod Examples
use jambonz_feature_server.Prelude.Maps.{lookup, insert, remove}
use jambonz_feature_server.Prelude.{
  ℕ, Bool, true, false, Option, none, some, List, [], ◌∷◌, ◌++◌, ◌==◌, ◌&&◌, if◌then◌else◌,
}

-- Event names and listeners are compared only.
abbrev pub EventName : Type 0
EventName = ℕ

abbrev pub Listener : Type 0
Listener = ℕ

pub data Call (A : Type 0) : Type 0 where
  called : Listener → A → Call A
  succeeded : Call A

-- A listener of the native emitter; `once` ones go when they are called.
pub record Registered : Type 0 where
  pub event : EventName
  pub listener : Listener
  pub once : Bool

pub record Emitter (A : Type 0) : Type 0 where
  pub cache : List (EventName × A)
  pub once_listeners : List (EventName × List Listener)
  pub registered : List Registered
  pub has_on_success : Bool
  pub calls : List (Call A)

abbrev pub or_empty : Option (List Listener) → List Listener
or_empty none = []
or_empty (some ls) = ls

unfoldable pub keep_after : EventName → List Registered → List Registered
keep_after event [] = []
keep_after event (r ∷ rs) =
    let rest = keep_after event rs in if r.event == event && r.once then rest else r ∷ rest

module _ {A : Type 0} where
  -- `new StickyEventEmitter()`
  unfoldable pub create : Bool → Emitter A
  create has_on_success = record {
    cache = [];
    once_listeners = [];
    registered = [];
    has_on_success = has_on_success;
    calls = [];
  }

  -- `destroy`
  unfoldable pub destroy : Emitter A → Emitter A
  destroy e = record e { cache = []; once_listeners = []; registered = [] }

  abbrev pub call_all : List Listener → A → List (Call A)
  call_all [] args = []
  call_all (l ∷ ls) args = called l args ∷ call_all ls args

  unfoldable pub succeed : Emitter A → Emitter A
  succeed e = if e.has_on_success then record e { calls = e.calls ++ succeeded ∷ [] } else e

  -- The native `emit`: calls the listeners of the event in order, and drops the `once` ones.
  unfoldable pub native_calls : EventName → A → List Registered → List (Call A)
  native_calls event args [] = []
  native_calls event args (r ∷ rs) =
      let rest = native_calls event args rs in
      if r.event == event then called r.listener args ∷ rest else rest

  unfoldable pub native_emit : EventName → A → Emitter A → Emitter A
  native_emit event args e = record e {
    calls = e.calls ++ native_calls event args e.registered;
    registered = keep_after event e.registered;
  }

  -- `emit`
  unfoldable pub emit : EventName → A → Emitter A → Emitter A
  unfolding succeed native_emit
  emit event args e =
      let cached = record e { cache = insert event args e.cache } in
      elim (lookup event e.once_listeners) [
        | some ls ↦
            let done = succeed (record cached { calls = cached.calls ++ call_all ls args }) in
            record done { once_listeners = remove event done.once_listeners }
        | none ↦ native_emit event args cached
      ]

  -- `super.on`
  unfoldable pub native_add : EventName → Listener → Bool → Emitter A → Emitter A
  native_add event l once e = record e {
    registered = e.registered ++ record { event = event; listener = l; once = once } ∷ [];
  }

  -- `on`
  unfoldable pub on : EventName → Listener → Emitter A → Emitter A
  unfolding native_add
  on event l e = native_add event l false (elim (lookup event e.cache) [
    | none ↦ e
    | some args ↦ record e { calls = e.calls ++ called l args ∷ [] }
  ])

  -- `once`. Node's `once` registers its wrapper by `this.on`, which finds nothing in the cache here.
  unfoldable pub once : EventName → Listener → Emitter A → Emitter A
  unfolding succeed native_add
  once event l e = elim (lookup event e.cache) [
    | some args ↦ succeed (record e { calls = e.calls ++ called l args ∷ [] })
    | none ↦ native_add event l true (record e {
      once_listeners =
          insert event (or_empty (lookup event e.once_listeners) ++ l ∷ []) e.once_listeners;
    })
  ]
