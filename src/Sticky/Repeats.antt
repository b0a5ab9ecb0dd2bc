-- ===== src/Sticky/Repeats.antt =====
-- What subscribers of lib/utils/sticky-event-emitter.js hear.
use jambonz_feature_server.Prelude.{
  ◌≡◌, refl, ap, ◌∙◌, Bool, true, none, some, List, [], ◌∷◌, ◌++◌, append-nil, arith, if◌then◌else◌,
}
use jambonz_feature_server.Prelude.Maps.{lookup, remove, lookup-insert_self, lookup-remove_self}
use jambonz_feature_server.Sticky.{
  EventName, Listener, Call, called, succeeded, Registered, Emitter, call_all, native_calls, emit,
  on, once,
}

module _ {A : Type 0} where
  native_calls-append :
      (event : EventName) (args : A) (rs ss : List Registered)
      → native_calls event args (rs ++ ss)
        ≡ native_calls event args rs ++ native_calls event args ss
  unfolding native_calls
  native_calls-append event args [] ss = refl
  native_calls-append event args (r ∷ rs) ss = ground (arith, native_calls-append event args rs ss)

  native_calls-one :
      (event : EventName) (l : Listener) (args : A) (once : Bool)
      → native_calls event args (record { event = event; listener = l; once = once } ∷ [])
        ≡ called l args ∷ []
  unfolding native_calls
  native_calls-one event l args once = ground arith

  -- What the emitter reports when it has called the listeners that waited.
  abbrev pub success : Emitter A → List (Call A)
  success e = if e.has_on_success then succeeded ∷ [] else []

  -- An event with waiting `once` listeners.
  emit_waited :
      (event : EventName) (args : A) (e : Emitter A) (ls : List Listener)
      → lookup event e.once_listeners ≡ some ls
      → ((emit event args e).calls ≡ (e.calls ++ call_all ls args) ++ success e)
        × ((emit event args e).registered ≡ e.registered)
        × ((emit event args e).once_listeners ≡ remove event e.once_listeners)
  unfolding emit
  emit_waited event args e ls h = ground (arith, append-nil (e.calls ++ call_all ls args))

  emit_unwaited :
      (event : EventName) (args : A) (e : Emitter A)
      → lookup event e.once_listeners ≡ none
      → (emit event args e).calls ≡ e.calls ++ native_calls event args e.registered
  unfolding emit
  emit_unwaited event args e h = rw (h, emit)

  once_uncached :
      (event : EventName) (l : Listener) (e : Emitter A)
      → lookup event e.cache ≡ none
      → lookup event e.once_listeners ≡ none
      → (lookup event (once event l e).once_listeners ≡ some (l ∷ []))
        × ((once event l e).registered
            ≡ e.registered ++ record { event = event; listener = l; once = true } ∷ [])
        × ((once event l e).calls ≡ e.calls)
  unfolding once
  once_uncached event l e h k = ground (arith, lookup-insert_self event (l ∷ []) e.once_listeners)

  cached :
      (event : EventName) (args : A) (e : Emitter A)
      → lookup event (emit event args e).cache ≡ some args
  unfolding emit
  cached event args e = ground (arith, lookup-insert_self event args e.cache)

  has_on_success-once :
      (event : EventName) (l : Listener) (e : Emitter A)
      → (once event l e).has_on_success ≡ e.has_on_success
  unfolding once
  has_on_success-once event l e = ground arith

  -- Where an event was not emitted yet and has no `once` listener, a listener that `once` adds is
  -- called by the first emission and by the second; the native listeners that were there before are
  -- called by the second only.
  pub once_hears_twice :
      (event : EventName) (l : Listener) (a b : A) (e : Emitter A)
      → lookup event e.cache ≡ none
      → lookup event e.once_listeners ≡ none
      → (emit event b (emit event a (once event l e))).calls
        ≡ ((e.calls ++ called l a ∷ []) ++ success e)
          ++ (native_calls event b e.registered ++ called l b ∷ [])
  once_hears_twice event l a b e h k =
      let added = once event l e in
      let first = emit event a added in
      let (waiting, kept, before) = once_uncached event l e h k in
      let (calls, still, left) = emit_waited event a added (l ∷ []) waiting in
      let unwaited : lookup event first.once_listeners ≡ none =
        ap (lookup event) left ∙ lookup-remove_self event added.once_listeners in
      let heard : native_calls event b first.registered
          ≡ native_calls event b e.registered ++ called l b ∷ [] =
        ap (native_calls event b) (still ∙ kept)
        ∙ native_calls-append event b e.registered _
        ∙ ap (◌++◌ (native_calls event b e.registered)) (native_calls-one event l b true) in
      let flag : success added ≡ success e =
        ap (λ (x : Bool). if x then succeeded ∷ [] else []) (has_on_success-once event l e) in
      emit_unwaited event b first unwaited
      ∙ ap (◌++◌ first.calls) heard
      ∙ ap (λ c. c ++ (native_calls event b e.registered ++ called l b ∷ []))
          (calls ∙ cc (before, flag))

  -- A listener that `on` adds after an emission is called at once, with the arguments of that
  -- emission.
  pub on-emit :
      (event : EventName) (l : Listener) (args : A) (e : Emitter A)
      → (on event l (emit event args e)).calls ≡ (emit event args e).calls ++ called l args ∷ []
  unfolding on
  on-emit event l args e = rw (cached event args e, on)
