-- ===== src/Tracker/Refinement.antt =====
-- The session tracker of lib/session/session-tracker.js against the history of each call sid.
use Prim.Native.String.{String}
use text.Mathlib.Text.{◌==◌}
use jambonz_feature_server.Prelude.{
  ◌≡◌, refl, ap, ◌∙◌, Bool, true, false, Option, none, some, List, [], ◌∷◌, if◌then◌else◌,
}
use jambonz_feature_server.Tracker.{Tracker, create, lookup, add, remove, get}
use jambonz_feature_server.Tracker.Lookup.{IsMap, get-add, get-remove}

pub data Op (S : Type 0) : Type 0 where
  adds : String → S → Op S
  removes : String → Op S

module _ {S : Type 0} where
  -- A call that throws leaves the tracker as it was.
  abbrev pub or_same : Tracker S → Option (Tracker S) → Tracker S
  or_same t none = t
  or_same t (some u) = u

  unfoldable pub step : Op S → Tracker S → Tracker S
  unfolding add remove
  step (adds sid session) t = or_same t (add sid session t)
  step (removes sid) t = or_same t (remove sid t)

  unfoldable pub run : List (Op S) → Tracker S → Tracker S
  unfolding step
  run [] t = t
  run (op ∷ ops) t = run ops (step op t)

  -- What one call does to what a sid has, and what the calls do to it one after the other.
  abbrev pub after : String → Op S → Option S → Option S
  after j (adds sid session) now = if sid == "" then now else if sid == j then some session else now
  after j (removes sid) now = if sid == "" then now else if sid == j then none else now

  unfoldable pub held : String → List (Op S) → Option S → Option S
  held j [] now = now
  held j (op ∷ ops) now = held j ops (after j op now)

  -- A tracker whose sids are distinct gives a sid what it has.
  abbrev pub Gives : String → Option S → Tracker S → Type 0
  Gives j now t = (get j t ≡ now) × IsMap t.sessions

  changed :
      (b : Bool) (j : String) (t u : Tracker S) (old new : Option S)
      → Gives j old t
      → ((if b then none else some u) ≡ some u → Gives j new u)
      → Gives j (if b then old else new) (or_same t (if b then none else some u))
  changed true j t u old new h k = h
  changed false j t u old new h k = k refl

  step-Gives :
      (j : String) (op : Op S) (t : Tracker S)
      → IsMap t.sessions
      → Gives j (after j op (get j t)) (step op t)
  unfolding step add remove
  step-Gives j (adds sid session) t m =
      changed (sid == "") j t _ (get j t) (if sid == j then some session else get j t) (refl, m)
        (λ n. let g = get-add sid j session t _ m n in (g.0, g.2))
  step-Gives j (removes sid) t m =
      changed (sid == "") j t _ (get j t) (if sid == j then none else get j t) (refl, m)
        (λ n. let g = get-remove sid j t _ m n in (g.0, g.2))

  run-Gives :
      (j : String) (ops : List (Op S)) (t : Tracker S)
      → IsMap t.sessions
      → Gives j (held j ops (get j t)) (run ops t)
  unfolding run held
  run-Gives j [] t m = (refl, m)
  run-Gives j (op ∷ ops) t m =
      let (now, kept) = step-Gives j op t m in
      let (end, same) = run-Gives j ops (step op t) kept in (end ∙ ap (held j ops) now, same)

  -- After any calls of `add` and `remove` on a new tracker, where those that throw change nothing,
  -- `get` gives for a sid what the calls for that sid alone make of it, in order: the session of
  -- the last `add`, or none after a `remove`.
  pub run_refines : (ops : List (Op S)) (j : String) → get j (run ops create) ≡ held j ops none
  unfolding create get lookup
  run_refines ops j = (run-Gives j ops create tt).0
