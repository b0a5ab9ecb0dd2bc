-- ===== src/Tracker.antt =====
-- lib/session/session-tracker.js: the sessions by their call sid. A session is left abstract; `idles`
-- counts the emissions of `idle`.
pub mod Lookup
pub mod Refinement
mod Examples
use Prim.Native.String.{String}
use text.Mathlib.Text.{◌==◌}
use jambonz_feature_server.Prelude.{
  ℕ, suc, Bool, Option, none, some, List, [], ◌∷◌, length, if◌then◌else◌,
}

pub record Tracker (S : Type 0) : Type 0 where
  pub sessions : List (String × S)
  pub idles : ℕ

module _ {S : Type 0} where
  unfoldable pub lookup : String → List (String × S) → Option S
  lookup sid [] = none
  lookup sid ((other, session) ∷ rest) = if other == sid then some session else lookup sid rest

  -- `Map.set` keeps the place of a key that is there.
  unfoldable pub insert : String → S → List (String × S) → List (String × S)
  insert sid session [] = (sid, session) ∷ []
  insert sid session ((other, held) ∷ rest) =
      if other == sid then (sid, session) ∷ rest else (other, held) ∷ insert sid session rest

  unfoldable pub delete : String → List (String × S) → List (String × S)
  delete sid [] = []
  delete sid ((other, held) ∷ rest) = if other == sid then rest else (other, held) ∷ delete sid rest

  -- `new SessionTracker()`
  unfoldable pub create : Tracker S
  create = record { sessions = []; idles = 0 }

  -- `count`
  abbrev pub count : Tracker S → ℕ
  count t = length t.sessions

  -- `add` and `remove` assert that the sid is not empty; `none` is the error they throw.
  unfoldable pub add : String → S → Tracker S → Option (Tracker S)
  add sid session t =
      if sid == "" then none else some (record t { sessions = insert sid session t.sessions })

  emit_if_idle : Tracker S → Tracker S
  emit_if_idle t = elim t.sessions [ [] ↦ record t { idles = suc t.idles } | _ ∷ _ ↦ t ]

  unfoldable pub remove : String → Tracker S → Option (Tracker S)
  unfolding emit_if_idle
  remove sid t =
      if sid == ""
      then none
      else some (emit_if_idle (record t { sessions = delete sid t.sessions }))

  -- `get`
  unfoldable pub get : String → Tracker S → Option S
  get sid t = lookup sid t.sessions

  -- `has`
  unfoldable pub has : String → Tracker S → Bool
  has sid t = elim (lookup sid t.sessions) [ none ↦ Bool.false | some _ ↦ Bool.true ]
