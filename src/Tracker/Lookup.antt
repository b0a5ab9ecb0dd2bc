-- ===== src/Tracker/Lookup.antt =====
-- The session tracker of lib/session/session-tracker.js as a map from call sids to sessions.
use Prim.Native.String.{String}
use text.Mathlib.Text.{◌==◌}
use text.Mathlib.TextEquality.{eq_iff}
use jambonz_feature_server.Prelude.{
  ◌+◌, ◌≡◌, ◌≢◌, refl, none, some, List, [], ◌∷◌, length, arith, if◌then◌else◌, is_some,
  ◌==◌ as nat_eq,
}
use jambonz_feature_server.Tracker.{Tracker, lookup, insert, delete, count, add, remove, get, has}

module _ {S : Type 0} where
  -- No sid occurs twice.
  abbrev pub Absent : String → List (String × S) → Type 0
  Absent sid [] = Unit
  Absent sid ((other, session) ∷ rest) = (other ≢ sid) × Absent sid rest

  abbrev pub IsMap : List (String × S) → Type 0
  IsMap [] = Unit
  IsMap ((other, session) ∷ rest) = Absent other rest × IsMap rest

  lookup_of_Absent :
      (sid : String) (rest : List (String × S)) → Absent sid rest → lookup sid rest ≡ none
  unfolding lookup
  lookup_of_Absent sid [] h = refl
  lookup_of_Absent sid ((other, session) ∷ rest) h =
      ground (arith, eq_iff other sid, lookup_of_Absent sid rest)

  Absent-insert :
      (other sid : String) (session : S) (rest : List (String × S))
      → Absent other rest
      → sid ≢ other
      → Absent other (insert sid session rest)
  unfolding insert
  Absent-insert other sid session [] h differs = (differs, tt)
  Absent-insert other sid session ((key, held) ∷ rest) h differs =
      ground (arith, eq_iff key sid, Absent-insert other sid session rest h.1 differs)

  insert-IsMap :
      (sid : String) (session : S) (rest : List (String × S))
      → IsMap rest
      → IsMap (insert sid session rest)
  unfolding insert
  insert-IsMap sid session [] h = (tt, tt)
  insert-IsMap sid session ((key, held) ∷ rest) h = ground (
    arith,
    eq_iff key sid,
    insert-IsMap sid session rest h.1,
    Absent-insert key sid session rest h.0,
  )

  Absent-delete :
      (other sid : String) (rest : List (String × S))
      → Absent other rest
      → Absent other (delete sid rest)
  unfolding delete
  Absent-delete other sid [] h = tt
  Absent-delete other sid ((key, held) ∷ rest) h = ground (arith, Absent-delete other sid rest h.1)

  delete-IsMap : (sid : String) (rest : List (String × S)) → IsMap rest → IsMap (delete sid rest)
  unfolding delete
  delete-IsMap sid [] h = tt
  delete-IsMap sid ((key, held) ∷ rest) h =
      ground (arith, delete-IsMap sid rest h.1, Absent-delete key sid rest h.0)

  lookup-insert :
      (sid other : String) (session : S) (rest : List (String × S))
      → lookup other (insert sid session rest)
        ≡ (if sid == other then some session else lookup other rest)
  unfolding lookup insert
  lookup-insert sid other session [] = refl
  lookup-insert sid other session ((key, held) ∷ rest) = ground (
    arith,
    eq_iff sid other,
    eq_iff key sid,
    eq_iff key other,
    lookup-insert sid other session rest,
  )

  lookup-delete :
      (sid other : String) (rest : List (String × S))
      → IsMap rest
      → lookup other (delete sid rest) ≡ (if sid == other then none else lookup other rest)
  unfolding lookup delete
  lookup-delete sid other [] h = ground arith
  lookup-delete sid other ((key, held) ∷ rest) h = ground (
    arith,
    eq_iff sid other,
    eq_iff key sid,
    eq_iff key other,
    lookup-delete sid other rest h.1,
    lookup_of_Absent key rest h.0,
  )

  length-insert :
      (sid : String) (session : S) (rest : List (String × S))
      → length (insert sid session rest)
        ≡ (if is_some (lookup sid rest) then length rest else length rest + 1)
  unfolding lookup insert
  length-insert sid session [] = omega arith
  length-insert sid session ((key, held) ∷ rest) = ground (arith, length-insert sid session rest)

  -- Where no sid occurs twice, after an `add` that does not throw the sid gives the session, every
  -- other sid what it gave before, `count` is one more exactly if the sid was new, and no sid
  -- occurs twice.
  pub get-add :
      (sid j : String) (session : S) (t u : Tracker S)
      → IsMap t.sessions
      → add sid session t ≡ some u
      → (get j u ≡ (if sid == j then some session else get j t))
        × (count u ≡ (if has sid t then count t else count t + 1))
        × IsMap u.sessions
  unfolding add get has
  get-add sid j session t u m h = (
    ground (arith, lookup-insert sid j session t.sessions),
    ground (arith, length-insert sid session t.sessions),
    ground (arith, insert-IsMap sid session t.sessions m),
  )

  -- Where no sid occurs twice, after a `remove` that does not throw the sid gives nothing, every
  -- other sid what it gave before, `idle` is emitted once exactly if no session is left, and no sid
  -- occurs twice.
  pub get-remove :
      (sid j : String) (t u : Tracker S)
      → IsMap t.sessions
      → remove sid t ≡ some u
      → (get j u ≡ (if sid == j then none else get j t))
        × (u.idles ≡ t.idles + (if nat_eq (count u) 0 then 1 else 0))
        × IsMap u.sessions
  unfolding remove get
  get-remove sid j t u m h = (
    ground (arith, lookup-delete sid j t.sessions m),
    ground arith,
    ground (arith, delete-IsMap sid t.sessions m),
  )
