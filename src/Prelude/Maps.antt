-- ===== src/Prelude/Maps.antt =====
-- JavaScript's `Map` with numbers for its keys, as the list of its entries.
use Prim.Native.Nat.{ℕ}
use mathlib.Core.Path.{◌≡◌, refl}
use mathlib.Core.Option.{Option, none, some}
use mathlib.Core.List.{List, [], ◌∷◌}
use native.Mathlib.Omega.{arith}
use jambonz_feature_server.Prelude.Tests.{◌==◌, if◌then◌else◌}

module _ {V : Type 0} where
  -- `Map.get`, `Map.set` and `Map.delete`.
  unfoldable pub lookup : ℕ → List (ℕ × V) → Option V
  lookup key [] = none
  lookup key ((at, value) ∷ entries) = if at == key then some value else lookup key entries

  unfoldable pub insert : ℕ → V → List (ℕ × V) → List (ℕ × V)
  insert key value [] = (key, value) ∷ []
  insert key value ((at, held) ∷ entries) =
      if at == key then (key, value) ∷ entries else (at, held) ∷ insert key value entries

  unfoldable pub remove : ℕ → List (ℕ × V) → List (ℕ × V)
  remove key [] = []
  remove key ((at, held) ∷ entries) =
      let rest = remove key entries in if at == key then rest else (at, held) ∷ rest

  pub lookup-insert :
      (key at : ℕ) (value : V) (entries : List (ℕ × V))
      → lookup at (insert key value entries) ≡ (if key == at then some value else lookup at entries)
  unfolding lookup insert
  lookup-insert key at value [] = refl
  lookup-insert key at value ((first, held) ∷ entries) =
      ground (arith, lookup-insert key at value entries)

  pub lookup-insert_self :
      (key : ℕ) (value : V) (entries : List (ℕ × V))
      → lookup key (insert key value entries) ≡ some value
  lookup-insert_self key value entries = ground (arith, lookup-insert key key value entries)

  pub lookup-remove_self :
      (key : ℕ) (entries : List (ℕ × V)) → lookup key (remove key entries) ≡ none
  unfolding lookup remove
  lookup-remove_self key [] = refl
  lookup-remove_self key ((first, held) ∷ entries) = ground (arith, lookup-remove_self key entries)

  pub lookup-remove :
      (key at : ℕ) (entries : List (ℕ × V))
      → lookup at (remove key entries) ≡ (if key == at then none else lookup at entries)
  unfolding lookup remove
  lookup-remove key at [] = ground arith
  lookup-remove key at ((first, held) ∷ entries) = ground (arith, lookup-remove key at entries)
