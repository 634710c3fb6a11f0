-- ===== src/Prelude/Maps.antt =====
-- Go's map[string]V as an association list: reading, storing and deleting a key.
use Prim.Native.String.{String}
use mathlib.Core.Path.{◌≡◌}
use mathlib.Core.Option.{Option, none, some}
use mathlib.Core.List.{List, [], ◌∷◌}
use native.Mathlib.Omega.{arith}
use text.Mathlib.Text.{◌==◌}
use text.Mathlib.TextEquality.{eq_iff}
use logsieve.Prelude.Tests.{if◌then◌else◌}

abbrev pub Dict {ℓ} : Type ℓ → Type ℓ
Dict V = List (String × V)

module _ {ℓ} {V : Type ℓ} where
  -- delete(m, key)
  unfoldable pub delete : String → Dict V → Dict V
  delete key [] = []
  delete key ((name, value) ∷ rest) =
      let left = delete key rest in if name == key then left else (name, value) ∷ left

  -- value, ok := m[key]
  unfoldable pub lookup : String → Dict V → Option V
  lookup key [] = none
  lookup key ((name, value) ∷ rest) =
      let later = lookup key rest in if name == key then some value else later

  -- m[key] = value
  unfoldable pub insert : String → V → Dict V → Dict V
  insert key value [] = (key, value) ∷ []
  insert key value ((name, old) ∷ rest) =
      let later = insert key value rest in
      if name == key then (key, value) ∷ rest else (name, old) ∷ later

  pub lookup-delete :
      (key other : String) (m : Dict V)
      → lookup other (delete key m) ≡ (if key == other then none else lookup other m)
  unfolding lookup delete
  lookup-delete key other [] = ground arith
  lookup-delete key other ((name, value) ∷ rest) =
      ground
        (arith, eq_iff name other, eq_iff key other, eq_iff name key, lookup-delete key other rest)

  pub lookup-insert :
      (key other : String) (value : V) (m : Dict V)
      → lookup other (insert key value m) ≡ (if key == other then some value else lookup other m)
  unfolding insert lookup
  lookup-insert key other value [] = ground arith
  lookup-insert key other value ((name, old) ∷ rest) = ground (
    arith,
    eq_iff name other,
    eq_iff key other,
    eq_iff name key,
    lookup-insert key other value rest,
  )

  pub insert-insert :
      (key : String) (old new : V) (m : Dict V)
      → insert key new (insert key old m) ≡ insert key new m
  unfolding insert
  insert-insert key old new [] = ground (arith, eq_iff key key)
  insert-insert key old new ((name, value) ∷ rest) =
      ground (arith, eq_iff key key, eq_iff name key, insert-insert key old new rest)

pub ruleset dict_laws = (lookup-insert, lookup-delete)
