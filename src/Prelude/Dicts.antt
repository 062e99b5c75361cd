-- ===== src/Prelude/Dicts.antt =====
-- A Go map with string keys, as the list of its entries in the order in which a `range` visits them.
use Prim.Native.String.{String}
use mathlib.Core.Path.{◌≡◌, refl}
use mathlib.Core.Bool.{Bool, true, false}
use mathlib.Core.Option.{Option, none, some}
use mathlib.Core.List.{List, [], ◌∷◌}
use native.Mathlib.Omega.{arith}
use text.Mathlib.Text.{◌==◌}
use text.Mathlib.TextEquality.{eq_iff}
use cluster_registry.Prelude.Tests.{if◌then◌else◌}

abbrev pub Dict {ℓ} : Type ℓ → Type ℓ
Dict V = List (String × V)

module _ {ℓ} {V : Type ℓ} where
  -- The entry of the map, if there is one.
  unfoldable pub lookup : String → Dict V → Option V
  lookup name [] = none
  lookup name (entry ∷ rest) = if entry.0 == name then some entry.1 else lookup name rest

  -- `m[name] = value`, which keeps the place of an entry that is there.
  unfoldable pub insert : String → V → Dict V → Dict V
  insert name value [] = (name, value) ∷ []
  insert name value (entry ∷ rest) =
      if entry.0 == name then (name, value) ∷ rest else entry ∷ insert name value rest

  -- `delete(m, name)`
  unfoldable pub remove : String → Dict V → Dict V
  remove name [] = []
  remove name (entry ∷ rest) =
      if entry.0 == name then remove name rest else entry ∷ remove name rest

  pub lookup-remove :
      (gone name : String) (m : Dict V)
      → lookup name (remove gone m) ≡ (if gone == name then none else lookup name m)
  unfolding lookup remove
  lookup-remove gone name [] = ground arith
  lookup-remove gone name (entry ∷ rest) = ground (
    arith,
    lookup-remove gone name rest,
    eq_iff entry.0 name,
    eq_iff entry.0 gone,
    eq_iff gone name,
  )

  pub lookup-insert :
      (new name : String) (value : V) (m : Dict V)
      → lookup name (insert new value m) ≡ (if new == name then some value else lookup name m)
  unfolding lookup insert
  lookup-insert new name value [] = refl
  lookup-insert new name value (entry ∷ rest) = ground (
    arith,
    lookup-insert new name value rest,
    eq_iff entry.0 name,
    eq_iff entry.0 new,
    eq_iff new name,
  )

  pub remove-insert :
      (name : String) (value : V) (m : Dict V) → remove name (insert name value m) ≡ remove name m
  unfolding remove insert
  remove-insert name value [] = ground (arith, eq_iff name name)
  remove-insert name value (entry ∷ rest) =
      ground (arith, remove-insert name value rest, eq_iff entry.0 name, eq_iff name name)

  pub remove_comm : (a b : String) (m : Dict V) → remove a (remove b m) ≡ remove b (remove a m)
  unfolding remove
  remove_comm a b [] = refl
  remove_comm a b (entry ∷ rest) =
      ground (arith, remove_comm a b rest, eq_iff entry.0 a, eq_iff entry.0 b)

  pub remove_idem : (name : String) (m : Dict V) → remove name (remove name m) ≡ remove name m
  unfolding remove
  remove_idem name [] = refl
  remove_idem name (entry ∷ rest) = ground (arith, remove_idem name rest, eq_iff entry.0 name)

  -- The value of a key, or the default, as `m[k]` gives it.
  abbrev pub get_or : Option V → V → V
  get_or none d = d
  get_or (some v) d = v

-- `contains` of pkg/client/webhook/webhook.go, pkg/database/filter.go and pkg/auth/auth.go, and
-- `slices.Contains` on strings.
unfoldable pub contains : String → List String → Bool
contains item [] = false
contains item (s ∷ rest) = if s == item then true else contains item rest
