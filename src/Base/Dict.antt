-- ===== src/Base/Dict.antt =====
-- Go's maps with string keys as association lists.
use mathlib.Core.Path.{◌≡◌, refl}
use mathlib.Core.Logic.{◌⊎◌}
use mathlib.Core.List.{List, [], ◌∷◌}
use mathlib.Core.Option.{Option, none, some}
use mathlib.Core.Bool.{Bool, false, ◌||◌}
use native.Mathlib.Omega.{arith}
use knox_proxy.Base.Tests.{if◌then◌else◌}
use knox_proxy.Base.Texts.{Str, ◌==◌, eq_iff}

abbrev pub Map {ℓ} : Type ℓ → Type ℓ
Map V = List (Str × V)

-- The string is in the list.
abbrev pub Has : Str → List Str → Type 0
Has s [] = ⊥
Has s (t ∷ ts) = (t ≡ s) ⊎ Has s ts

abbrev pub keys {ℓ} : {V : Type ℓ} → Map V → List Str
keys [] = []
keys ((k, v) ∷ m) = k ∷ keys m

abbrev pub mem : Str → List Str → Bool
mem wanted [] = false
mem wanted (name ∷ names) = name == wanted || mem wanted names

module _ {ℓ} {V : Type ℓ} where
  unfoldable pub lookup : Str → Map V → Option V
  lookup wanted [] = none
  lookup wanted ((name, value) ∷ rest) = if name == wanted then some value else lookup wanted rest

  -- A name that is there keeps its place.
  unfoldable pub insert : Str → V → Map V → Map V
  insert name value [] = (name, value) ∷ []
  insert name value ((first, old) ∷ rest) =
      if first == name then (name, value) ∷ rest else (first, old) ∷ insert name value rest

  unfoldable pub delete : Str → Map V → Map V
  delete name [] = []
  delete name ((first, old) ∷ rest) =
      let kept = delete name rest in if first == name then kept else (first, old) ∷ kept

  pub lookup-insert :
      (name wanted : Str) (value : V) (m : Map V)
      → lookup wanted (insert name value m)
        ≡ (if name == wanted then some value else lookup wanted m)
  unfolding lookup insert
  lookup-insert name wanted value [] = refl
  lookup-insert name wanted value ((first, old) ∷ rest) = ground (
    arith,
    eq_iff name wanted,
    eq_iff first name,
    eq_iff first wanted,
    lookup-insert name wanted value rest,
  )

  pub lookup-delete :
      (name wanted : Str) (m : Map V)
      → lookup wanted (delete name m) ≡ (if name == wanted then none else lookup wanted m)
  unfolding lookup delete
  lookup-delete name wanted [] = ground arith
  lookup-delete name wanted ((first, old) ∷ rest) = ground (
    arith,
    eq_iff name wanted,
    eq_iff first name,
    eq_iff first wanted,
    lookup-delete name wanted rest,
  )

  pub lookup_missing :
      (wanted : Str) (m : Map V) → mem wanted (keys m) ≡ false → lookup wanted m ≡ none
  unfolding lookup
  lookup_missing wanted [] h = refl
  lookup_missing wanted ((name, value) ∷ rest) h = ground (arith, lookup_missing wanted rest)

pub ruleset map_laws = (lookup-insert, lookup-delete)
