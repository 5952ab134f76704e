-- ===== src/Prelude/Assoc.antt =====
-- Rust's `HashMap` and `BTreeMap` with string keys, as association lists. The program reads a map
-- by its keys, counts it, or sorts what it lists, so the order of the entries does not matter.
use mathlib.Core.Path.{◌≡◌, refl}
use mathlib.Core.Logic.{inl, inr}
use mathlib.Core.Bool.{Bool, true, false}
use mathlib.Core.Option.{Option, none, some}
use mathlib.Core.List.{List, [], ◌∷◌}
use native.Mathlib.Omega.{arith}
use baffle.Prelude.Tests.{if◌then◌else◌, Bool-cases}
use baffle.Prelude.Text.{Bytes, eq, eq→≡, eq_refl}

abbrev pub Assoc : Type 0 → Type 0
Assoc V = List (Bytes × V)

module _ {V : Type 0} where
  -- `map.get(key)`.
  unfoldable pub get : Bytes → Assoc V → Option V
  get key [] = none
  get key ((k, v) ∷ rest) = if eq k key then some v else get key rest

  -- `map.insert(key, value)`.
  unfoldable pub insert : Bytes → V → Assoc V → Assoc V
  insert key value [] = (key, value) ∷ []
  insert key value ((k, v) ∷ rest) =
      if eq k key then (key, value) ∷ rest else (k, v) ∷ insert key value rest

  -- `map.remove(key)`.
  unfoldable pub remove : Bytes → Assoc V → Assoc V
  remove key [] = []
  remove key ((k, v) ∷ rest) =
      let others = remove key rest in if eq k key then others else (k, v) ∷ others

  abbrev pub contains_key : Bytes → Assoc V → Bool
  contains_key key m = elim (get key m) [ none ↦ false | some v ↦ true ]

  pub get-insert :
      (key other : Bytes) (value : V) (m : Assoc V)
      → get other (insert key value m) ≡ (if eq key other then some value else get other m)
  unfolding get insert
  get-insert key other value [] = refl
  get-insert key other value ((k, v) ∷ rest) = elim (Bool-cases (eq k key)) [
    | inl same ↦ rw (same, eq→≡ k key same) (ground arith)
    | inr differ ↦
        rw (differ, get-insert key other value rest)
          (ground (arith, eq→≡ k other, eq→≡ key other, eq_refl other))
  ]

  pub get-remove :
      (key other : Bytes) (m : Assoc V)
      → get other (remove key m) ≡ (if eq key other then none else get other m)
  unfolding get remove
  get-remove key other [] = ground arith
  get-remove key other ((k, v) ∷ rest) = elim (Bool-cases (eq k key)) [
    | inl same ↦ rw (same, eq→≡ k key same, get-remove key other rest) (ground arith)
    | inr differ ↦
        rw (differ, get, get-remove key other rest)
          (ground (arith, eq→≡ k other, eq→≡ key other, eq_refl other, eq_refl key))
  ]
