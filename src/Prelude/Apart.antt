-- ===== src/Prelude/Apart.antt =====
-- Lists with no two entries in a relation.
use Prim.Native.Nat.{ℕ, suc, ◌≤◌}
use mathlib.Core.Path.{◌≡◌, refl}
use mathlib.Core.Logic.{inl, inr}
use mathlib.Core.Bool.{Bool, true, false}
use mathlib.Core.List.{List, [], ◌∷◌, ◌++◌}
use native.Mathlib.Omega.{arith}
use baffle.Prelude.Tests.{if◌then◌else◌, Bool-cases}
use baffle.Prelude.Text.{any, any-append}

-- How many entries pass a test.
abbrev pub count : {A : Type 0} → (A → Bool) → List A → ℕ
count p [] = 0
count p (x ∷ xs) = if p x then suc (count p xs) else count p xs

module _ {A : Type 0} (r : A → A → Bool) where
  -- No entry is in the relation to a later one.
  abbrev pub Apart : List A → Type 0
  Apart [] = Unit {0}
  Apart (x ∷ xs) = (any (λ y. r x y) xs ≡ false) × Apart xs

  pub Apart-snoc :
      (xs : List A) (x : A) → Apart xs → any (λ e. r e x) xs ≡ false → Apart (xs ++ x ∷ [])
  unfolding any
  Apart-snoc [] x h f = (refl, tt)
  Apart-snoc (e ∷ xs) x h f =
      (ground (arith, any-append (λ y. r e y) xs (x ∷ [])), Apart-snoc xs x h.1 (ground arith))

count-any : {A : Type 0} (p : A → Bool) (xs : List A) → any p xs ≡ false → count p xs ≡ 0
unfolding any
count-any p [] h = refl
count-any p (x ∷ xs) h = ground (arith, count-any p xs)

any_mono :
    {A : Type 0} (p q : A → Bool)
    → ((x : A) → p x ≡ true → q x ≡ true)
    → (xs : List A) → any q xs ≡ false
    → any p xs ≡ false
unfolding any
any_mono p q imp [] h = refl
any_mono p q imp (x ∷ xs) h = ground (arith, imp x, any_mono p q imp xs)

-- Where two entries that pass a test are in the relation, an apart list has one at most.
pub Apart-count :
    {A : Type 0} (r : A → A → Bool) (p : A → Bool)
    → ((x y : A) → p x ≡ true → p y ≡ true → r x y ≡ true)
    → (xs : List A) → Apart r xs
    → count p xs ≤ 1
Apart-count r p imp [] h = omega arith
Apart-count r p imp (x ∷ xs) h = elim (Bool-cases (p x)) [
  | inl hit ↦
      rw hit
        (omega (arith, count-any p xs (any_mono p (λ y. r x y) (λ y hy. imp x y hit hy) xs h.0)))
  | inr miss ↦ rw miss (Apart-count r p imp xs h.1)
]
