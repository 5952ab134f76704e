-- ===== src/Prelude/Text/Laws.antt =====
-- What the text operations compute.
use Prim.Native.Nat.{ℕ, ◌+◌}
use mathlib.Core.Path.{◌≡◌, refl, ap, ap₂}
use mathlib.Core.Logic.{◌↔◌, ◌⊎◌, inl, inr}
use mathlib.Core.Bool.{Bool, true, false, ◌&&◌, ◌||◌}
use mathlib.Core.Option.{some}
use mathlib.Core.List.{List, [], ◌∷◌, ◌++◌}
use native.Mathlib.Omega.{arith}
use baffle.Prelude.Tests.{Bool-cases, Option-cases, ◌==◌}
use baffle.Prelude.Text.Basic.{
  Bytes, length, eq, any, all, starts_with, strip_suffix, to_ascii_lowercase, lower_byte,
  split_once,
}

pub eq_refl : (xs : Bytes) → eq xs xs ≡ true
unfolding eq
eq_refl [] = refl
eq_refl (x ∷ xs) = ground (arith, eq_refl xs)

pub eq→≡ : (xs ys : Bytes) → eq xs ys ≡ true → xs ≡ ys
unfolding eq
eq→≡ [] [] h = refl
eq→≡ (x ∷ xs) (y ∷ ys) h = ground (arith, eq→≡ xs ys)
eq→≡ [] (y ∷ ys) h = absurd (ground arith)
eq→≡ (x ∷ xs) [] h = absurd (ground arith)

pub eq_iff : (xs ys : Bytes) → (eq xs ys ≡ true) ↔ (xs ≡ ys)
eq_iff xs ys = (eq→≡ xs ys, λ e. rw e (eq_refl ys))

pub length-append {ℓ} : {A : Type 0} (xs ys : List A) → length (xs ++ ys) ≡ length xs + length ys
length-append [] ys = omega arith
length-append (x ∷ xs) ys = omega (arith, length-append xs ys)

-- Prefixes.

pub starts_with-append : (p r : Bytes) → starts_with (p ++ r) p ≡ true
unfolding starts_with
starts_with-append [] [] = refl
starts_with-append [] (x ∷ r) = refl
starts_with-append (x ∷ p) r = ground (arith, starts_with-append p r)

pub starts_with-nil : (t : Bytes) → starts_with t [] ≡ true
unfolding starts_with
starts_with-nil [] = refl
starts_with-nil (x ∷ t) = refl

pub starts_with_self : (t : Bytes) → starts_with t t ≡ true
unfolding starts_with
starts_with_self [] = refl
starts_with_self (x ∷ t) = ground (arith, starts_with_self t)

pub starts_with-split : (t p : Bytes) → starts_with t p ≡ true → (r : Bytes) × (t ≡ p ++ r)
unfolding starts_with
starts_with-split t [] h = (t, refl)
starts_with-split [] (p ∷ ps) h = absurd (ground arith)
starts_with-split (t ∷ ts) (p ∷ ps) h =
    let rest = starts_with-split ts ps (ground arith) in (rest.0, ground (arith, rest.1))

-- Two prefixes of one text are comparable.
pub starts_with-linear :
    (t p q : Bytes)
    → starts_with t p ≡ true
    → starts_with t q ≡ true
    → (starts_with p q ≡ true) ⊎ (starts_with q p ≡ true)
unfolding starts_with
starts_with-linear t [] q hp hq = inr (starts_with-nil q)
starts_with-linear t (p ∷ ps) [] hp hq = inl refl
starts_with-linear [] (p ∷ ps) (q ∷ qs) hp hq = absurd (ground arith)
starts_with-linear (t ∷ ts) (p ∷ ps) (q ∷ qs) hp hq = ground (arith, starts_with-linear ts ps qs)

pub starts_with_trans :
    (t p q : Bytes) → starts_with t p ≡ true → starts_with p q ≡ true → starts_with t q ≡ true
unfolding starts_with
starts_with_trans t p [] hp hq = starts_with-nil t
starts_with_trans t [] (q ∷ qs) hp hq = absurd (ground arith)
starts_with_trans [] (p ∷ ps) (q ∷ qs) hp hq = absurd (ground arith)
starts_with_trans (t ∷ ts) (p ∷ ps) (q ∷ qs) hp hq = ground (arith, starts_with_trans ts ps qs)

-- Suffixes.

cons-eq : {x y : ℕ} {xs ys : Bytes} → x ∷ xs ≡ y ∷ ys → (x ≡ y) × (xs ≡ ys)
cons-eq h = ground arith

-- One step of the search: the whole rest is the suffix, or the byte is passed.
strip_suffix_step :
    (x : ℕ) (t s : Bytes) {p : Bytes}
    → strip_suffix (x ∷ t) s ≡ some p
    → ((x ∷ t ≡ s) × (p ≡ [])) ⊎ ((q : Bytes) × (strip_suffix t s ≡ some q) × (p ≡ x ∷ q))
unfolding strip_suffix
strip_suffix_step x t s h = ground (arith, eq→≡ (x ∷ t) s)

pub strip_suffix-split : (t s : Bytes) {p : Bytes} → strip_suffix t s ≡ some p → t ≡ p ++ s
strip_suffix-split [] [] h = unfold strip_suffix in ground arith
strip_suffix-split [] (y ∷ s) h = absurd (unfold strip_suffix in ground arith)
strip_suffix-split (x ∷ t) s {p} h = elim (strip_suffix_step x t s h) [
  | inl (whole, none_left) ↦ rw (none_left) whole
  | inr (q, found, passed) ↦ rw passed (ap (◌∷◌ x) (strip_suffix-split t s found))
]

append-eq-length : (x : ℕ) (p s : Bytes) → eq (x ∷ (p ++ s)) s ≡ false
append-eq-length x p s = elim (Bool-cases (eq (x ∷ (p ++ s)) s)) [
  | inl same ↦ absurd (omega (arith, ap length (eq→≡ (x ∷ (p ++ s)) s same), length-append {0} p s))
  | inr differ ↦ differ
]

pub strip_suffix-append : (p s : Bytes) → strip_suffix (p ++ s) s ≡ some p
unfolding strip_suffix
strip_suffix-append [] [] = refl
strip_suffix-append [] (y ∷ s) = rw (eq_refl (y ∷ s))
strip_suffix-append (x ∷ p) s = rw (append-eq-length x p s, strip_suffix-append p s)

module _ {A : Type 0} (p : A → Bool) where
  pub any-append : (xs ys : List A) → any p (xs ++ ys) ≡ (any p xs || any p ys)
  unfolding any
  any-append [] ys = refl
  any-append (x ∷ xs) ys = ground (arith, any-append xs ys)

  pub all-append : (xs ys : List A) → all p (xs ++ ys) ≡ (all p xs && all p ys)
  unfolding all
  all-append [] ys = refl
  all-append (x ∷ xs) ys = ground (arith, all-append xs ys)

pub lower-append :
    (xs ys : Bytes) → to_ascii_lowercase (xs ++ ys) ≡ to_ascii_lowercase xs ++ to_ascii_lowercase ys
lower-append [] ys = refl
lower-append (x ∷ xs) ys = ap (◌∷◌ (lower_byte x)) (lower-append xs ys)

pub lower_byte-lower_byte : (c : ℕ) → lower_byte (lower_byte c) ≡ lower_byte c
lower_byte-lower_byte c = ground arith

pub lower-lower :
    (text : Bytes) → to_ascii_lowercase (to_ascii_lowercase text) ≡ to_ascii_lowercase text
lower-lower [] = refl
lower-lower (c ∷ text) = ap₂ ◌∷◌ (lower_byte-lower_byte c) (lower-lower text)

-- The two parts and the byte between them make up the text.
pub split_once-split :
    (sep : ℕ) (text l r : Bytes) → split_once sep text ≡ some (l, r) → text ≡ l ++ (sep ∷ r)
unfolding split_once
split_once-split sep [] l r e = absurd (ground arith)
split_once-split sep (c ∷ text) l r e = elim (Bool-cases (c == sep)) [
  | inl hit ↦ ground arith
  | inr miss ↦ elim (Option-cases (split_once sep text)) [
    | inl none_left ↦ absurd (ground arith)
    | inr ((l', r'), found) ↦ ground (arith, split_once-split sep text l' r' found)
  ]
]
