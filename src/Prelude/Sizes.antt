-- ===== src/Prelude/Sizes.antt =====
-- The number of entries of a map, and of those whose keys are listed.
use Prim.Native.Nat.{ℕ, ◌+◌}
use mathlib.Core.Path.{◌≡◌, refl}
use mathlib.Core.Logic.{inl, inr}
use mathlib.Core.Bool.{Bool, true, false, ◌||◌}
use mathlib.Core.List.{List, [], ◌∷◌}
use native.Mathlib.Omega.{arith}
use baffle.Prelude.Tests.{if◌then◌else◌, Bool-cases}
use baffle.Prelude.Text.{Bytes, eq, eq→≡, eq_refl, length}
use baffle.Prelude.Assoc.{Assoc, get, insert, remove, contains_key, get-insert, get-remove}

pub eq_comm : (a b : Bytes) → eq a b ≡ eq b a
eq_comm a b = ground (arith, eq→≡ a b, eq→≡ b a, eq_refl a)

-- Whether a list has a key.
abbrev pub member : Bytes → List Bytes → Bool
member k [] = false
member k (p ∷ ps) = eq p k || member k ps

abbrev pub Distinct : List Bytes → Type 0
Distinct [] = Unit {0}
Distinct (p ∷ ps) = (member p ps ≡ false) × Distinct ps

module _ {V : Type 0} where
  abbrev pub keys : Assoc V → List Bytes
  keys [] = []
  keys ((k, v) ∷ rest) = k ∷ keys rest

  -- No key has two entries.
  abbrev pub Unique : Assoc V → Type 0
  Unique [] = Unit {0}
  Unique ((k, v) ∷ rest) = (contains_key k rest ≡ false) × Unique rest

  -- The number of entries whose keys are listed.
  abbrev pub waiting : List Bytes → Assoc V → ℕ
  waiting ps [] = 0
  waiting ps ((k, v) ∷ rest) = (if member k ps then 1 else 0) + waiting ps rest

  pub member-keys : (k : Bytes) (m : Assoc V) → member k (keys m) ≡ contains_key k m
  unfolding get
  member-keys k [] = refl
  member-keys k ((j, v) ∷ rest) = ground (arith, member-keys k rest)

  pub Unique-keys : (m : Assoc V) → Unique m → Distinct (keys m)
  Unique-keys [] u = tt
  Unique-keys ((k, v) ∷ rest) (a, u) = (ground (arith, member-keys k rest), Unique-keys rest u)

  pub contains_key-insert :
      (k j : Bytes) (v : V) (m : Assoc V)
      → contains_key j (insert k v m) ≡ (eq k j || contains_key j m)
  contains_key-insert k j v m = ground (arith, get-insert k j v m)

  pub contains_key-remove :
      (k j : Bytes) (m : Assoc V)
      → contains_key j (remove k m) ≡ (if eq k j then false else contains_key j m)
  contains_key-remove k j m = ground (arith, get-remove k j m)

  pub Unique-insert : (k : Bytes) (v : V) (m : Assoc V) → Unique m → Unique (insert k v m)
  unfolding insert get
  Unique-insert k v [] u = (refl, tt)
  Unique-insert k v ((j, w) ∷ rest) (a, u) = elim (Bool-cases (eq j k)) [
    | inl same ↦ ground (arith, eq→≡ j k)
    | inr differ ↦
        ground (arith, Unique-insert k v rest, contains_key-insert k j v rest, eq_comm j k)
  ]

  pub Unique-remove : (k : Bytes) (m : Assoc V) → Unique m → Unique (remove k m)
  unfolding remove
  Unique-remove k [] u = tt
  Unique-remove k ((j, w) ∷ rest) (a, u) = elim (Bool-cases (eq j k)) [
    | inl same ↦ ground (arith, Unique-remove k rest)
    | inr differ ↦ ground (arith, Unique-remove k rest, contains_key-remove k j rest)
  ]

  pub length-insert :
      (k : Bytes) (v : V) (m : Assoc V)
      → length (insert k v m) ≡ (if contains_key k m then 0 else 1) + length m
  unfolding insert get
  length-insert k v [] = refl
  length-insert k v ((j, w) ∷ rest) = ground (arith, length-insert k v rest)

  pub remove_absent : (k : Bytes) (m : Assoc V) → contains_key k m ≡ false → remove k m ≡ m
  unfolding remove get
  remove_absent k [] h = refl
  remove_absent k ((j, w) ∷ rest) h = ground (arith, remove_absent k rest)

  pub length-remove :
      (k : Bytes) (m : Assoc V)
      → Unique m
      → length m ≡ (if contains_key k m then 1 else 0) + length (remove k m)
  unfolding remove get
  length-remove k [] u = refl
  length-remove k ((j, w) ∷ rest) (a, u) = elim (Bool-cases (eq j k)) [
    | inl same ↦ rw (same, remove_absent k rest (rw (← eq→≡ j k same) a)) (ground arith)
    | inr differ ↦ ground (arith, length-remove k rest)
  ]

  pub waiting-insert :
      (ps : List Bytes) (k : Bytes) (v : V) (m : Assoc V)
      → contains_key k m ≡ true
      → waiting ps (insert k v m) ≡ waiting ps m
  unfolding insert get
  waiting-insert ps k v [] h = absurd (ground arith)
  waiting-insert ps k v ((j, w) ∷ rest) h = elim (Bool-cases (eq j k)) [
    | inl same ↦ rw (same, eq→≡ j k same) refl
    | inr differ ↦ ground (arith, waiting-insert ps k v rest)
  ]

  pub waiting-remove :
      (ps : List Bytes) (k : Bytes) (m : Assoc V)
      → Unique m
      → member k ps ≡ true
      → waiting ps m ≡ (if contains_key k m then 1 else 0) + waiting ps (remove k m)
  unfolding remove get
  waiting-remove ps k [] u h = refl
  waiting-remove ps k ((j, w) ∷ rest) (a, u) h = elim (Bool-cases (eq j k)) [
    | inl same ↦
        rw (same, remove_absent k rest (rw (← eq→≡ j k same) a), eq→≡ j k same, h)
          (ground (arith, eq_refl k))
    | inr differ ↦ ground (arith, waiting-remove ps k rest)
  ]

  -- A key taken off the list.
  pub waiting-pop :
      (p : Bytes) (ps : List Bytes) (m : Assoc V)
      → Unique m
      → member p ps ≡ false
      → waiting (p ∷ ps) m ≡ (if contains_key p m then 1 else 0) + waiting ps m
  unfolding get
  waiting-pop p ps [] u h = refl
  waiting-pop p ps ((k, v) ∷ rest) (a, u) h = elim (Bool-cases (eq k p)) [
    | inl same ↦ ground (arith, waiting-pop p ps rest u h, eq→≡ k p, eq_refl p)
    | inr differ ↦ ground (arith, waiting-pop p ps rest u h, eq_comm k p)
  ]

  pub waiting_none : (m : Assoc V) → waiting [] m ≡ 0
  waiting_none [] = refl
  waiting_none ((k, v) ∷ rest) = ground (arith, waiting_none rest)

  waiting_listed :
      (ps : List Bytes) (m : Assoc V)
      → ((k : Bytes) → contains_key k m ≡ true → member k ps ≡ true)
      → waiting ps m ≡ length m
  unfolding get
  waiting_listed ps [] h = refl
  waiting_listed ps ((k, v) ∷ rest) h =
      let here : member k ps ≡ true = h k (ground (arith, eq_refl k)) in
      let later = waiting_listed ps rest (λ j e. h j (ground arith)) in ground arith

  pub waiting-keys : (m : Assoc V) → waiting (keys m) m ≡ length m
  waiting-keys m = waiting_listed (keys m) m (λ k e. ground (arith, member-keys k m))
