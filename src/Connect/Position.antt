-- ===== src/Connect/Position.antt =====
-- Where the bytes received so far say that a CONNECT head ends, and what more bytes change.
use baffle.Prelude.{
  ℕ, suc, ◌+◌, ◌<◌, ◌≤◌, ◌≡◌, refl, ap, sym, ◌∙◌, ◌⊎◌, inl, inr, true, false, none, some, ◌++◌, [],
  ◌∷◌, Result, ok, Bool-cases, Option-cases, arith,
}
use baffle.Prelude.Text.{Bytes, length, length-append, starts_with}
use baffle.Io.{IoError}
use baffle.Connect.Head.{position, header_end, terminator}

starts_with-append_some :
    (xs ys p : Bytes) → starts_with xs p ≡ true → starts_with (xs ++ ys) p ≡ true
unfolding starts_with
starts_with-append_some [] [] [] h = refl
starts_with-append_some [] (y ∷ ys) [] h = refl
starts_with-append_some (x ∷ xs) ys [] h = refl
starts_with-append_some [] ys (p ∷ ps) h = absurd (ground arith)
starts_with-append_some (x ∷ xs) ys (p ∷ ps) h = ground (arith, starts_with-append_some xs ys ps)

-- A prefix that the text gains with its extension is longer than the text.
starts_with-append_none :
    (xs ys p : Bytes)
    → starts_with xs p ≡ false
    → starts_with (xs ++ ys) p ≡ true
    → length xs < length p
unfolding starts_with
starts_with-append_none [] ys [] h e = absurd (ground arith)
starts_with-append_none (x ∷ xs) ys [] h e = absurd (ground arith)
starts_with-append_none [] ys (p ∷ ps) h e = omega arith
starts_with-append_none (x ∷ xs) ys (p ∷ ps) h e = ground (arith, starts_with-append_none xs ys ps)

starts_with-length : (xs p : Bytes) → starts_with xs p ≡ true → length p ≤ length xs
unfolding starts_with
starts_with-length xs [] h = omega arith
starts_with-length [] (p ∷ ps) h = absurd (ground arith)
starts_with-length (x ∷ xs) (p ∷ ps) h = ground (arith, starts_with-length xs ps)

some-injective : {a b : ℕ} → some a ≡ some b → a ≡ b
some-injective e = ground arith

-- Where a terminator is found: at the start, or in the rest.
position-cons :
    (x : ℕ) (xs : Bytes) (n : ℕ)
    → position (x ∷ xs) ≡ some n
    → ((starts_with (x ∷ xs) terminator ≡ true) × (n ≡ 0))
      ⊎ ((m : ℕ) × (starts_with (x ∷ xs) terminator ≡ false) × (position xs ≡ some m) × (n ≡ suc m))
unfolding position
position-cons x xs n h = elim (Bool-cases (starts_with (x ∷ xs) terminator)) [
  | inl here ↦ inl (here, ground arith)
  | inr later ↦ elim (Option-cases (position xs)) [
    | inl missing ↦ absurd (ground arith)
    | inr (m, found) ↦ inr (m, later, found, ground arith)
  ]
]

pub position-here :
    (x : ℕ) (xs : Bytes) → starts_with (x ∷ xs) terminator ≡ true → position (x ∷ xs) ≡ some 0
unfolding position
position-here x xs h = ground arith

pub position-later :
    (x : ℕ) (xs : Bytes) (n : ℕ)
    → starts_with (x ∷ xs) terminator ≡ false
    → position xs ≡ some n
    → position (x ∷ xs) ≡ some (suc n)
unfolding position
position-later x xs n h e = ground arith

position-nil : (n : ℕ) → position [] ≡ some n → ⊥
unfolding position
position-nil n h = ground arith

position-length : (xs : Bytes) (n : ℕ) → position xs ≡ some n → n + 4 ≤ length xs
position-length [] n h = absurd (position-nil n h)
position-length (x ∷ xs) n h = elim (position-cons x xs n h) [
  | inl (here, start) ↦ omega (arith, start, starts_with-length (x ∷ xs) terminator here)
  | inr (m, later, found, after) ↦ omega (arith, after, position-length xs m found)
]

pub position-append_some :
    (xs ys : Bytes) (n : ℕ) → position xs ≡ some n → position (xs ++ ys) ≡ some n
position-append_some [] ys n h = absurd (position-nil n h)
position-append_some (x ∷ xs) ys n h = elim (position-cons x xs n h) [
  | inl (here, start) ↦
      position-here x (xs ++ ys) (starts_with-append_some (x ∷ xs) ys terminator here)
      ∙ ap some (sym start)
  | inr (m, later, found, after) ↦ elim (Bool-cases (starts_with (x ∷ (xs ++ ys)) terminator)) [
    | inl gained ↦ absurd (
        omega (
          arith,
          position-length xs m found,
          starts_with-append_none (x ∷ xs) ys terminator later gained,
        ))
    | inr lacking ↦
        position-later x (xs ++ ys) m lacking (position-append_some xs ys m found)
        ∙ ap some (sym after)
  ]
]

missing-cons :
    (x : ℕ) (xs : Bytes)
    → position (x ∷ xs) ≡ none
    → (starts_with (x ∷ xs) terminator ≡ false) × (position xs ≡ none)
unfolding position
missing-cons x xs h = elim (Bool-cases (starts_with (x ∷ xs) terminator)) [
  | inl here ↦ absurd (ground arith)
  | inr later ↦ elim (Option-cases (position xs)) [
    | inl missing ↦ (later, missing)
    | inr (m, found) ↦ absurd (ground arith)
  ]
]

pub position-append_none :
    (xs ys : Bytes) (n : ℕ) → position xs ≡ none → position (xs ++ ys) ≡ some n → length xs < n + 4
position-append_none [] ys n h e = omega arith
position-append_none (x ∷ xs) ys n h e = elim (position-cons x (xs ++ ys) n e) [
  | inl (here, start) ↦
      omega
        (arith, start, starts_with-append_none (x ∷ xs) ys terminator (missing-cons x xs h).0 here)
  | inr (m, later, found, after) ↦
      omega (arith, after, position-append_none xs ys m (missing-cons x xs h).1 found)
]

-- What the bytes so far decide stays decided when more arrive.
pub header_end-append :
    (xs ys : Bytes) (r : Result IoError ℕ) → header_end xs ≡ some r → header_end (xs ++ ys) ≡ some r
unfolding header_end
header_end-append xs ys r h = elim (Option-cases (position xs)) [
  | inr (n, found) ↦ ground (arith, position-append_some xs ys n found)
  | inl missing ↦ elim (Option-cases (position (xs ++ ys))) [
    | inl still ↦ ground (arith, length-append {0} xs ys)
    | inr (n, found) ↦ ground (arith, position-append_none xs ys n missing found)
  ]
]

pub header_end-length : (xs : Bytes) (end : ℕ) → header_end xs ≡ some (ok end) → end ≤ length xs
unfolding header_end
header_end-length xs end h = elim (Option-cases (position xs)) [
  | inl missing ↦ absurd (ground arith)
  | inr (n, found) ↦ ground (arith, position-length xs n found)
]

pub header_end-none : (xs : Bytes) → header_end xs ≡ none → length xs < 16384
unfolding header_end
header_end-none xs h = elim (Option-cases (position xs)) [
  | inl missing ↦ ground arith
  | inr (n, found) ↦ absurd (ground arith)
]
