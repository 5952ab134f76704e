-- ===== src/Policy/Pattern/Fixed.antt =====
-- How `validate_path` (crates/baffle-client/src/policy.rs) treats its own results.
use mathlib.Core.List.{append_assoc}
use baffle.Prelude.{
  ℕ, ◌+◌, ◌*◌, ◌≡◌, refl, sym, ap, ◌∙◌, ◌||◌, not, Bool, true, false, some, [], ◌∷◌, ◌++◌, ok,
  arith, Bool-cases, Option-cases, inl, inr, ◌==◌, if◌then◌else◌, some-injective, bind-eq-ok,
  fail_if-eq-ok, ok-injective, subst,
}
use baffle.Prelude.Text.{
  Bytes, bytes, any, any-append, contains, last, is_empty, starts_with, strip_suffix,
  strip_suffix-append, strip_suffix-split, upper_byte,
}
use baffle.Policy.Path.{
  canonicalize_path, canonical_bytes, push_escape, hex_value, is_unreserved, has_forbidden,
  not_absolute, misplaced_recursion,
}
use baffle.Policy.Path.Unescape.{canonical_bytes-induction}
use baffle.Policy.Path.Canonical.{canonicalize_path-Canonicalized, canonicalize_path_idempotent}
use baffle.Policy.Pattern.{recursive_parts, validate_path}

-- No star is written that was not there.

starless_unreserved : (d : ℕ) → is_unreserved d ≡ true → (d == b'*') ≡ false
unfolding is_unreserved
starless_unreserved d h = ground arith

starless_hex : (h : ℕ) {v : ℕ} → hex_value h ≡ some v → (upper_byte h == b'*') ≡ false
unfolding hex_value
starless_hex h e = ground arith

starless_escape :
    (d h l high low : ℕ) (out : Bytes)
    → hex_value h ≡ some high
    → hex_value l ≡ some low
    → contains out b'*' ≡ false
    → contains (push_escape d h l out) b'*' ≡ false
unfolding push_escape any
starless_escape d h l high low out eh el ih = elim (Bool-cases (is_unreserved d)) [
  | inl good ↦ rw good (ground (arith, starless_unreserved d good))
  | inr bad ↦ rw bad (ground (arith, starless_hex h eh, starless_hex l el))
]

starless_canonical :
    (p c : Bytes) → canonical_bytes p ≡ ok c → contains p b'*' ≡ false → contains c b'*' ≡ false
starless_canonical =
    canonical_bytes-induction (λ p c. contains p b'*' ≡ false → contains c b'*' ≡ false) (λ h. h)
      (λ byte rest out good ih. unfold any in λ k. ground arith)
      (λ h l high low rest out eh el plain ih.
        unfold any in
        λ k. starless_escape (high * 16 + low) h l high low out eh el (ih (ground arith)))

-- A final slash stays.

last_cons :
    (c : ℕ) (xs ys : Bytes)
    → is_empty xs ≡ is_empty ys
    → (last xs ≡ some 47 → last ys ≡ some 47)
    → last (c ∷ xs) ≡ some 47
    → last (c ∷ ys) ≡ some 47
last_cons c [] [] same ih h = h
last_cons c [] (y ∷ ys) same ih h = absurd (ground arith)
last_cons c (x ∷ xs) [] same ih h = absurd (ground arith)
last_cons c (x ∷ xs) (y ∷ ys) same ih h = ih h

slash_hex : (l : ℕ) {v : ℕ} → hex_value l ≡ some v → some l ≡ some 47 → ⊥
unfolding hex_value
slash_hex l e h = ground arith

abbrev Ending : Bytes → Bytes → Type 0
Ending p c = (is_empty p ≡ is_empty c) × (last p ≡ some 47 → last c ≡ some 47)

escape-Ending :
    (d h l low : ℕ) (rest out : Bytes)
    → hex_value l ≡ some low
    → Ending rest out
    → Ending (b'%' ∷ h ∷ l ∷ rest) (push_escape d h l out)
unfolding push_escape
escape-Ending d h l low [] [] el ih = elim (Bool-cases (is_unreserved d)) [
  | inl good ↦ rw good (refl, λ k. absurd (slash_hex l el k))
  | inr bad ↦ rw bad (refl, λ k. absurd (slash_hex l el k))
]
escape-Ending d h l low [] (y ∷ out) el ih = absurd (ground (arith, ih.0))
escape-Ending d h l low (x ∷ rest) [] el ih = absurd (ground (arith, ih.0))
escape-Ending d h l low (x ∷ rest) (y ∷ out) el ih = elim (Bool-cases (is_unreserved d)) [
  | inl good ↦ rw good (refl, ih.1)
  | inr bad ↦ rw bad (refl, ih.1)
]

canonical-Ending : (p c : Bytes) → canonical_bytes p ≡ ok c → Ending p c
canonical-Ending =
    canonical_bytes-induction Ending (refl, λ h. h)
      (λ byte rest out good ih. (refl, last_cons byte rest out ih.0 ih.1))
      (λ h l high low rest out eh el plain ih.
        escape-Ending (high * 16 + low) h l low rest out el ih)

last-append : (p : Bytes) → last (p ++ bytes "/") ≡ some 47
last-append [] = refl
last-append (c ∷ []) = refl
last-append (c ∷ d ∷ p) = last-append (d ∷ p)

last-split : (c : Bytes) → last c ≡ some 47 → (i : Bytes) × (c ≡ i ++ bytes "/")
last-split [] h = absurd (ground arith)
last-split (c ∷ []) h = ([], ap (λ b. b ∷ []) (some-injective h))
last-split (c ∷ d ∷ rest) h = let (i, e) = last-split (d ∷ rest) h in (c ∷ i, ap (◌∷◌ c) e)

-- The parts of a pattern.

recursive_last :
    (raw : Bytes) → (recursive_parts raw).1 ≡ true → last (recursive_parts raw).0 ≡ some 47
unfolding recursive_parts
recursive_last raw h = elim (Option-cases (strip_suffix raw (bytes "/**"))) [
  | inl whole ↦ absurd (ground arith)
  | inr (prefix, found) ↦ elim (Bool-cases (is_empty prefix)) [
    | inl bare ↦ rw (recursive_parts, found, bare) refl
    | inr more ↦ rw (recursive_parts, found, more) (last-append prefix)
  ]
]

slash_lem : (i : Bytes) → (if is_empty i then bytes "/" else i ++ bytes "/") ≡ i ++ bytes "/"
slash_lem [] = refl
slash_lem (c ∷ i) = refl

recursive_parts-recursive :
    (c : Bytes) → last c ≡ some 47 → recursive_parts (c ++ bytes "**") ≡ (c, true)
unfolding recursive_parts
recursive_parts-recursive c h =
    let (i, e) = last-split c h in
    let whole : c ++ bytes "**" ≡ i ++ bytes "/**" =
      ap (λ t. t ++ bytes "**") e ∙ append_assoc i (bytes "/") (bytes "**") in
    rw (whole, recursive_parts, strip_suffix-append i (bytes "/**"))
      (ap (λ path. (path, true)) (slash_lem i ∙ sym e))

star_there : contains (bytes "/**") b'*' ≡ true
unfolding any
star_there = refl

recursive_parts-exact : (c : Bytes) → contains c b'*' ≡ false → recursive_parts c ≡ (c, false)
unfolding recursive_parts
recursive_parts-exact c h = elim (Option-cases (strip_suffix c (bytes "/**"))) [
  | inl whole ↦ rw (recursive_parts, whole) refl
  | inr (prefix, found) ↦
      let split_off = strip_suffix-split c (bytes "/**") found in
      absurd (
        ground (
          arith,
          any-append (λ b. b == b'*') prefix (bytes "/**"),
          ap (λ t. contains t b'*') split_off,
          star_there,
        ))
]

-- The checks and the form of a pattern, from a canonical path in front of its stars.

allowed_recursive :
    (c : Bytes)
    → starts_with c (bytes "/") ≡ true
    → has_forbidden c ≡ false
    → (not (starts_with (c ++ bytes "**") (bytes "/")) || has_forbidden (c ++ bytes "**")) ≡ false
unfolding starts_with has_forbidden any
allowed_recursive [] h f = absurd (ground arith)
allowed_recursive (b ∷ c) h f =
    ground (arith, any-append (λ c. c == b'?' || c == b'#' || c == 92) c (bytes "**"))

allowed_exact :
    (c : Bytes)
    → starts_with c (bytes "/") ≡ true
    → has_forbidden c ≡ false
    → (not (starts_with c (bytes "/")) || has_forbidden c) ≡ false
allowed_exact c h f = rw (h, f) refl

abbrev marked : Bool → Bytes → Bytes
marked recursive c = if recursive then c ++ bytes "**" else c

marked_fixed :
    (recursive : Bool) (q c : Bytes)
    → canonicalize_path q ≡ ok c
    → contains q b'*' ≡ false
    → (recursive ≡ true → last q ≡ some 47)
    → validate_path (marked recursive c) ≡ ok (marked recursive c)
unfolding validate_path
marked_fixed true q c e bare slash =
    let again = canonicalize_path_idempotent q c e in
    let v = canonicalize_path-Canonicalized c c again in
    let loop = (canonicalize_path-Canonicalized q c e).loop in
    rw
      (
        validate_path,
        allowed_recursive c v.absolute v.allowed,
        recursive_parts-recursive c ((canonical-Ending q c loop).1 (slash refl)),
        starless_canonical q c loop bare,
        again,
      )
      refl
marked_fixed false q c e bare slash =
    let again = canonicalize_path_idempotent q c e in
    let v = canonicalize_path-Canonicalized c c again in
    let starless = starless_canonical q c (canonicalize_path-Canonicalized q c e).loop bare in
    rw
      (
        validate_path,
        allowed_exact c v.absolute v.allowed,
        recursive_parts-exact c starless,
        starless,
        again,
      )
      refl

-- An accepted pattern, as it is kept, is accepted and kept as it is.
pub validate_path_idempotent : (raw p : Bytes) → validate_path raw ≡ ok p → validate_path p ≡ ok p
unfolding validate_path
validate_path_idempotent raw p e =
    let (allowed, e1) =
      fail_if-eq-ok (not (starts_with raw (bytes "/")) || has_forbidden raw) not_absolute _ e in
    let (bare, e2) =
      fail_if-eq-ok (contains (recursive_parts raw).0 b'*') misplaced_recursion _ e1 in
    let (c, ec, e3) = bind-eq-ok (canonicalize_path (recursive_parts raw).0) _ e2 in
    subst (λ t. validate_path t ≡ ok t) (ok-injective e3)
      (marked_fixed (recursive_parts raw).1 (recursive_parts raw).0 c ec bare (recursive_last raw))
