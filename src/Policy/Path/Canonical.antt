-- ===== src/Policy/Path/Canonical.antt =====
-- How `canonicalize_path` treats its own results.
use baffle.Prelude.{
  ℕ, ◌+◌, ◌*◌, ◌≡◌, ◌≢◌, refl, inl, inr, true, false, some, [], ◌∷◌, ok, arith, Bool-cases,
  Result-cases, ap,
}
use baffle.Prelude.Text.{Bytes, bytes, upper_byte, any, starts_with, contains_text, split}
use baffle.Policy.Path.{
  canonicalize_path, canonical_bytes, canonical_plain, canonical_escape, hex_value, push_escape,
  is_unreserved, is_path_character, is_path_punctuation, is_ambiguous, is_dot_segment,
  has_forbidden,
}
use baffle.Policy.Path.Unescape.{canonical_bytes-plain, canonical_bytes-induction}

pub hex_value-upper : (h : ℕ) {v : ℕ} → hex_value h ≡ some v → hex_value (upper_byte h) ≡ some v
unfolding hex_value
hex_value-upper h e = ground arith

upper-upper : (h : ℕ) → upper_byte (upper_byte h) ≡ upper_byte h
upper-upper h = ground arith

pub unreserved-path_character :
    (d : ℕ) → is_unreserved d ≡ true → (is_path_character d ≡ true) × (d ≢ b'%')
unfolding is_unreserved is_path_character is_path_punctuation any
unreserved-path_character d h = (ground arith, ground arith)

pub path_character-ne : (b : ℕ) → is_path_character b ≡ true → b ≢ b'%'
unfolding is_path_character is_path_punctuation any
path_character-ne b h = ground arith

plain_fixed :
    (byte : ℕ) (rest : Bytes)
    → is_path_character byte ≡ true
    → canonical_bytes rest ≡ ok rest
    → canonical_bytes (byte ∷ rest) ≡ ok (byte ∷ rest)
unfolding canonical_plain
plain_fixed byte rest h e =
    rw (canonical_bytes-plain byte rest (path_character-ne byte h), e, h) refl

escape_fixed :
    (h l high low : ℕ) (out : Bytes)
    → hex_value h ≡ some high
    → hex_value l ≡ some low
    → is_ambiguous (high * 16 + low) ≡ false
    → canonical_bytes out ≡ ok out
    → canonical_bytes (push_escape (high * 16 + low) h l out)
      ≡ ok (push_escape (high * 16 + low) h l out)
escape_fixed h l high low out eh el plain e = elim (Bool-cases (is_unreserved (high * 16 + low))) [
  | inl good ↦
      unfold push_escape in
      rw good (plain_fixed (high * 16 + low) out (unreserved-path_character _ good).0 e)
  | inr bad ↦
      unfold push_escape canonical_bytes canonical_escape in
      rw (
        bad,
        hex_value-upper h eh,
        hex_value-upper l el,
        plain,
        e,
        bad,
        upper-upper h,
        upper-upper l,
      )
]

canonical_bytes_fixed : (p c : Bytes) → canonical_bytes p ≡ ok c → canonical_bytes c ≡ ok c
canonical_bytes_fixed =
    canonical_bytes-induction (λ p c. canonical_bytes c ≡ ok c) (unfold canonical_bytes in refl)
      (λ byte rest out good ih. plain_fixed byte out good ih)
      (λ h l high low rest out eh el plain ih. escape_fixed h l high low out eh el plain ih)

has_forbidden_plain :
    (b : ℕ) (out : Bytes)
    → is_path_character b ≡ true
    → has_forbidden out ≡ false
    → has_forbidden (b ∷ out) ≡ false
unfolding has_forbidden is_path_character is_path_punctuation any
has_forbidden_plain b out h ih = ground arith

hex_value-ne_forbidden :
    (h : ℕ) {v : ℕ} → hex_value h ≡ some v → has_forbidden (upper_byte h ∷ []) ≡ false
unfolding hex_value has_forbidden any
hex_value-ne_forbidden h e = ground arith

escape-has_forbidden :
    (d h l high low : ℕ) (out : Bytes)
    → hex_value h ≡ some high
    → hex_value l ≡ some low
    → has_forbidden out ≡ false
    → has_forbidden (push_escape d h l out) ≡ false
unfolding push_escape has_forbidden any
escape-has_forbidden d h l high low out eh el ih = elim (Bool-cases (is_unreserved d)) [
  | inl good ↦ rw good (has_forbidden_plain d out (unreserved-path_character d good).0 ih)
  | inr bad ↦ rw bad (ground (arith, hex_value-ne_forbidden h eh, hex_value-ne_forbidden l el))
]

pub canonical_bytes-has_forbidden :
    (p c : Bytes) → canonical_bytes p ≡ ok c → has_forbidden c ≡ false
canonical_bytes-has_forbidden =
    canonical_bytes-induction (λ p c. has_forbidden c ≡ false) (unfold has_forbidden any in refl)
      (λ byte rest out good ih. has_forbidden_plain byte out good ih)
      (λ h l high low rest out eh el plain ih.
        escape-has_forbidden (high * 16 + low) h l high low out eh el ih)

canonical_bytes-starts_with :
    (p c : Bytes)
    → canonical_bytes p ≡ ok c
    → starts_with p (bytes "/") ≡ true
    → starts_with c (bytes "/") ≡ true
canonical_bytes-starts_with =
    canonical_bytes-induction
      (λ p c. starts_with p (bytes "/") ≡ true → starts_with c (bytes "/") ≡ true) (λ h. h)
      (λ byte rest out good ih. unfold starts_with in λ k. ground arith)
      (λ h l high low rest out eh el plain ih k. absurd (unfold starts_with in ground arith))

-- What the guards and the loop of an accepted path say.
pub record Canonicalized (p c : Bytes) : Type 0 where
  pub absolute : starts_with p (bytes "/") ≡ true
  pub allowed : has_forbidden p ≡ false
  pub loop : canonical_bytes p ≡ ok c
  pub no_repeat : contains_text c (bytes "//") ≡ false
  pub no_dots : any is_dot_segment (split b'/' c) ≡ false

pub canonicalize_path-Canonicalized : (p c : Bytes) → canonicalize_path p ≡ ok c → Canonicalized p c
canonicalize_path-Canonicalized p c e = elim (Result-cases (canonical_bytes p)) [
  | inr (bad, er) ↦ absurd (unfold canonicalize_path in ground arith)
  | inl (out, er) ↦
      let same : out ≡ c = unfold canonicalize_path in ground arith in
      record {
        absolute = unfold canonicalize_path in ground arith;
        allowed = unfold canonicalize_path in ground arith;
        loop = rw er (ap ok same);
        no_repeat = unfold canonicalize_path in ground arith;
        no_dots = unfold canonicalize_path in ground arith;
      }
]

pub Canonicalized-canonicalize_path : (p c : Bytes) → Canonicalized p c → canonicalize_path p ≡ ok c
unfolding canonicalize_path
Canonicalized-canonicalize_path p c v = rw (v.absolute, v.allowed, v.loop, v.no_repeat, v.no_dots)

-- Canonicalisation is idempotent: the canonical form of an accepted path is accepted, and is its
-- own canonical form.
pub canonicalize_path_idempotent :
    (p c : Bytes) → canonicalize_path p ≡ ok c → canonicalize_path c ≡ ok c
canonicalize_path_idempotent p c e =
    let v = canonicalize_path-Canonicalized p c e in
    Canonicalized-canonicalize_path c c (record {
      absolute = canonical_bytes-starts_with p c v.loop v.absolute;
      allowed = canonical_bytes-has_forbidden p c v.loop;
      loop = canonical_bytes_fixed p c v.loop;
      no_repeat = v.no_repeat;
      no_dots = v.no_dots;
    })
