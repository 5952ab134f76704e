-- ===== src/Policy/Path/Unescape.antt =====
-- What one turn of the loop of `canonicalize_path` reads and pushes, and what the escapes of a
-- path stand for.
use baffle.Prelude.{
  ℕ, ◌+◌, ◌*◌, ◌≡◌, ◌≢◌, inl, inr, true, false, some, [], ◌∷◌, Result, ok, arith, Option-cases,
  Result-cases,
}
use native.Mathlib.Decide.{ℕ_discrete}
use baffle.Prelude.Text.{Bytes}
use baffle.Policy.Path.{
  PathError, canonical_bytes, canonical_plain, canonical_escape, hex_value, push_escape,
  is_path_character, is_ambiguous,
}

-- An escape that the loop accepts.
pub record Escape (h l : ℕ) (rest : Result PathError Bytes) (c : Bytes) : Type 0 where
  pub high : ℕ
  pub low : ℕ
  pub out : Bytes
  pub high_eq : hex_value h ≡ some high
  pub low_eq : hex_value l ≡ some low
  pub plain : is_ambiguous (high * 16 + low) ≡ false
  pub rest_eq : rest ≡ ok out
  pub pushed : c ≡ push_escape (high * 16 + low) h l out

pub canonical_escape-Escape :
    (h l : ℕ) (rest : Result PathError Bytes) {c : Bytes}
    → canonical_escape h l rest ≡ ok c
    → Escape h l rest c
unfolding canonical_escape
canonical_escape-Escape h l rest e = elim (Option-cases (hex_value h)) [
  | inl bad ↦ absurd (ground arith)
  | inr (high, eh) ↦ elim (Option-cases (hex_value l)) [
    | inl bad ↦ absurd (ground arith)
    | inr (low, el) ↦ elim (Result-cases rest) [
      | inr (bad, er) ↦ absurd (ground arith)
      | inl (out, er) ↦ record {
        high = high;
        low = low;
        out = out;
        high_eq = eh;
        low_eq = el;
        plain = ground arith;
        rest_eq = er;
        pushed = ground arith;
      }
    ]
  ]
]

pub canonical_plain-inv :
    (byte : ℕ) (rest : Result PathError Bytes) {c : Bytes}
    → canonical_plain byte rest ≡ ok c
    → (is_path_character byte ≡ true) × ((out : Bytes) × (rest ≡ ok out) × (c ≡ byte ∷ out))
unfolding canonical_plain
canonical_plain-inv byte rest e = elim (Result-cases rest) [
  | inr (bad, er) ↦ absurd (ground arith)
  | inl (out, er) ↦ (ground arith, (out, er, ground arith))
]

-- At a byte that opens no escape the loop takes it alone.
pub canonical_bytes-plain :
    (byte : ℕ) (rest : Bytes)
    → byte ≢ b'%'
    → canonical_bytes (byte ∷ rest) ≡ canonical_plain byte (canonical_bytes rest)
unfolding canonical_bytes
canonical_bytes-plain byte [] h = ground arith
canonical_bytes-plain byte (h ∷ []) p = ground arith
canonical_bytes-plain byte (h ∷ l ∷ rest) p = ground arith

-- A rule for induction along the loop: a predicate on the text read and the text pushed that holds
-- at the end and is kept by both turns holds of each accepted path and its canonical form.
module _ (P : Bytes → Bytes → Type 0) (end : P [] [])
    (plain : (byte : ℕ) (rest out : Bytes)
      → is_path_character byte ≡ true
      → P rest out
      → P (byte ∷ rest) (byte ∷ out))
    (escape : (h l high low : ℕ) (rest out : Bytes)
      → hex_value h ≡ some high
      → hex_value l ≡ some low
      → is_ambiguous (high * 16 + low) ≡ false
      → P rest out
      → P (b'%' ∷ h ∷ l ∷ rest) (push_escape (high * 16 + low) h l out)) where
  plain_turn :
      (byte : ℕ) (rest c : Bytes)
      → byte ≢ b'%'
      → ((out : Bytes) → canonical_bytes rest ≡ ok out → P rest out)
      → canonical_bytes (byte ∷ rest) ≡ ok c
      → P (byte ∷ rest) c
  plain_turn byte rest c h ih e =
      let turn : canonical_plain byte (canonical_bytes rest) ≡ ok c =
        rw (canonical_bytes-plain byte rest h) at e in
      let (good, (out, er, ec)) = canonical_plain-inv byte (canonical_bytes rest) {c = c} turn in
      rw ec (plain byte rest out good (ih out er))

  escape_turn :
      (h l : ℕ) (rest c : Bytes)
      → ((out : Bytes) → canonical_bytes rest ≡ ok out → P rest out)
      → canonical_bytes (b'%' ∷ h ∷ l ∷ rest) ≡ ok c
      → P (b'%' ∷ h ∷ l ∷ rest) c
  unfolding canonical_bytes
  escape_turn h l rest c ih e =
      let v = canonical_escape-Escape h l (canonical_bytes rest) {c = c} e in
      rw v.pushed
        (escape h l v.high v.low rest v.out v.high_eq v.low_eq v.plain (ih v.out v.rest_eq))

  pub canonical_bytes-induction : (p c : Bytes) → canonical_bytes p ≡ ok c → P p c
  canonical_bytes-induction [] c e = rw (← end_empty) end
    where
      end_empty : [] ≡ c
      end_empty = unfold canonical_bytes in ground arith
  canonical_bytes-induction (byte ∷ []) c e = elim (ℕ_discrete byte b'%') [
    | yes p ↦ absurd (unfold canonical_bytes in ground arith)
    | no n ↦ plain_turn byte [] c n (canonical_bytes-induction []) e
  ]
  canonical_bytes-induction (byte ∷ h ∷ []) c e = elim (ℕ_discrete byte b'%') [
    | yes p ↦ absurd (unfold canonical_bytes in ground arith)
    | no n ↦ plain_turn byte (h ∷ []) c n (canonical_bytes-induction (h ∷ [])) e
  ]
  canonical_bytes-induction (byte ∷ h ∷ l ∷ rest) c e = elim (ℕ_discrete byte b'%') [
    | yes p ↦ rw p (escape_turn h l rest c (canonical_bytes-induction rest) (rw p at e))
    | no n ↦ plain_turn byte (h ∷ l ∷ rest) c n (canonical_bytes-induction (h ∷ l ∷ rest)) e
  ]
