-- ===== src/Policy/Path/Safety.antt =====
-- What a server can read in a canonical path.
use baffle.Prelude.{
  ℕ, ◌+◌, ◌*◌, ◌≡◌, ◌≢◌, refl, ap, inl, inr, false, some, ◌∷◌, ok, arith, Bool-cases, true,
}
use baffle.Prelude.Text.{Bytes, bytes, any, contains_text, split, upper_byte}
use baffle.Policy.Path.{
  canonicalize_path, canonical_bytes, hex_value, push_escape, is_unreserved, is_path_character,
  is_ambiguous, is_dot_segment,
}
use baffle.Policy.Path.Unescape.{canonical_bytes-induction}
use baffle.Policy.Path.Canonical.{
  hex_value-upper, path_character-ne, unreserved-path_character, canonicalize_path-Canonicalized,
}
use baffle.Policy.Path.Shadow.{
  decode, decode-plain, decode-escape, Shadow, end, plain, escape, contains-slashes,
  dot_segments-Shadow,
}

hex_value-ne_slash : (h : ℕ) {v : ℕ} → hex_value h ≡ some v → upper_byte h ≢ b'/'
unfolding hex_value
hex_value-ne_slash h e = ground arith

reserved-ne : (b : ℕ) → is_unreserved b ≡ false → is_ambiguous b ≡ false → (b ≢ b'/') × (b ≢ b'.')
unfolding is_unreserved is_ambiguous
reserved-ne b u a = (ground arith, ground arith)

-- The canonical form stands for the same text as the path.
abbrev SameMeaning : Bytes → Bytes → Type 0
SameMeaning p c = (decode c ≡ decode p) × Shadow c (decode c)

plain-SameMeaning :
    (byte : ℕ) (rest out : Bytes)
    → is_path_character byte ≡ true
    → SameMeaning rest out
    → SameMeaning (byte ∷ rest) (byte ∷ out)
plain-SameMeaning byte rest out good ih =
    let n = path_character-ne byte good in
    rw (decode-plain byte rest n, decode-plain byte out n) (ap (◌∷◌ byte) ih.0, plain byte ih.1)

escape-SameMeaning :
    (h l high low : ℕ) (rest out : Bytes)
    → hex_value h ≡ some high
    → hex_value l ≡ some low
    → is_ambiguous (high * 16 + low) ≡ false
    → SameMeaning rest out
    → SameMeaning (b'%' ∷ h ∷ l ∷ rest) (push_escape (high * 16 + low) h l out)
unfolding push_escape
escape-SameMeaning h l high low rest out eh el clear ih =
    elim (Bool-cases (is_unreserved (high * 16 + low))) [
      | inl good ↦
          rw
            (
              good,
              decode-escape h l high low rest eh el,
              decode-plain (high * 16 + low) out (unreserved-path_character _ good).1,
            )
            (ap (◌∷◌ (high * 16 + low)) ih.0, plain (high * 16 + low) ih.1)
      | inr bad ↦
          let (ns, nd) = reserved-ne (high * 16 + low) bad clear in
          rw
            (
              bad,
              decode-escape h l high low rest eh el,
              decode-escape (upper_byte h) (upper_byte l) high low out (hex_value-upper h eh)
                  (hex_value-upper l el),
            )
            (
              ap (◌∷◌ (high * 16 + low)) ih.0,
              escape (upper_byte h) (upper_byte l) (high * 16 + low) (hex_value-ne_slash h eh)
                  (hex_value-ne_slash l el) ns nd ih.1,
            )
    ]

canonical_bytes-SameMeaning : (p c : Bytes) → canonical_bytes p ≡ ok c → SameMeaning p c
canonical_bytes-SameMeaning =
    canonical_bytes-induction SameMeaning (unfold decode in (refl, end)) plain-SameMeaning
      escape-SameMeaning

-- The canonical form of an accepted path decodes to the same text as the path itself.
pub decode-canonicalize_path : (p c : Bytes) → canonicalize_path p ≡ ok c → decode c ≡ decode p
decode-canonicalize_path p c e =
    (canonical_bytes-SameMeaning p c (canonicalize_path-Canonicalized p c e).loop).0

-- The text that an accepted path decodes to has no dot segment and no repeated separator, whatever
-- escapes the path was written with.
pub decode_safe :
    (p c : Bytes)
    → canonicalize_path p ≡ ok c
    → (any is_dot_segment (split b'/' (decode p)) ≡ false)
      × (contains_text (decode p) (bytes "//") ≡ false)
decode_safe p c e =
    let v = canonicalize_path-Canonicalized p c e in
    let (same, shadow) = canonical_bytes-SameMeaning p c v.loop in
    rw (← same)
      (rw (dot_segments-Shadow shadow) v.no_dots, rw (contains-slashes shadow) v.no_repeat)
