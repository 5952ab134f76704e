-- ===== src/Policy/Path/Shadow.antt =====
-- What a canonical path stands for: the text that a server reads when it decodes the escapes.
use native.Mathlib.Decide.{ℕ_discrete}
use baffle.Prelude.{
  ℕ, zero, suc, ◌+◌, ◌*◌, ◌≡◌, ◌≢◌, refl, Option, some, List, [], ◌∷◌, ◌==◌, if◌then◌else◌, arith,
}
use baffle.Prelude.Text.{
  Bytes, bytes, eq, any, starts_with, contains_text, split, extend_first, starts_with-nil,
}
use baffle.Policy.Path.{hex_value, is_dot_segment}

-- The byte that an escape `%hl` stands for; text that is no escape stands for itself.
abbrev pub decode_pair : Option ℕ → Option ℕ → ℕ → ℕ → Bytes → Bytes → Bytes
decode_pair (some high) (some low) h l next skip = (high * 16 + low) ∷ skip
decode_pair _ _ h l next skip = b'%' ∷ next

-- Percent-decoding (RFC 3986, 2.1), independent of the program.
unfoldable pub decode : Bytes → Bytes
decode [] = []
decode (byte ∷ []) = byte ∷ []
decode (byte ∷ h ∷ []) = byte ∷ h ∷ []
decode (byte ∷ h ∷ l ∷ rest) =
    let next = decode (h ∷ l ∷ rest) in
    let skip = decode rest in
    if byte == b'%' then decode_pair (hex_value h) (hex_value l) h l next skip else byte ∷ next

pub decode-plain :
    (byte : ℕ) (rest : Bytes) → byte ≢ b'%' → decode (byte ∷ rest) ≡ byte ∷ decode rest
unfolding decode
decode-plain byte [] n = refl
decode-plain byte (h ∷ []) n = refl
decode-plain byte (h ∷ l ∷ rest) n = ground arith

pub decode-escape :
    (h l high low : ℕ) (rest : Bytes)
    → hex_value h ≡ some high
    → hex_value l ≡ some low
    → decode (b'%' ∷ h ∷ l ∷ rest) ≡ (high * 16 + low) ∷ decode rest
unfolding decode
decode-escape h l high low rest eh el = rw (eh, el)

-- `Shadow c d`: the text `d` is `c` with its escapes decoded, and no escape of `c` stands for one
-- of the bytes that shape a path.
pub data Shadow : Bytes → Bytes → Type 0 where
  end : Shadow [] []
  plain : (b : ℕ) {c d : Bytes} → Shadow c d → Shadow (b ∷ c) (b ∷ d)
  escape :
      (h l b : ℕ) {c d : Bytes}
      → h ≢ b'/'
      → l ≢ b'/'
      → b ≢ b'/'
      → b ≢ b'.'
      → Shadow c d
      → Shadow (b'%' ∷ h ∷ l ∷ c) (b ∷ d)

starts_with_slash :
    {c d : Bytes} → Shadow c d → starts_with d (bytes "/") ≡ starts_with c (bytes "/")
unfolding starts_with
starts_with_slash end = refl
starts_with_slash (plain b {c} {d} s) = ground (arith, starts_with-nil c, starts_with-nil d)
starts_with_slash (escape h l b nh nl nb nd s) = ground arith

-- A decoded text has `//` exactly where the canonical path has it.
pub contains-slashes :
    {c d : Bytes} → Shadow c d → contains_text d (bytes "//") ≡ contains_text c (bytes "//")
unfolding contains_text starts_with
contains-slashes end = refl
contains-slashes (plain b s) = ground (arith, starts_with_slash s, contains-slashes s)
contains-slashes (escape h l b nh nl nb nd s) = ground (arith, contains-slashes s)

abbrev dots : ℕ → Bytes
dots zero = []
dots (suc n) = b'.' ∷ dots n

eq-dots : (n : ℕ) {x y : Bytes} → Shadow x y → eq y (dots n) ≡ eq x (dots n)
unfolding eq
eq-dots zero end = refl
eq-dots zero (plain b s) = refl
eq-dots zero (escape h l b nh nl nb nd s) = refl
eq-dots (suc n) end = refl
eq-dots (suc n) (plain b s) = ground (arith, eq-dots n s)
eq-dots (suc n) (escape h l b nh nl nb nd s) = ground arith

is_dot_segment-Shadow : {x y : Bytes} → Shadow x y → is_dot_segment y ≡ is_dot_segment x
unfolding is_dot_segment
is_dot_segment-Shadow s = rw (eq-dots 1 s, eq-dots 2 s)

abbrev Shadows : List Bytes → List Bytes → Type 0
Shadows [] [] = Unit {0}
Shadows (x ∷ xs) (y ∷ ys) = Shadow x y × Shadows xs ys
Shadows _ _ = ⊥

extend-plain :
    (b : ℕ) (xs ys : List Bytes) → Shadows xs ys → Shadows (extend_first b xs) (extend_first b ys)
extend-plain b [] [] h = (plain b end, tt)
extend-plain b (x ∷ xs) (y ∷ ys) h = (plain b h.0, h.1)
extend-plain b [] (y ∷ ys) h = absurd h
extend-plain b (x ∷ xs) [] h = absurd h

extend-escape :
    (h l b : ℕ) (xs ys : List Bytes)
    → h ≢ b'/'
    → l ≢ b'/'
    → b ≢ b'/'
    → b ≢ b'.'
    → Shadows xs ys
    → Shadows (extend_first b'%' (extend_first h (extend_first l xs))) (extend_first b ys)
extend-escape h l b [] [] nh nl nb nd s = (escape h l b nh nl nb nd end, tt)
extend-escape h l b (x ∷ xs) (y ∷ ys) nh nl nb nd s = (escape h l b nh nl nb nd s.0, s.1)
extend-escape h l b [] (y ∷ ys) nh nl nb nd s = absurd s
extend-escape h l b (x ∷ xs) [] nh nl nb nd s = absurd s

split_at : (b : ℕ) (rest : Bytes) → b ≡ b'/' → split b'/' (b ∷ rest) ≡ [] ∷ split b'/' rest
unfolding split
split_at b rest e = ground arith

split_past :
    (b : ℕ) (rest : Bytes) → b ≢ b'/' → split b'/' (b ∷ rest) ≡ extend_first b (split b'/' rest)
unfolding split
split_past b rest n = ground arith

split-Shadows : {c d : Bytes} → Shadow c d → Shadows (split b'/' c) (split b'/' d)
split-Shadows end = unfold split in (end, tt)
split-Shadows (plain b {c} {d} s) = elim (ℕ_discrete b b'/') [
  | yes e ↦ rw (split_at b c e, split_at b d e) (end, split-Shadows s)
  | no n ↦
      rw (split_past b c n, split_past b d n)
        (extend-plain b (split b'/' c) (split b'/' d) (split-Shadows s))
]
split-Shadows (escape h l b {c} {d} nh nl nb nd s) =
    rw
      (
        split_past b'%' (h ∷ l ∷ c) (omega arith),
        split_past h (l ∷ c) nh,
        split_past l c nl,
        split_past b d nb,
      )
      (extend-escape h l b (split b'/' c) (split b'/' d) nh nl nb nd (split-Shadows s))

any-Shadows : (xs ys : List Bytes) → Shadows xs ys → any is_dot_segment ys ≡ any is_dot_segment xs
unfolding any
any-Shadows [] [] h = refl
any-Shadows (x ∷ xs) (y ∷ ys) h = rw (is_dot_segment-Shadow h.0, any-Shadows xs ys h.1)
any-Shadows [] (y ∷ ys) h = absurd h
any-Shadows (x ∷ xs) [] h = absurd h

-- A decoded text has a dot segment exactly if the canonical path has one.
pub dot_segments-Shadow :
    {c d : Bytes}
    → Shadow c d
    → any is_dot_segment (split b'/' d) ≡ any is_dot_segment (split b'/' c)
dot_segments-Shadow {c} {d} s = any-Shadows (split b'/' c) (split b'/' d) (split-Shadows s)
