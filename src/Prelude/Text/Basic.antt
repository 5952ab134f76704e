-- ===== src/Prelude/Text/Basic.antt =====
-- Bytes, searching and splitting, as `str` and `[u8]` have them.
use Prim.Native.Nat.{ℕ, suc, ◌+◌, ◌-◌}
use Prim.Native.Char.{code}
use Prim.Native.String.{String}
use mathlib.Core.Bool.{Bool, true, false, ◌&&◌, ◌||◌}
use mathlib.Core.Option.{Option, none, some}
use mathlib.Core.List.{List, [], ◌∷◌, map}
use baffle.Prelude.Tests.{ltb, leb, ◌==◌, if◌then◌else◌}

abbrev pub Bytes : Type 0
Bytes = List ℕ

-- The bytes of an ASCII literal.
abbrev pub bytes : String → Bytes
bytes String.[] = []
bytes (String.◌∷◌ c s) = code c ∷ bytes s

-- `==` on strings and byte slices.
unfoldable pub eq : Bytes → Bytes → Bool
eq [] [] = true
eq (x ∷ xs) (y ∷ ys) = x == y && eq xs ys
eq _ _ = false

module _ {A : Type 0} where
  abbrev pub length : List A → ℕ
  length [] = 0
  length (x ∷ xs) = suc (length xs)

  unfoldable pub any : (A → Bool) → List A → Bool
  any p [] = false
  any p (x ∷ xs) = p x || any p xs

  unfoldable pub all : (A → Bool) → List A → Bool
  all p [] = true
  all p (x ∷ xs) = p x && all p xs

  abbrev pub is_empty : List A → Bool
  is_empty [] = true
  is_empty (x ∷ xs) = false

  abbrev pub first : List A → Option A
  first [] = none
  first (x ∷ xs) = some x

  abbrev pub last : List A → Option A
  last [] = none
  last (x ∷ []) = some x
  last (x ∷ y ∷ xs) = last (y ∷ xs)

-- `text.contains(byte)`, for an ASCII character.
abbrev pub contains : Bytes → ℕ → Bool
contains text c = any (λ b. b == c) text

-- `text.starts_with(prefix)`.
unfoldable pub starts_with : Bytes → Bytes → Bool
starts_with text [] = true
starts_with [] (p ∷ ps) = false
starts_with (t ∷ ts) (p ∷ ps) = t == p && starts_with ts ps

-- `text.contains(pattern)`.
unfoldable pub contains_text : Bytes → Bytes → Bool
contains_text [] pattern = is_empty pattern
contains_text (t ∷ ts) pattern = starts_with (t ∷ ts) pattern || contains_text ts pattern

-- The rest of a search, with the byte that it passed.
abbrev pub pass : ℕ → Option Bytes → Option Bytes
pass c none = none
pass c (some text) = some (c ∷ text)

-- `text.strip_suffix(suffix)`.
unfoldable pub strip_suffix : Bytes → Bytes → Option Bytes
strip_suffix [] suffix = if is_empty suffix then some [] else none
strip_suffix (t ∷ ts) suffix =
    if eq (t ∷ ts) suffix then some [] else pass t (strip_suffix ts suffix)

abbrev pub ends_with : Bytes → Bytes → Bool
ends_with text suffix = elim (strip_suffix text suffix) [ none ↦ false | some p ↦ true ]

abbrev pub extend_first : ℕ → List Bytes → List Bytes
extend_first c [] = (c ∷ []) ∷ []
extend_first c (w ∷ ws) = (c ∷ w) ∷ ws

-- `text.split(byte)`: never the empty list.
unfoldable pub split : ℕ → Bytes → List Bytes
split sep [] = [] ∷ []
split sep (c ∷ rest) =
    let words = split sep rest in if c == sep then [] ∷ words else extend_first c words

abbrev pub pass_left : ℕ → Option (Bytes × Bytes) → Option (Bytes × Bytes)
pass_left c none = none
pass_left c (some (l, r)) = some (c ∷ l, r)

-- `text.split_once(byte)`.
unfoldable pub split_once : ℕ → Bytes → Option (Bytes × Bytes)
split_once sep [] = none
split_once sep (c ∷ rest) =
    let found = split_once sep rest in if c == sep then some ([], rest) else pass_left c found

abbrev pub is_ascii_digit : ℕ → Bool
is_ascii_digit b = leb b'0' b && leb b b'9'

abbrev pub is_ascii_lowercase : ℕ → Bool
is_ascii_lowercase b = leb b'a' b && leb b b'z'

abbrev pub is_ascii_uppercase : ℕ → Bool
is_ascii_uppercase b = leb b'A' b && leb b b'Z'

abbrev pub is_ascii_alphanumeric : ℕ → Bool
is_ascii_alphanumeric b = is_ascii_digit b || is_ascii_lowercase b || is_ascii_uppercase b

abbrev pub is_ascii_control : ℕ → Bool
is_ascii_control b = ltb b 32 || b == 127

abbrev pub lower_byte : ℕ → ℕ
lower_byte b = if is_ascii_uppercase b then b + 32 else b

abbrev pub upper_byte : ℕ → ℕ
upper_byte b = if is_ascii_lowercase b then b - 32 else b

abbrev pub is_ascii : Bytes → Bool
is_ascii = all (λ b. ltb b 128)

abbrev pub to_ascii_lowercase : Bytes → Bytes
to_ascii_lowercase = map lower_byte

abbrev pub eq_ignore_ascii_case : Bytes → Bytes → Bool
eq_ignore_ascii_case a b = eq (to_ascii_lowercase a) (to_ascii_lowercase b)
