-- ===== src/Policy/Path.antt =====
-- crates/baffle-client/src/policy.rs, `canonicalize_path`: request paths and policy paths in one
-- canonical form. The proofs are in the modules below.
pub mod Unescape
pub mod Shadow
pub mod Canonical
pub mod Safety
use baffle.Prelude.{
  ℕ, ◌+◌, ◌-◌, ◌*◌, Bool, true, false, not, ◌&&◌, ◌||◌, Option, none, some, List, [], ◌∷◌, leb,
  ◌==◌, if◌then◌else◌, Result, ok, err, ◌>>=◌, ◌>>◌, fail_if, ok_or,
}
use baffle.Prelude.Text.{
  Bytes, bytes, eq, any, is_empty, contains, starts_with, contains_text, split, is_ascii_digit,
  is_ascii_lowercase, is_ascii_alphanumeric, upper_byte,
}

-- One constructor for each message.
pub data PathError : Type 0 where
  not_absolute malformed_encoding ambiguous_encoding invalid_character : PathError
  repeated_separator dot_segment misplaced_recursion : PathError

unfoldable pub hex_value : ℕ → Option ℕ
hex_value byte =
    if leb b'0' byte && leb byte b'9'
    then some (byte - b'0')
    else if leb b'a' byte && leb byte b'f'
    then some (byte - b'a' + 10)
    else if leb b'A' byte && leb byte b'F'
    then some (byte - b'A' + 10)
    else none

unfoldable pub is_unreserved : ℕ → Bool
is_unreserved byte =
    is_ascii_alphanumeric byte || byte == b'-' || byte == b'.' || byte == b'_' || byte == b'~'

-- The punctuation of `is_path_character`, `*` and `%` excepted.
unfoldable pub is_path_punctuation : ℕ → Bool
is_path_punctuation byte = contains (bytes "/-._~!$&'()+,;=:@") byte

unfoldable pub is_path_character : ℕ → Bool
is_path_character byte = is_ascii_alphanumeric byte || is_path_punctuation byte

-- The bytes that must not be written as an escape: `/`, `\` and `%`.
unfoldable pub is_ambiguous : ℕ → Bool
is_ambiguous byte = byte == b'/' || byte == 92 || byte == b'%'

-- What is pushed for the escape `%hl` of the byte `decoded`.
unfoldable pub push_escape : ℕ → ℕ → ℕ → Bytes → Bytes
push_escape decoded h l rest =
    if is_unreserved decoded then decoded ∷ rest else b'%' ∷ upper_byte h ∷ upper_byte l ∷ rest

-- One turn of the loop at an escape, with what the loop makes of the text behind it.
unfoldable pub canonical_escape : ℕ → ℕ → Result PathError Bytes → Result PathError Bytes
canonical_escape h l rest = do
  high ← ok_or (hex_value h) malformed_encoding
  low ← ok_or (hex_value l) malformed_encoding
  fail_if (is_ambiguous (high * 16 + low)) ambiguous_encoding
  out ← rest
  ok (push_escape (high * 16 + low) h l out)

-- One turn of the loop at any other byte.
unfoldable pub canonical_plain : ℕ → Result PathError Bytes → Result PathError Bytes
canonical_plain byte rest = do
  fail_if (not (is_path_character byte)) invalid_character
  out ← rest
  ok (byte ∷ out)

-- The loop over the bytes.
unfoldable pub canonical_bytes : Bytes → Result PathError Bytes
canonical_bytes [] = ok []
canonical_bytes (byte ∷ []) =
    if byte == b'%' then err malformed_encoding else canonical_plain byte (ok [])
canonical_bytes (byte ∷ h ∷ []) =
    let next = canonical_bytes (h ∷ []) in
    if byte == b'%' then err malformed_encoding else canonical_plain byte next
canonical_bytes (byte ∷ h ∷ l ∷ rest) =
    let next = canonical_bytes (h ∷ l ∷ rest) in
    let skip = canonical_bytes rest in
    if byte == b'%' then canonical_escape h l skip else canonical_plain byte next

unfoldable pub is_dot_segment : Bytes → Bool
is_dot_segment segment = eq segment (bytes ".") || eq segment (bytes "..")

-- `path.contains(['?', '#', '\\'])`.
unfoldable pub has_forbidden : Bytes → Bool
has_forbidden path = any (λ c. c == b'?' || c == b'#' || c == 92) path

unfoldable pub canonicalize_path : Bytes → Result PathError Bytes
canonicalize_path path = do
  fail_if (not (starts_with path (bytes "/")) || has_forbidden path) not_absolute
  canonical ← canonical_bytes path
  fail_if (contains_text canonical (bytes "//")) repeated_separator
  fail_if (any is_dot_segment (split b'/' canonical)) dot_segment
  ok canonical

unfoldable pub canonicalize_request_path : Bytes → Result PathError Bytes
canonicalize_request_path path = canonicalize_path (if is_empty path then bytes "/" else path)
