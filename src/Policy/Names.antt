-- ===== src/Policy/Names.antt =====
-- crates/baffle-client/src/policy.rs: the validators of single names, and `validate_session_id` of
-- src/config/protocol.rs.
use baffle.Prelude.{
  ℕ, Bool, false, not, ◌&&◌, ◌||◌, Option, none, some, List, [], ◌∷◌, leb, ltb, ◌==◌, Result, ok,
  ◌>>◌, fail_if,
}
use baffle.Prelude.Text.{
  Bytes, bytes, eq, length, any, all, first, last, is_empty, contains, contains_text, starts_with,
  ends_with, split, is_ascii_alphanumeric, is_ascii_control, to_ascii_lowercase,
}

pub data NameError : Type 0 where
  config_name secret_id basic_username socket_not_relative socket_component socket_too_long :
      NameError
  header_name prohibited_header session_id : NameError

-- `char::is_control`: the ASCII controls, DEL and, as two bytes of UTF-8, U+0080 to U+009F.
unfoldable pub has_control : Bytes → Bool
has_control [] = false
has_control (a ∷ []) = is_ascii_control a
has_control (a ∷ b ∷ rest) =
    is_ascii_control a || (a == 0xc2 && leb 0x80 b && leb b 0x9f) || has_control (b ∷ rest)

unfoldable pub is_bad_component : Bytes → Bool
is_bad_component component =
    is_empty component || eq component (bytes ".") || eq component (bytes "..")

unfoldable pub validate_session_config_name : Bytes → Result NameError (Unit {0})
unfolding has_control is_bad_component
validate_session_config_name name = do
  fail_if
      (is_empty name
        || ltb 1024 (length name)
        || not (ends_with name (bytes ".toml"))
        || any (λ c. c == 92 || c == b':') name
        || has_control name
        || any (λ component. is_bad_component component || ltb 255 (length component))
            (split b'/' name))
      config_name
  ok tt

abbrev is_symbol : ℕ → Bool
is_symbol byte = byte == b'.' || byte == b'_' || byte == b'-'

abbrev opt : Option ℕ → (ℕ → Bool) → Bool
opt none p = false
opt (some c) p = p c

unfoldable pub validate_secret_id : Bytes → Result NameError (Unit {0})
validate_secret_id input = do
  fail_if
      (is_empty input
        || ltb 64 (length input)
        || not (all (λ byte. is_ascii_alphanumeric byte || is_symbol byte) input)
        || not (opt (first input) is_ascii_alphanumeric)
        || opt (last input) is_symbol
        || contains_text input (bytes ".."))
      secret_id
  ok tt

unfoldable pub validate_basic_username : Bytes → Result NameError (Unit {0})
validate_basic_username input = do
  fail_if (is_empty input || contains input b':' || not (all (λ b. leb 32 b && leb b b'~') input))
      basic_username
  ok tt

unfoldable pub validate_socket_name : Bytes → Result NameError Bytes
unfolding is_bad_component
validate_socket_name input = do
  fail_if (is_empty input || starts_with input (bytes "/") || any (λ c. c == 92 || c == 0) input)
      socket_not_relative
  fail_if (any is_bad_component (split b'/' input)) socket_component
  fail_if (ltb 107 (length input)) socket_too_long
  ok input

abbrev pub prohibited : List Bytes
prohibited =
    bytes "connection"
    ∷ bytes "content-length"
    ∷ bytes "forwarded"
    ∷ bytes "host"
    ∷ bytes "http2-settings"
    ∷ bytes "keep-alive"
    ∷ bytes "proxy-authenticate"
    ∷ bytes "proxy-authorization"
    ∷ bytes "proxy-connection"
    ∷ bytes "te"
    ∷ bytes "trailer"
    ∷ bytes "transfer-encoding"
    ∷ bytes "upgrade"
    ∷ bytes "x-forwarded-for"
    ∷ bytes "x-forwarded-host"
    ∷ bytes "x-forwarded-port"
    ∷ bytes "x-forwarded-proto"
    ∷ bytes "x-original-host"
    ∷ bytes "x-original-url"
    ∷ bytes "x-real-ip"
    ∷ bytes "x-rewrite-url"
    ∷ []

unfoldable pub is_header_byte : ℕ → Bool
is_header_byte byte = is_ascii_alphanumeric byte || contains (bytes "!#$%&'*+-.^_`|~") byte

unfoldable pub validate_header : Bytes → Result NameError Bytes
validate_header input = do
  fail_if (is_empty input || not (all is_header_byte input)) header_name
  fail_if (any (λ name. eq name (to_ascii_lowercase input)) prohibited) prohibited_header
  ok input

unfoldable pub validate_session_id : Bytes → Result NameError (Unit {0})
validate_session_id id = do
  fail_if
      (is_empty id
        || ltb 128 (length id)
        || not (all (λ b. is_ascii_alphanumeric b || b == b'-' || b == b'_') id))
      session_id
  ok tt
