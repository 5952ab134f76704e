-- ===== src/Credentials.antt =====
-- src/credentials.rs: the fake value that stands for a secret in one session. HMAC-SHA256 (`ring`)
-- and base64 (`base64`) are parameters; the random seed is an argument.
use baffle.Prelude.{◌++◌, [], ◌∷◌}
use baffle.Prelude.Text.{Bytes, bytes}

pub record Crypto : Type 0 where
  pub hmac_sha256 : Bytes → Bytes → Bytes
  pub base64url : Bytes → Bytes

abbrev pub domain_separator : Bytes
domain_separator = bytes "baffle:credential-substitution:v1" ++ (0 ∷ [])

unfoldable pub derive_fake_credential : Crypto → Bytes → Bytes → Bytes
derive_fake_credential crypto seed identifier =
    bytes "baffle_v1_"
    ++ crypto.base64url (crypto.hmac_sha256 seed (domain_separator ++ identifier))
