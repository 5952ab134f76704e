-- ===== src/Policy/Document.antt =====
-- crates/baffle-client/src/policy.rs, `validate_session_document`: from the deserialized document
-- to the session policy. Deserialization is the `toml` crate's, and a parameter.
use baffle.Prelude.{
  ℕ, ◌≡◌, refl, sym, Bool, false, not, Option, none, some, List, [], ◌∷◌, ◌==◌, if◌then◌else◌,
  Result, ok, err, ◌>>=◌, ◌>>◌, fail_if, map_err, arith, bind-eq-ok, fail_if-eq-ok, map_err-eq-ok,
  ok_or-eq-ok, ok-injective, ok_or,
}
use baffle.Prelude.Text.{Bytes, bytes, eq, is_empty}
use baffle.Prelude.Assoc.{Assoc, insert, contains_key}
use baffle.Prelude.Apart.{Apart}
use baffle.Policy.Types.{CredentialMode, UnmatchedHostPolicy, deny, SessionConfig}
use baffle.Policy.Dns.{ParsedHost}
use baffle.Policy.Names.{NameError, validate_secret_id, validate_socket_name}
use baffle.Policy.Rules.{RulesIssue, RawNamedRule, validate_named_rules}
use baffle.Policy.Rules.Valid.{AllValid, hosts_of, validate_named_rules-AllValid}

-- An `i64`: `negsuc n` is -(n + 1).
pub data ℤ : Type 0 where
  pos negsuc : ℕ → ℤ

pub data DocumentIssue : Type 0 where
  syntax unsupported_version missing_version unsupported_field unmatched_value : DocumentIssue
  rules_invalid : RulesIssue → DocumentIssue
  socket_invalid : NameError → DocumentIssue
  credential_invalid credential_duplicate : DocumentIssue

-- `rules` is a table of rules, or something else.
pub data RawRules : Type 0 where
  named : List (Bytes × RawNamedRule) → RawRules
  other : RawRules

pub record RawCredentials : Type 0 where
  pub default_mode : Option CredentialMode
  pub overrides : List (Bytes × CredentialMode)

-- The fields that no other field takes are kept by their names.
pub record RawSessionConfig : Type 0 where
  pub version : Option ℤ
  pub persistent : Bool
  pub socket_name : Option Bytes
  pub unmatched : Option Bytes
  pub rules : Option RawRules
  pub credentials : Option RawCredentials
  pub unsupported_fields : List Bytes

unfoldable pub check_version : Option ℤ → Result DocumentIssue (Unit {0})
check_version (some (pos n)) = if n == 2 then ok tt else err unsupported_version
check_version (some (negsuc n)) = err unsupported_version
check_version none = err missing_version

unfoldable pub parse_unmatched : Option Bytes → Result DocumentIssue UnmatchedHostPolicy
parse_unmatched none = ok deny
parse_unmatched (some text) =
    if eq text (bytes "deny")
    then ok deny
    else if eq text (bytes "tunnel")
    then ok UnmatchedHostPolicy.tunnel
    else err unmatched_value

unfoldable pub named_rules : Option RawRules → Result DocumentIssue (List (Bytes × RawNamedRule))
named_rules (some (named rules)) = ok rules
named_rules (some other) = err unsupported_field
named_rules none = ok []

unfoldable pub transpose_socket : Option Bytes → Result DocumentIssue (Option Bytes)
transpose_socket none = ok none
transpose_socket (some name) = do
  checked ← map_err socket_invalid (validate_socket_name name)
  ok (some checked)

-- The loop over the overrides, with the modes so far.
unfoldable pub check_overrides :
    Assoc CredentialMode
    → List (Bytes × CredentialMode)
    → Result DocumentIssue (Assoc CredentialMode)
check_overrides modes [] = ok modes
check_overrides modes ((name, mode) ∷ rest) = do
  map_err (λ _. credential_invalid) (validate_secret_id name)
  fail_if (contains_key name modes) credential_duplicate
  check_overrides (insert name mode modes) rest

unfoldable pub validate_credentials :
    Option RawCredentials → Result DocumentIssue (Option CredentialMode × Assoc CredentialMode)
validate_credentials none = ok (none, [])
validate_credentials (some raw) = do
  modes ← check_overrides [] raw.overrides
  ok (raw.default_mode, modes)

check_version-eq-ok : (v : Option ℤ) {u : Unit {0}} → check_version v ≡ ok u → v ≡ some (pos 2)
unfolding check_version
check_version-eq-ok (some (pos n)) e = ground arith
check_version-eq-ok (some (negsuc n)) e = absurd (ground arith)
check_version-eq-ok none e = absurd (ground arith)

no_fields : (fields : List Bytes) → not (is_empty fields) ≡ false → fields ≡ []
no_fields [] h = refl
no_fields (f ∷ fields) h = absurd (ground arith)

-- The `url` crate's parser is a parameter.
module _ (parse_host : Bytes → ParsedHost) where
  unfoldable pub validate_session_document : RawSessionConfig → Result DocumentIssue SessionConfig
  validate_session_document raw = do
    check_version raw.version
    fail_if (not (is_empty raw.unsupported_fields)) unsupported_field
    unmatched ← parse_unmatched raw.unmatched
    raw_rules ← named_rules raw.rules
    rules ← map_err rules_invalid (validate_named_rules parse_host raw_rules)
    socket_name ← transpose_socket raw.socket_name
    credentials ← validate_credentials raw.credentials
    ok (record {
      persistent = raw.persistent;
      socket_name = socket_name;
      unmatched = unmatched;
      default_credential_mode = credentials.0;
      credential_modes = credentials.1;
      rules = rules;
    })

  -- `SessionConfig::from_toml`, and so `SessionFile::from_toml`.
  unfoldable pub from_toml :
      (Bytes → Option RawSessionConfig) → Bytes → Result DocumentIssue SessionConfig
  from_toml deserialize input = do
    raw ← ok_or (deserialize input) syntax
    validate_session_document raw

  -- A policy that is read from a document has valid rules for distinct hosts, and the document
  -- declares the version that the code supports and no field that the code does not know.
  pub from_toml-AllValid :
      (deserialize : Bytes → Option RawSessionConfig) (input : Bytes) (session : SessionConfig)
      → from_toml deserialize input ≡ ok session
      → AllValid session.rules
        × Apart eq (hosts_of session.rules)
        × ((raw : RawSessionConfig) × (deserialize input ≡ some raw)
            × (raw.version ≡ some (pos 2))
            × (raw.unsupported_fields ≡ []))
  unfolding from_toml validate_session_document
  from_toml-AllValid deserialize input session e =
      let (raw, er, e1) = bind-eq-ok (ok_or (deserialize input) syntax) _ e in
      let (_, ev, e2) = bind-eq-ok (check_version raw.version) _ e1 in
      let (ef, e3) = fail_if-eq-ok (not (is_empty raw.unsupported_fields)) unsupported_field _ e2 in
      let (unmatched, eu, e4) = bind-eq-ok (parse_unmatched raw.unmatched) _ e3 in
      let (raw_rules, en, e5) = bind-eq-ok (named_rules raw.rules) _ e4 in
      let (rules, es, e6) =
        bind-eq-ok (map_err rules_invalid (validate_named_rules parse_host raw_rules)) _ e5 in
      let (socket_name, eo, e7) = bind-eq-ok (transpose_socket raw.socket_name) _ e6 in
      let (credentials, ec, e8) = bind-eq-ok (validate_credentials raw.credentials) _ e7 in
      let (valid, apart, _) =
        validate_named_rules-AllValid parse_host raw_rules rules
          (map_err-eq-ok rules_invalid _ es) in
      rw (sym (ok-injective e8)) (
        valid,
        apart,
        (
          raw,
          ok_or-eq-ok (deserialize input) syntax er,
          check_version-eq-ok raw.version ev,
          no_fields raw.unsupported_fields ef,
        ),
      )
