-- ===== src/Tests/Policy.antt =====
-- The validation of policies at concrete inputs.
use baffle.Prelude.{
  ℕ, ◌-◌, ◌*◌, ◌+◌, ◌==◌, sym, ◌∙◌, Bool-cases, inl, inr, if◌then◌else◌, List, ◌≡◌, refl, ◌↔◌, ◌≤◌,
  Option, some, [], ◌∷◌, ok, false, true, arith,
}
use baffle.Prelude.Text.{
  Bytes, bytes, eq, any, all, starts_with, contains_text, strip_suffix, split, split_once,
  to_ascii_lowercase,
}
use baffle.Prelude.Apart.{Apart, count}
use baffle.Prelude.Assoc.{get, insert}
use baffle.Policy.Pattern.{
  paths_overlap, matches_path_pattern, validate_path, recursive_parts, path_pattern_parts,
}
use baffle.Policy.Path.{
  is_dot_segment, canonicalize_path, has_forbidden, canonical_bytes, canonical_escape,
  canonical_plain, push_escape, is_ambiguous, hex_value, is_unreserved, is_path_character,
  is_path_punctuation,
}
use baffle.Policy.Document.{
  RawSessionConfig, from_toml, validate_session_document, check_version, parse_unmatched,
  named_rules, transpose_socket, check_overrides, validate_credentials, pos, from_toml-AllValid,
}
use baffle.Policy.Builders.{set_credential_mode, effective_credential_mode-set_credential_mode}
use baffle.Policy.Types.{CredentialMode, effective_credential_mode}
use baffle.Policy.Rules.{
  validate_named_rules, check_rules, validate_rule, check_ports, check_paths, check_username,
  check_injections, has_features, to_rule,
}
use baffle.Policy.Path.Shadow.{decode}
use baffle.Policy.Rules.Valid.{
  IsValidRule, AllValid, hosts_of, IsValidRule-count, AreNormalized, validate_named_rules-AllValid,
}
use baffle.Policy.Rules.Complete.{validate_rule_iff}
use baffle.Policy.Path.Canonical.{canonicalize_path_idempotent}
use baffle.Tests.Values.{raw_session, rule, parse_host, raw_rule, session, host}
use baffle.Policy.Pattern.Overlap.{paths_overlap_iff}
use baffle.Policy.Path.Safety.{decode-canonicalize_path, decode_safe}
use baffle.Policy.Names.{
  validate_socket_name, validate_secret_id, is_bad_component, validate_header, is_header_byte,
}
use baffle.Prelude.Text.{extend_first}
use baffle.Policy.Dns.{
  ParsedHost, malformed, normalize_dns_name, without_final_dot, is_label_byte, is_bad_label,
  is_bad_host, domain,
}
use baffle.Policy.Ip.{is_ip_addr}
use baffle.Policy.Dns.Laws.{normalize_dns_name_idempotent}

-- Policy paths.
abbrev written : Bytes
written = bytes "/v1/%7euser%2a"

abbrev canonical : Bytes
canonical = bytes "/v1/~user%2A"

canonicalize_written : canonicalize_path written ≡ ok canonical
unfolding canonicalize_path has_forbidden canonical_bytes canonical_escape canonical_plain
    push_escape is_ambiguous hex_value is_unreserved is_path_character is_path_punctuation
    is_dot_segment any starts_with contains_text split eq
canonicalize_written = refl

canonicalize_path_idempotent_example : canonicalize_path canonical ≡ ok canonical
canonicalize_path_idempotent_example =
    canonicalize_path_idempotent written canonical canonicalize_written

decode-canonicalize_path_example : decode canonical ≡ decode written
decode-canonicalize_path_example = decode-canonicalize_path written canonical canonicalize_written

decode_safe_example :
    (any is_dot_segment (split b'/' (decode written)) ≡ false)
    × (contains_text (decode written) (bytes "//") ≡ false)
decode_safe_example = decode_safe written canonical canonicalize_written

paths_overlap_iff_example : (paths_overlap (bytes "/v1/**") (bytes "/v1/users/**") ≡ true) ↔ (
    (path : Bytes) × (matches_path_pattern (bytes "/v1/**") path ≡ true)
    × (matches_path_pattern (bytes "/v1/users/**") path ≡ true))
paths_overlap_iff_example = paths_overlap_iff (bytes "/v1/**") (bytes "/v1/users/**")

-- Rules and documents.
rules_accepted :
    validate_named_rules parse_host ((bytes "API.Example.com.", raw_rule) ∷ []) ≡ ok (rule ∷ [])
unfolding validate_named_rules check_rules validate_rule check_ports check_paths check_username
    check_injections has_features to_rule normalize_dns_name without_final_dot is_label_byte
    is_bad_label is_bad_host is_ip_addr validate_path recursive_parts path_pattern_parts
    paths_overlap canonicalize_path has_forbidden canonical_bytes canonical_escape canonical_plain
    push_escape is_ambiguous hex_value is_unreserved is_path_character is_path_punctuation
    is_dot_segment validate_header is_header_byte validate_secret_id is_bad_component any all
    starts_with contains_text strip_suffix split split_once eq
rules_accepted = refl

validate_named_rules-AllValid_example :
    AllValid (rule ∷ []) × Apart eq (hosts_of (rule ∷ [])) × AreNormalized parse_host (rule ∷ [])
validate_named_rules-AllValid_example =
    validate_named_rules-AllValid parse_host ((bytes "API.Example.com.", raw_rule) ∷ []) (rule ∷ [])
      rules_accepted

IsValidRule-count_example :
    count (λ pattern. matches_path_pattern pattern (bytes "/v1/users")) rule.paths ≤ 1
IsValidRule-count_example =
    IsValidRule-count rule (bytes "/v1/users")
      (validate_named_rules-AllValid parse_host ((bytes "API.Example.com.", raw_rule) ∷ [])
        (rule ∷ []) rules_accepted).0.0

rule-IsValidRule : IsValidRule rule
rule-IsValidRule =
    (validate_named_rules-AllValid parse_host ((bytes "API.Example.com.", raw_rule) ∷ [])
      (rule ∷ []) rules_accepted).0.0

validate_rule_iff_example :
    (validate_rule rule true ≡ ok rule) ↔ (IsValidRule rule × (false ≡ false))
validate_rule_iff_example = validate_rule_iff rule true (λ h. absurd (ground arith))

abbrev deserialize : Bytes → Option RawSessionConfig
deserialize input = some raw_session

document_accepted : from_toml parse_host deserialize (bytes "version = 2") ≡ ok session
unfolding from_toml validate_session_document check_version parse_unmatched named_rules
    transpose_socket check_overrides validate_credentials validate_socket_name validate_secret_id
    is_bad_component eq any all contains_text starts_with get insert split
document_accepted = rw rules_accepted refl

from_toml-AllValid_example :
    AllValid session.rules
    × Apart eq (hosts_of session.rules)
    × ((raw : RawSessionConfig) × (deserialize (bytes "version = 2") ≡ some raw)
        × (raw.version ≡ some (pos 2))
        × (raw.unsupported_fields ≡ []))
from_toml-AllValid_example =
    from_toml-AllValid parse_host deserialize (bytes "version = 2") session document_accepted

-- DNS names.
-- A parser that, as `Host::parse` does, decodes an escape, here at the start of a name, and gives
-- every other name in lower case.
abbrev decode_escape : Bytes → Bytes
decode_escape (high ∷ low ∷ rest) = ((high - 48) * 16 + (low - 48)) ∷ rest
decode_escape rest = rest

abbrev url_host : Bytes → ParsedHost
url_host [] = malformed
url_host (c ∷ rest) =
    if c == 37 then domain (decode_escape rest) else domain (to_ascii_lowercase (c ∷ rest))

bad_first_label :
    (c : ℕ) (labels : List Bytes)
    → is_label_byte c ≡ false
    → any is_bad_label (extend_first c labels) ≡ true
unfolding any all is_bad_label
bad_first_label c [] h = ground arith
bad_first_label c (label ∷ labels) h = ground arith

good_first_label :
    (c : ℕ) (rest : Bytes) → (c == 37) ≡ true → any is_bad_label (split b'.' (c ∷ rest)) ≡ false → ⊥
unfolding split
good_first_label c rest h good =
    let other : (c == b'.') ≡ false = ground arith in
    let bad : is_label_byte c ≡ false = unfold is_label_byte in ground arith in
    ground (arith, bad_first_label c (split b'.' rest) bad)

domain-injective : (a b : Bytes) → domain a ≡ domain b → a ≡ b
domain-injective a b e = ground arith

url_host-keeps :
    (text name : Bytes)
    → to_ascii_lowercase text ≡ text
    → is_bad_host text ≡ false
    → any is_bad_label (split b'.' text) ≡ false
    → url_host text ≡ domain name
    → name ≡ text
url_host-keeps [] name lower good_host good e = absurd (ground arith)
url_host-keeps (c ∷ rest) name lower good_host good e = elim (Bool-cases (c == 37)) [
  | inl escape ↦ absurd (good_first_label c rest escape good)
  | inr plain ↦ sym (domain-injective _ _ (rw plain at e)) ∙ lower
]

escape_decoded : url_host (bytes "%61pi.example.com") ≡ domain host
escape_decoded = refl

name_accepted : normalize_dns_name url_host (bytes "API.Example.com.") ≡ ok host
unfolding normalize_dns_name without_final_dot is_label_byte is_bad_label is_bad_host is_ip_addr any
    all starts_with strip_suffix split eq split_once contains_text
name_accepted = refl

normalize_dns_name_idempotent_example : normalize_dns_name url_host host ≡ ok host
normalize_dns_name_idempotent_example =
    normalize_dns_name_idempotent url_host url_host-keeps (bytes "API.Example.com.") host
      name_accepted

-- Policies that a client builds.
effective_credential_mode-set_credential_mode_example :
    effective_credential_mode
      (set_credential_mode session (bytes "token") CredentialMode.inject)
      (bytes "other")
    ≡ CredentialMode.disabled
unfolding eq get effective_credential_mode
effective_credential_mode-set_credential_mode_example =
    effective_credential_mode-set_credential_mode session (bytes "token") (bytes "other")
      CredentialMode.inject
