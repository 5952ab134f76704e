-- ===== src/Tests/Http.antt =====
-- The policy layer over decrypted requests at concrete inputs.
use baffle.Prelude.{◌≡◌, refl, none, some, [], ◌∷◌, ok, ◌⊎◌, ℕ}
use baffle.Prelude.Text.{
  Bytes, bytes, eq, any, all, starts_with, contains_text, strip_suffix, split, split_once,
}
use baffle.Prelude.Assoc.{Assoc, get}
use baffle.Policy.Types.{InjectionFormat}
use baffle.Tests.Values.{
  host, parse_host, policy, lib, request, headers, sent_headers, credential, injection, fake,
}
use baffle.Http.Substitute.{Replaces, substitute_header_secret-Replaces}
use baffle.Policy.Path.{
  hex_value, is_unreserved, is_path_character, is_path_punctuation, is_dot_segment,
}
use baffle.Http.{
  Request, respond, forward, apply_header_credentials, substitute_header_secret, single, serve,
  texts, set_headers, substitute_value, serve_authorized, denied_response, collect_values,
  substitute_bearer, facts_of, credential_value, has_enabled, format_injected_secret,
  request_has_unsupported_upgrade,
}
use baffle.Http.Apply.{replaced, apply_header_credentials_lem}
use baffle.Http.Turn.{wanted}
use baffle.Authorization.{
  authorize_intercepted_request, is_misdirected, host_destination, is_unbound, rule_for,
  parse_authority_text, canonical_authorized_path, is_bad_authority, matches_any, host_and_port,
  parse_u16, parse_digits,
}
use baffle.Telemetry.{increment}
use baffle.Http.Serve.{serve-respond, Forwarded, serve-forward}
use baffle.Policy.Pattern.{matches_path_pattern, recursive_parts, path_pattern_parts}
use baffle.Policy.Dns.{
  normalize_dns_name, without_final_dot, is_label_byte, is_bad_label, is_bad_host,
}
use baffle.Policy.Path.{
  canonicalize_request_path, canonicalize_path, has_forbidden, canonical_bytes, canonical_escape,
  canonical_plain, push_escape, is_ambiguous, hex_value,
}
use baffle.Policy.Ip.{is_ip_addr}

abbrev secrets : Assoc Bytes
secrets = (bytes "token", bytes "secret") ∷ []

abbrev before : ℕ
before = 7

abbrev counted : ℕ
counted = 8

abbrev bad_request : ℕ
bad_request = 400

abbrev sent : Request lib
sent = record request { path = some (bytes "/v1/~user"); headers = sent_headers }

headers_applied : apply_header_credentials lib headers (credential ∷ []) secrets ≡ ok sent_headers
unfolding apply_header_credentials set_headers collect_values credential_value
    substitute_header_secret substitute_value substitute_bearer format_injected_secret split_once eq
    any get all
headers_applied = refl

apply_header_credentials_lem_example :
    sent_headers (bytes "authorization")
    ≡ replaced
        (wanted lib headers secrets (credential ∷ []) (bytes "authorization"))
        (headers (bytes "authorization"))
apply_header_credentials_lem_example =
    apply_header_credentials_lem lib headers sent_headers (credential ∷ []) secrets
      (bytes "authorization") headers_applied (unfold any in (refl, tt))

value_substituted :
    substitute_header_secret lib headers injection fake (bytes "secret")
    ≡ some (bytes "bearer secret")
unfolding substitute_header_secret substitute_value substitute_bearer split_once eq all
value_substituted = refl

substitute_header_secret-Replaces_example :
    (name value : Bytes) × (some (bytes "authorization") ≡ some name)
    × (single lib (headers name) ≡ some value)
    × Replaces lib InjectionFormat.bearer none fake (bytes "secret") value (bytes "bearer secret")
substitute_header_secret-Replaces_example =
    substitute_header_secret-Replaces lib headers injection fake (bytes "secret")
      (bytes "bearer secret") value_substituted

request_served : serve lib parse_host policy host secrets before request ≡ (before, forward sent)
unfolding serve serve_authorized facts_of has_enabled request_has_unsupported_upgrade
    apply_header_credentials set_headers collect_values credential_value substitute_header_secret
    substitute_value substitute_bearer format_injected_secret authorize_intercepted_request
    is_misdirected host_destination is_unbound rule_for canonical_authorized_path matches_any
    matches_path_pattern canonicalize_request_path recursive_parts path_pattern_parts
    parse_authority_text is_bad_authority host_and_port parse_u16 parse_digits normalize_dns_name
    without_final_dot is_label_byte is_bad_label is_bad_host is_ip_addr any all starts_with
    strip_suffix split eq split_once contains_text get canonicalize_path has_forbidden
    canonical_bytes canonical_escape canonical_plain push_escape is_ambiguous hex_value
    is_unreserved is_path_character is_path_punctuation is_dot_segment
request_served = refl

serve-forward_example :
    (before ≡ before) × Forwarded lib parse_host policy host secrets request sent
serve-forward_example =
    serve-forward lib parse_host policy host secrets before before request sent request_served

-- The same request in a tunnel to another host.
request_refused :
    serve lib parse_host policy (bytes "example.org") secrets before request
    ≡ (counted, respond bad_request)
unfolding increment serve denied_response facts_of authorize_intercepted_request is_misdirected
    host_destination is_unbound parse_authority_text is_bad_authority host_and_port parse_u16
    parse_digits normalize_dns_name without_final_dot is_label_byte is_bad_label is_bad_host
    is_ip_addr any all starts_with strip_suffix split eq split_once contains_text get
request_refused = refl

serve-respond_example :
    ((bad_request ≡ 400) ⊎ (bad_request ≡ 403))
    × ((counted ≡ increment before)
        ⊎ ((counted ≡ before) × (bad_request ≡ 400) × (texts lib (headers (bytes "host")) ≡ none)))
serve-respond_example =
    serve-respond lib parse_host policy (bytes "example.org") secrets before counted request
      bad_request request_refused
