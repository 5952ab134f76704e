-- ===== src/Tests/Authorization.antt =====
-- The compiled policy at concrete inputs.
use baffle.Prelude.{◌==◌, ◌≡◌, refl, ◌↔◌, some, [], ◌∷◌, ◌<◌, ◌≤◌, ok, true}
use baffle.Prelude.Text.{
  Bytes, bytes, eq, any, all, starts_with, contains_text, strip_suffix, split, split_once,
}
use baffle.Prelude.Assoc.{get}
use baffle.Policy.Types.{RuleMode, HostRule}
use baffle.Tests.Values.{host, parse_host, policy, session, crypto, rule, facts, credential}
use baffle.Authorization.{
  Destination, parse_authority_text, compile, authorize_connect_authority,
  permits_tls_interception_authority, authorize_intercepted_request, CompiledRule, is_bad_authority,
  is_misdirected, host_and_port, host_destination, parse_u16, is_unbound, parse_digits, rule_for,
  canonical_authorized_path, matches_any, compile_rule,
}
use baffle.Policy.Dns.{
  normalize_dns_name, without_final_dot, is_label_byte, is_bad_label, is_bad_host,
}
use baffle.Tests.Values.{parse_host, crypto, policy, session, facts, credential}
use baffle.Authorization.Authority.{parse_authority_text_bounds, Agrees}
use baffle.Authorization.Request.{
  authorize_intercepted-connect, Admitted, authorize_intercepted_iff,
}
use baffle.Policy.Pattern.{matches_path_pattern, recursive_parts, path_pattern_parts}
use baffle.Policy.Path.{
  canonicalize_request_path, canonicalize_path, has_forbidden, canonical_bytes, canonical_escape,
  canonical_plain, push_escape, is_ambiguous, hex_value, is_unreserved, is_path_character,
  is_path_punctuation, is_dot_segment,
}
use baffle.Policy.Ip.{is_ip_addr}
use baffle.Authorization.Connect.{permits_tls_interception_iff, Permits, authorize_connect_iff}
use baffle.Authorization.Listed.{Listed}
use baffle.Authorization.Compile.{IsCompiled, compile_iff}

abbrev authority : Bytes
authority = bytes "API.example.com:8443"

abbrev destination : Destination
destination = record { host = host; port = 8443 }

authority_parsed : parse_authority_text parse_host authority (some 443) ≡ ok destination
unfolding parse_authority_text is_bad_authority host_and_port parse_u16 parse_digits
    normalize_dns_name without_final_dot is_label_byte is_bad_label is_bad_host is_ip_addr any all
    starts_with strip_suffix split eq split_once contains_text
authority_parsed = refl

parse_authority_text_bounds_example :
    (0 < destination.port)
    × (destination.port ≤ 65535)
    × ((name : Bytes) × (normalize_dns_name parse_host name ≡ ok destination.host))
parse_authority_text_bounds_example =
    parse_authority_text_bounds parse_host authority destination authority_parsed

abbrev seeded_rule : CompiledRule
seeded_rule = compile_rule crypto (bytes "seed") session rule

compile_iff_example :
    (rule_for (compile crypto (bytes "seed") session) destination ≡ some seeded_rule) ↔ (
      (listed : HostRule) × Listed listed (rule ∷ [])
      × (listed.host ≡ host)
      × (any (λ p. p == 8443) listed.ports ≡ true)
      × IsCompiled crypto (bytes "seed") session listed seeded_rule)
unfolding any
compile_iff_example = compile_iff crypto (bytes "seed") session destination seeded_rule (refl, tt)

authorize_connect_iff_example :
    (authorize_connect_authority parse_host policy authority (authority ∷ [])
      ≡ ok (RuleMode.intercept, destination))
    ↔ ((parse_authority_text parse_host authority (some 443) ≡ ok destination)
        × Agrees parse_host (authority ∷ []) destination
        × Permits policy destination RuleMode.intercept)
authorize_connect_iff_example =
    authorize_connect_iff parse_host policy authority (authority ∷ []) RuleMode.intercept
      destination

permits_tls_interception_iff_example :
    (permits_tls_interception_authority parse_host policy authority (some host) ≡ true) ↔ (
      (name : Bytes) × (d : Destination) × (some host ≡ some name)
      × (authorize_connect_authority parse_host policy authority [] ≡ ok (RuleMode.intercept, d))
      × (normalize_dns_name parse_host name ≡ ok d.host))
permits_tls_interception_iff_example =
    permits_tls_interception_iff parse_host policy authority (some host)

request_authorized :
    authorize_intercepted_request parse_host policy facts host
    ≡ ok (credential ∷ [], some (bytes "/v1/~user"))
unfolding authorize_intercepted_request is_misdirected host_destination is_unbound rule_for
    canonical_authorized_path matches_any matches_path_pattern canonicalize_request_path
    recursive_parts path_pattern_parts parse_authority_text is_bad_authority host_and_port parse_u16
    parse_digits normalize_dns_name without_final_dot is_label_byte is_bad_label is_bad_host
    is_ip_addr any all starts_with strip_suffix split eq split_once contains_text get
    canonicalize_path has_forbidden canonical_bytes canonical_escape canonical_plain push_escape
    is_ambiguous hex_value is_unreserved is_path_character is_path_punctuation is_dot_segment
request_authorized = refl

authorize_intercepted_iff_example :
    (authorize_intercepted_request parse_host policy facts host
      ≡ ok (credential ∷ [], some (bytes "/v1/~user")))
    ↔ Admitted parse_host policy facts host (credential ∷ []) (some (bytes "/v1/~user"))
authorize_intercepted_iff_example =
    authorize_intercepted_iff parse_host policy facts host (credential ∷ [])
      (some (bytes "/v1/~user"))

authorize_intercepted-connect_example :
    (d : Destination) × (r : CompiledRule) × (authorize_connect_authority parse_host policy host []
      ≡ ok (r.mode, d))
    × (get d.host policy.rules ≡ some r)
    × (credential ∷ [] ≡ r.credentials)
authorize_intercepted-connect_example =
    authorize_intercepted-connect parse_host policy facts host (credential ∷ [])
      (some (bytes "/v1/~user")) request_authorized
