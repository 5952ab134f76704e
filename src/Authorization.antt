-- ===== src/Authorization.antt =====
-- src/policy.rs: the authorization policy that is compiled for one proxy session.
pub mod Authority
pub mod Forwards
pub mod Listed
pub mod Compile
pub mod Connect
pub mod Request
use baffle.Prelude.{
  ℕ, ◌+◌, ◌-◌, ◌*◌, Bool, true, false, not, ◌&&◌, ◌||◌, Option, none, some, List, [], ◌∷◌, leb, ltb,
  ◌==◌, if◌then◌else◌, Result, ok, err, ◌>>=◌, ◌>>◌, fail_if, map_err, ok_or,
}
use baffle.Prelude.Text.{
  Bytes, bytes, eq, any, length, first, is_empty, contains, split_once, is_ascii, is_ascii_digit,
  eq_ignore_ascii_case,
}
use baffle.Prelude.Assoc.{Assoc, get, insert}
use baffle.Credentials.{Crypto, derive_fake_credential}
use baffle.Policy.Types.{
  CredentialMode, UnmatchedHostPolicy, RuleMode, HeaderInjection, HostRule, SessionConfig,
  effective_credential_mode, is_substitute, is_intercept,
}
use baffle.Policy.Path.{canonicalize_request_path}
use baffle.Policy.Pattern.{matches_path_pattern}
use baffle.Policy.Dns.{ParsedHost, normalize_dns_name}

pub data AuthorizationError : Type 0 where
  invalid_authority denied : AuthorizationError

pub record Destination : Type 0 where
  pub host : Bytes
  pub port : ℕ

abbrev pub same_destination : Destination → Destination → Bool
same_destination a b = eq a.host b.host && a.port == b.port

-- The facts of one decrypted request.
pub record RequestFacts : Type 0 where
  pub method : Bytes
  pub scheme : Option Bytes
  pub uri_authority : Option Bytes
  pub path : Bytes
  pub host_headers : List Bytes

pub record CompiledCredential : Type 0 where
  pub injection : HeaderInjection
  pub mode : CredentialMode
  pub fake_value : Option Bytes

pub record CompiledRule : Type 0 where
  pub mode : RuleMode
  pub ports : List ℕ
  pub paths : List Bytes
  pub credentials : List CompiledCredential

pub record SessionPolicy : Type 0 where
  pub rules : Assoc CompiledRule
  pub unmatched : UnmatchedHostPolicy

module _ (crypto : Crypto) (seed : Bytes) (session : SessionConfig) where
  unfoldable pub compile_credential : HeaderInjection → CompiledCredential
  compile_credential injection =
      let mode = effective_credential_mode session injection.secret in
      record {
        injection = injection;
        mode = mode;
        fake_value =
            if is_substitute mode
            then some (derive_fake_credential crypto seed injection.secret)
            else none;
      }

  abbrev pub compile_credentials : List HeaderInjection → List CompiledCredential
  compile_credentials [] = []
  compile_credentials (injection ∷ rest) = compile_credential injection ∷ compile_credentials rest

  unfoldable pub compile_rule : HostRule → CompiledRule
  compile_rule rule = record {
    mode = rule.mode;
    ports = rule.ports;
    paths = rule.paths;
    credentials = compile_credentials rule.injections;
  }

  -- `collect` into the map: a later rule for a host would take the place of an earlier one.
  unfoldable pub collect_rules : Assoc CompiledRule → List HostRule → Assoc CompiledRule
  collect_rules rules [] = rules
  collect_rules rules (rule ∷ rest) =
      collect_rules (insert rule.host (compile_rule rule) rules) rest

  unfoldable pub compile : SessionPolicy
  compile = record { rules = collect_rules [] session.rules; unmatched = session.unmatched }

-- `str::parse::<u16>`: digits, behind an optional `+`.
unfoldable pub parse_digits : ℕ → Bytes → Option ℕ
parse_digits value [] = some value
parse_digits value (digit ∷ rest) =
    let next = value * 10 + (digit - b'0') in
    if is_ascii_digit digit && leb next 65535 then parse_digits next rest else none

unfoldable pub parse_u16 : Bytes → Option ℕ
unfolding parse_digits
parse_u16 [] = none
parse_u16 (sign ∷ []) = if sign == b'+' then none else parse_digits 0 (sign ∷ [])
parse_u16 (sign ∷ next ∷ rest) =
    if sign == b'+' then parse_digits 0 (next ∷ rest) else parse_digits 0 (sign ∷ next ∷ rest)

unfoldable pub is_bad_authority : Bytes → Bool
is_bad_authority authority =
    is_empty authority || not (is_ascii authority) || any (λ c. c == b'@' || c == b'%') authority

unfoldable pub host_and_port : Bytes → Option ℕ → Result AuthorizationError (Bytes × ℕ)
host_and_port authority default_port = elim (split_once b':' authority) [
  | some (host, port) ↦
      if not (contains host b':')
      then (do number ← ok_or (parse_u16 port) invalid_authority; ok (host, number))
      else err invalid_authority
  | none ↦ do number ← ok_or default_port invalid_authority; ok (authority, number)
]

-- The pattern list of a rule against a canonical path.
unfoldable pub matches_any : List Bytes → Bytes → Bool
matches_any paths canonical = any (λ pattern. matches_path_pattern pattern canonical) paths

unfoldable pub canonical_authorized_path :
    CompiledRule → Bytes → Result AuthorizationError (Option Bytes)
canonical_authorized_path rule path = if is_empty rule.paths then ok none else do
  canonical ← map_err (λ _. denied) (canonicalize_request_path path)
  fail_if (not (matches_any rule.paths canonical)) denied
  ok (some canonical)

abbrev pub has_port : List ℕ → ℕ → Bool
has_port ports port = any (λ p. p == port) ports

-- `Option::filter` on the rule's ports.
unfoldable pub rule_for : SessionPolicy → Destination → Option CompiledRule
rule_for policy d = elim (get d.host policy.rules) [
  | none ↦ none
  | some rule ↦ if has_port rule.ports d.port then some rule else none
]

abbrev pub permits_unmatched : UnmatchedHostPolicy → ℕ → Bool
permits_unmatched UnmatchedHostPolicy.tunnel port = port == 443
permits_unmatched UnmatchedHostPolicy.deny port = false

-- The rule of the host decides; the fallback is for hosts that have none.
unfoldable pub decide_connect :
    SessionPolicy → Destination → Result AuthorizationError (RuleMode × Destination)
decide_connect policy d = elim (get d.host policy.rules) [
  | some rule ↦ if not (has_port rule.ports d.port) then err denied else ok (rule.mode, d)
  | none ↦ if permits_unmatched policy.unmatched d.port then ok (RuleMode.tunnel, d) else err denied
]

abbrev pub differs : Option Destination → Destination → Bool
differs none d = false
differs (some other) d = not (same_destination other d)

abbrev pub is_none : {A : Type 0} → Option A → Bool
is_none none = true
is_none (some a) = false

-- A named destination is another one, or no destination is named.
unfoldable pub is_unbound : Option Destination → Option Destination → Destination → Bool
is_unbound uri host connect =
    differs uri connect || differs host connect || (is_none uri && is_none host)

-- The method is CONNECT, or a scheme is given that is not https.
unfoldable pub is_misdirected : RequestFacts → Bool
is_misdirected facts = eq_ignore_ascii_case facts.method (bytes "CONNECT") || elim facts.scheme [
  | none ↦ false
  | some scheme ↦ not (eq_ignore_ascii_case scheme (bytes "https"))
]

-- The `url` crate's parser is a parameter.
module _ (parse_host : Bytes → ParsedHost) where
  unfoldable pub parse_authority_text : Bytes → Option ℕ → Result AuthorizationError Destination
  parse_authority_text authority default_port = do
    fail_if (is_bad_authority authority) invalid_authority
    parts ← host_and_port authority default_port
    fail_if (parts.1 == 0) invalid_authority
    host ← map_err (λ _. invalid_authority) (normalize_dns_name parse_host parts.0)
    ok (record { host = host; port = parts.1 })

  unfoldable pub validate_host_header_text :
      List Bytes → Destination → Result AuthorizationError (Unit {0})
  validate_host_header_text host_headers destination = do
    fail_if (ltb 1 (length host_headers)) invalid_authority
    elim (first host_headers) [
      | none ↦ ok tt
      | some host ↦ do
        d ← parse_authority_text host (some 443)
        fail_if (not (same_destination d destination)) invalid_authority
        ok tt
    ]

  unfoldable pub authorize_connect_authority :
      SessionPolicy → Bytes → List Bytes → Result AuthorizationError (RuleMode × Destination)
  authorize_connect_authority policy authority host_headers = do
    destination ← parse_authority_text authority (some 443)
    validate_host_header_text host_headers destination
    decide_connect policy destination

  unfoldable pub permits_tls_interception_authority : SessionPolicy → Bytes → Option Bytes → Bool
  permits_tls_interception_authority policy authority server_name =
      elim (authorize_connect_authority policy authority []) [
        | err e ↦ false
        | ok (mode, destination) ↦ elim server_name [
          | none ↦ false
          | some name ↦ elim (normalize_dns_name parse_host name) [
            | err e ↦ false
            | ok host ↦ is_intercept mode && eq host destination.host
          ]
        ]
      ]

  -- `map` and `transpose`.
  abbrev pub optional_destination : Option Bytes → Result AuthorizationError (Option Destination)
  optional_destination none = ok none
  optional_destination (some authority) = do
    d ← parse_authority_text authority (some 443)
    ok (some d)

  unfoldable pub host_destination : List Bytes → Result AuthorizationError (Option Destination)
  host_destination [] = ok none
  host_destination (host ∷ []) = do d ← parse_authority_text host (some 443); ok (some d)
  host_destination (host ∷ other ∷ rest) = err invalid_authority

  unfoldable pub authorize_intercepted_request :
      SessionPolicy
      → RequestFacts
      → Bytes
      → Result AuthorizationError (List CompiledCredential × Option Bytes)
  authorize_intercepted_request policy facts connect_authority = do
    fail_if (is_misdirected facts) invalid_authority
    connect ← parse_authority_text connect_authority (some 443)
    uri ← optional_destination facts.uri_authority
    host ← host_destination facts.host_headers
    fail_if (is_unbound uri host connect) invalid_authority
    rule ← ok_or (rule_for policy connect) denied
    path ← canonical_authorized_path rule facts.path
    ok (rule.credentials, path)
