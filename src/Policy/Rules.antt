-- ===== src/Policy/Rules.antt =====
-- crates/baffle-client/src/policy.rs, `validate_rule` and `validate_named_rules`.
pub mod Entries
pub mod Valid
pub mod Complete
use baffle.Prelude.{
  ℕ, suc, Bool, true, false, ◌&&◌, ◌||◌, Option, none, some, List, [], ◌∷◌, ◌++◌, ◌==◌,
  if◌then◌else◌, Result, ok, err, ◌>>=◌, ◌>>◌, fail_if, map_err,
}
use baffle.Prelude.Text.{Bytes, eq, any, is_empty, to_ascii_lowercase}
use baffle.Policy.Types.{
  RuleMode, InjectionFormat, basic_password, HeaderInjection, HostRule, is_tunnel,
}
use baffle.Policy.Path.{PathError}
use baffle.Policy.Pattern.{validate_path, paths_overlap}
use baffle.Policy.Dns.{ParsedHost, DnsError, normalize_dns_name}
use baffle.Policy.Names.{NameError, validate_header, validate_secret_id, validate_basic_username}

-- The messages about one rule; a number is the index that the message names.
pub data RuleIssue : Type 0 where
  ports_empty port_zero port_duplicate tunnel_features path_overlap : RuleIssue
  path_invalid : ℕ → PathError → RuleIssue
  header_invalid secret_invalid username_invalid : ℕ → NameError → RuleIssue
  header_duplicate username_required username_unexpected : ℕ → RuleIssue

pub data RulesIssue : Type 0 where
  host_invalid : ℕ → DnsError → RulesIssue
  host_duplicate : ℕ → RulesIssue
  rule_invalid : ℕ → RuleIssue → RulesIssue

pub record RawHeaderInjection : Type 0 where
  pub header : Bytes
  pub secret : Bytes
  pub format : InjectionFormat
  pub username : Option Bytes

pub record RawNamedRule : Type 0 where
  pub mode : Option RuleMode
  pub ports : List ℕ
  pub paths : Option (List Bytes)
  pub inject : Option (List RawHeaderInjection)

-- The loop over the ports, with those seen.
unfoldable pub check_ports : List ℕ → List ℕ → Result RuleIssue (Unit {0})
check_ports seen [] = ok tt
check_ports seen (port ∷ rest) = do
  fail_if (port == 0) port_zero
  fail_if (any (λ p. p == port) seen) port_duplicate
  check_ports (seen ++ port ∷ []) rest

-- The loop over the paths, with its index and the canonical patterns so far.
unfoldable pub check_paths : ℕ → List Bytes → List Bytes → Result RuleIssue (List Bytes)
check_paths index paths [] = ok paths
check_paths index paths (raw_path ∷ rest) = do
  path ← map_err (path_invalid index) (validate_path raw_path)
  fail_if (any (λ existing. paths_overlap existing path) paths) path_overlap
  check_paths (suc index) (paths ++ path ∷ []) rest

unfoldable pub check_username : ℕ → InjectionFormat → Option Bytes → Result RuleIssue (Unit {0})
check_username index basic_password (some username) =
    map_err (username_invalid index) (validate_basic_username username)
check_username index basic_password none = err (username_required index)
check_username index _ (some username) = err (username_unexpected index)
check_username index _ none = ok tt

-- The loop over the injections, with its index and the header names seen, in lower case.
unfoldable pub check_injections :
    ℕ → List Bytes → List HeaderInjection → Result RuleIssue (List HeaderInjection)
check_injections index headers [] = ok []
check_injections index headers (injection ∷ rest) = do
  header ← map_err (header_invalid index) (validate_header injection.header)
  fail_if (any (λ h. eq h (to_ascii_lowercase header)) headers) (header_duplicate index)
  map_err (secret_invalid index) (validate_secret_id injection.secret)
  check_username index injection.format injection.username
  checked ← check_injections (suc index) (headers ++ to_ascii_lowercase header ∷ []) rest
  ok (record injection { header = header } ∷ checked)

unfoldable pub validate_rule : HostRule → Bool → Result RuleIssue HostRule
validate_rule rule has_intercept_features = do
  fail_if (is_empty rule.ports) ports_empty
  check_ports [] rule.ports
  fail_if (is_tunnel rule.mode && has_intercept_features) tunnel_features
  paths ← check_paths 0 [] rule.paths
  injections ← check_injections 0 [] rule.injections
  ok (record rule { paths = paths; injections = injections })

abbrev is_some {ℓ} : {A : Type ℓ} → Option A → Bool
is_some none = false
is_some (some a) = true

-- `unwrap_or_default`, on an optional list.
abbrev or_empty : {A : Type 0} → Option (List A) → List A
or_empty none = []
or_empty (some xs) = xs

abbrev default_mode : Option RuleMode → Bool → RuleMode
default_mode (some mode) features = mode
default_mode none true = RuleMode.intercept
default_mode none false = RuleMode.tunnel

abbrev to_injections : List RawHeaderInjection → List HeaderInjection
to_injections [] = []
to_injections (raw ∷ rest) =
    record {
      header = raw.header;
      secret = raw.secret;
      format = raw.format;
      username = raw.username;
    }
    ∷ to_injections rest

unfoldable pub has_features : RawNamedRule → Bool
has_features raw = is_some raw.paths || is_some raw.inject

unfoldable pub to_rule : Bytes → RawNamedRule → HostRule
unfolding has_features
to_rule host raw = record {
  host = host;
  mode = default_mode raw.mode (has_features raw);
  ports = raw.ports;
  paths = or_empty raw.paths;
  injections = to_injections (or_empty raw.inject);
}

-- The `url` crate's parser is a parameter.
module _ (parse_host : Bytes → ParsedHost) where
  -- The loop over the rules, with its index and the hosts seen.
  unfoldable pub check_rules :
      ℕ → List Bytes → List (Bytes × RawNamedRule) → Result RulesIssue (List HostRule)
  check_rules index hosts [] = ok []
  check_rules index hosts ((raw_host, raw) ∷ rest) = do
    host ← map_err (host_invalid index) (normalize_dns_name parse_host raw_host)
    fail_if (any (λ h. eq h host) hosts) (host_duplicate index)
    rule ← map_err (rule_invalid index) (validate_rule (to_rule host raw) (has_features raw))
    rules ← check_rules (suc index) (hosts ++ host ∷ []) rest
    ok (rule ∷ rules)

  unfoldable pub validate_named_rules :
      List (Bytes × RawNamedRule) → Result RulesIssue (List HostRule)
  validate_named_rules raw_rules = check_rules 0 [] raw_rules
