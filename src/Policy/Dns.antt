-- ===== src/Policy/Dns.antt =====
-- crates/baffle-client/src/policy.rs, `normalize_dns_name`.
pub mod Laws
use baffle.Prelude.{
  ℕ, Bool, not, ◌||◌, Option, none, some, List, [], ◌∷◌, ltb, ◌==◌, if◌then◌else◌, Result, ok, err,
  ◌>>◌, fail_if,
}
use baffle.Prelude.Text.{
  Bytes, bytes, length, any, all, is_empty, contains, starts_with, strip_suffix, ends_with, split,
  is_ascii, is_ascii_alphanumeric, to_ascii_lowercase,
}
use baffle.Policy.Ip.{is_ip_addr}

-- What the `url` crate's `Host::parse` answers.
pub data ParsedHost : Type 0 where
  domain : Bytes → ParsedHost
  ipv4 ipv6 malformed : ParsedHost

-- One constructor for each message.
pub data DnsError : Type 0 where
  not_exact ip_or_wildcard invalid_label invalid_host : DnsError

-- `text.strip_suffix('.').unwrap_or(text)`.
unfoldable pub without_final_dot : Bytes → Bytes
without_final_dot text = elim (strip_suffix text (bytes ".")) [ none ↦ text | some host ↦ host ]

unfoldable pub is_label_byte : ℕ → Bool
is_label_byte byte = is_ascii_alphanumeric byte || byte == b'-'

unfoldable pub is_bad_label : Bytes → Bool
is_bad_label label =
    is_empty label
    || ltb 63 (length label)
    || starts_with label (bytes "-")
    || ends_with label (bytes "-")
    || not (all is_label_byte label)

unfoldable pub is_bad_host : Bytes → Bool
is_bad_host host = is_empty host || ltb 253 (length host) || is_ip_addr host || not (is_ascii host)

abbrev pub accept_domain : ParsedHost → Result DnsError Bytes
accept_domain (domain name) = ok name
accept_domain ipv4 = err ip_or_wildcard
accept_domain ipv6 = err ip_or_wildcard
accept_domain malformed = err invalid_host

-- The `url` crate's parser is a parameter.
module _ (parse_host : Bytes → ParsedHost) where
  unfoldable pub normalize_dns_name : Bytes → Result DnsError Bytes
  normalize_dns_name input = do
    fail_if (is_empty input || contains input b'*') not_exact
    let host = without_final_dot (to_ascii_lowercase input)
    fail_if (is_bad_host host) ip_or_wildcard
    fail_if (any is_bad_label (split b'.' host)) invalid_label
    accept_domain (parse_host host)
