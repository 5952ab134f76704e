-- ===== src/Authorization/Authority.antt =====
-- Parsed authorities and host headers.
use baffle.Prelude.{
  ℕ, ◌≤◌, ◌<◌, ◌≡◌, refl, ap, ◌∙◌, subst, ◌⊎◌, inl, inr, Bool, true, false, not, some, List, [],
  ◌∷◌, ◌==◌, ok, map_err, arith, bind-eq-ok, fail_if-eq-ok, map_err-eq-ok, ok-injective,
  Option-cases, Bool-cases, ◌*◌, ◌+◌, ◌-◌,
}
use baffle.Prelude.Text.{Bytes, eq→≡, eq_refl, split_once}
use baffle.Policy.Dns.{ParsedHost, normalize_dns_name}
use baffle.Authorization.{
  invalid_authority, Destination, same_destination, parse_digits, parse_u16, is_bad_authority,
  host_and_port, parse_authority_text, validate_host_header_text,
}

pub same_destination→≡ : (a b : Destination) → same_destination a b ≡ true → a ≡ b
same_destination→≡ a b h = ground (arith, eq→≡ a.host b.host)

pub same_destination_refl : (a : Destination) → same_destination a a ≡ true
same_destination_refl a = ground (arith, eq_refl a.host)

pub not-eq-false : (b : Bool) → not b ≡ false → b ≡ true
not-eq-false b h = ground arith

parse_digits-le :
    (value : ℕ) (text : Bytes) (port : ℕ)
    → value ≤ 65535
    → parse_digits value text ≡ some port
    → port ≤ 65535
unfolding parse_digits
parse_digits-le value [] port h e = ground arith
parse_digits-le value (digit ∷ rest) port h e =
    ground (arith, parse_digits-le (value * 10 + (digit - b'0')) rest port)

parse_u16-le : (text : Bytes) (port : ℕ) → parse_u16 text ≡ some port → port ≤ 65535
unfolding parse_u16
parse_u16-le [] port e = absurd (ground arith)
parse_u16-le (sign ∷ []) port e = ground (arith, parse_digits-le 0 (sign ∷ []) port)
parse_u16-le (sign ∷ next ∷ rest) port e = elim (Bool-cases (sign == b'+')) [
  | inl plus ↦ parse_digits-le 0 (next ∷ rest) port (omega arith) (ground arith)
  | inr bare ↦ parse_digits-le 0 (sign ∷ next ∷ rest) port (omega arith) (ground arith)
]

host_and_port-le :
    (authority : Bytes) (default : ℕ) {parts : Bytes × ℕ}
    → default ≤ 65535
    → host_and_port authority (some default) ≡ ok parts
    → parts.1 ≤ 65535
unfolding host_and_port
host_and_port-le authority default {parts} h e = elim (Option-cases (split_once b':' authority)) [
  | inl missing ↦ ground arith
  | inr ((host, port), found) ↦ ground (arith, parse_u16-le port parts.1)
]

module _ (parse_host : Bytes → ParsedHost) where
  -- The one host header, if there is one, names the destination.
  abbrev pub Agrees : List Bytes → Destination → Type 0
  Agrees headers d =
      (headers ≡ [])
      ⊎ ((h : Bytes) × (headers ≡ h ∷ []) × (parse_authority_text parse_host h (some 443) ≡ ok d))

  pub validate_host_header-Agrees :
      (headers : List Bytes) (d : Destination)
      → validate_host_header_text parse_host headers d ≡ ok tt
      → Agrees headers d
  unfolding validate_host_header_text
  validate_host_header-Agrees [] d e = inl refl
  validate_host_header-Agrees (h ∷ []) d e =
      let (d', ep, e1) = bind-eq-ok (parse_authority_text parse_host h (some 443)) _ e in
      let (same, e2) = fail_if-eq-ok (not (same_destination d' d)) invalid_authority _ e1 in
      inr
        (h, refl, ep ∙ ap ok (same_destination→≡ d' d (not-eq-false (same_destination d' d) same)))
  validate_host_header-Agrees (h ∷ g ∷ rest) d e = absurd (ground arith)

  pub Agrees-validate_host_header :
      (headers : List Bytes) (d : Destination)
      → Agrees headers d
      → validate_host_header_text parse_host headers d ≡ ok tt
  unfolding validate_host_header_text
  Agrees-validate_host_header headers d (inl e) = rw e
  Agrees-validate_host_header headers d (inr (h, e, p)) = rw (e, p, same_destination_refl d)

  -- An accepted authority has a port between 1 and 65535 and a host in its normal form.
  pub parse_authority_text_bounds :
      (authority : Bytes) (d : Destination)
      → parse_authority_text parse_host authority (some 443) ≡ ok d
      → (0 < d.port)
        × (d.port ≤ 65535)
        × ((host : Bytes) × (normalize_dns_name parse_host host ≡ ok d.host))
  unfolding parse_authority_text
  parse_authority_text_bounds authority d e =
      let (bad, e1) = fail_if-eq-ok (is_bad_authority authority) invalid_authority _ e in
      let (parts, ep, e2) = bind-eq-ok (host_and_port authority (some 443)) _ e1 in
      let (nz, e3) = fail_if-eq-ok (parts.1 == 0) invalid_authority _ e2 in
      let (host, eh, e4) =
        bind-eq-ok (map_err (λ _. invalid_authority) (normalize_dns_name parse_host parts.0)) _
          e3 in
      subst
        (λ (x : Destination).
          (0 < x.port)
          × (x.port ≤ 65535)
          × ((h : Bytes) × (normalize_dns_name parse_host h ≡ ok x.host)))
        (ok-injective e4)
        (
          ground arith,
          host_and_port-le authority 443 (omega arith) ep,
          (parts.0, map_err-eq-ok (λ _. invalid_authority) _ eh),
        )
