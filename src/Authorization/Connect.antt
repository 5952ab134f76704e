-- ===== src/Authorization/Connect.antt =====
-- Which CONNECT requests a policy admits.
use baffle.Prelude.{
  ℕ, ◌≡◌, refl, ap, ◌∙◌, ◌↔◌, ◌⊎◌, inl, inr, true, Option, none, some, List, [], ok, arith,
  bind-eq-ok, Option-cases, Bool-cases, Result-cases,
}
use baffle.Prelude.Text.{Bytes, eq→≡, eq_refl}
use baffle.Prelude.Assoc.{get}
use baffle.Policy.Types.{UnmatchedHostPolicy, RuleMode}
use baffle.Policy.Dns.{ParsedHost, normalize_dns_name}
use baffle.Authorization.{
  Destination, CompiledRule, SessionPolicy, has_port, permits_unmatched, decide_connect,
  parse_authority_text, validate_host_header_text, authorize_connect_authority,
  permits_tls_interception_authority,
}
use baffle.Authorization.Authority.{
  Agrees, validate_host_header-Agrees, Agrees-validate_host_header,
}

-- What a policy says of a destination: the rule of its host lists the port, or the host has no rule
-- and the policy tunnels unmatched hosts on port 443.
abbrev pub Permits : SessionPolicy → Destination → RuleMode → Type 0
Permits policy d mode =
    ((rule : CompiledRule) × (get d.host policy.rules ≡ some rule)
      × (has_port rule.ports d.port ≡ true)
      × (mode ≡ rule.mode))
    ⊎ ((get d.host policy.rules ≡ none)
        × (policy.unmatched ≡ UnmatchedHostPolicy.tunnel)
        × (d.port ≡ 443)
        × (mode ≡ RuleMode.tunnel))

some_name : (a b : Bytes) → some a ≡ some b → a ≡ b
some_name a b e = ground arith

unmatched_lem :
    (u : UnmatchedHostPolicy) (port : ℕ)
    → permits_unmatched u port ≡ true
    → (u ≡ UnmatchedHostPolicy.tunnel) × (port ≡ 443)
unmatched_lem u port h = ground arith

decide_connect-Permits :
    (policy : SessionPolicy) (d d' : Destination) (mode : RuleMode)
    → decide_connect policy d ≡ ok (mode, d')
    → (d' ≡ d) × Permits policy d mode
unfolding decide_connect
decide_connect-Permits policy d d' mode e = elim (Option-cases (get d.host policy.rules)) [
  | inl absent ↦ elim (Bool-cases (permits_unmatched policy.unmatched d.port)) [
    | inl open_host ↦
        let (tunnels, port) = unmatched_lem policy.unmatched d.port open_host in
        (ground arith, inr (absent, tunnels, port, ground arith))
    | inr closed ↦ absurd (ground arith)
  ]
  | inr (rule, found) ↦ (ground arith, inl (rule, found, ground arith, ground arith))
]

Permits-decide_connect :
    (policy : SessionPolicy) (d : Destination) (mode : RuleMode)
    → Permits policy d mode
    → decide_connect policy d ≡ ok (mode, d)
unfolding decide_connect
Permits-decide_connect policy d mode (inl (rule, found, port, same)) = ground arith
Permits-decide_connect policy d mode (inr (absent, tunnels, port, same)) = ground arith

module _ (parse_host : Bytes → ParsedHost) (policy : SessionPolicy) where
  -- A CONNECT request is admitted, in a mode and for a destination, exactly if its authority names
  -- the destination, its host headers are at most one and name the same destination, and the policy
  -- permits the destination in that mode. So the rule of a host that has one decides alone.
  pub authorize_connect_iff :
      (authority : Bytes) (headers : List Bytes) (mode : RuleMode) (d : Destination)
      → (authorize_connect_authority parse_host policy authority headers ≡ ok (mode, d)) ↔ (
          (parse_authority_text parse_host authority (some 443) ≡ ok d)
          × Agrees parse_host headers d
          × Permits policy d mode)
  unfolding authorize_connect_authority
  authorize_connect_iff authority headers mode d = (
    λ e.
        let (c, ec, e1) = bind-eq-ok (parse_authority_text parse_host authority (some 443)) _ e in
        let (u, eh, e2) = bind-eq-ok (validate_host_header_text parse_host headers c) _ e1 in
        let (same, permits) = decide_connect-Permits policy c d mode e2 in
        rw same (ec, validate_host_header-Agrees parse_host headers c eh, permits),
    λ h.
        rw (h.0, Agrees-validate_host_header parse_host headers d h.1)
          (Permits-decide_connect policy d mode h.2),
  )

  interception_needs :
      (authority name : Bytes)
      → permits_tls_interception_authority parse_host policy authority (some name) ≡ true
      → (given : Bytes) × (d : Destination) × (some name ≡ some given)
        × (authorize_connect_authority parse_host policy authority [] ≡ ok (RuleMode.intercept, d))
        × (normalize_dns_name parse_host given ≡ ok d.host)
  unfolding permits_tls_interception_authority
  interception_needs authority name e =
      elim (Result-cases (authorize_connect_authority parse_host policy authority [])) [
        | inr (refused, ea) ↦ absurd (ground arith)
        | inl ((mode, d), ea) ↦ elim (Result-cases (normalize_dns_name parse_host name)) [
          | inr (bad, en) ↦ absurd (ground arith)
          | inl (host, en) ↦
              (name, d, refl, ground arith, en ∙ ap ok (eq→≡ host d.host (ground arith)))
        ]
      ]

  interception_suffices :
      (authority name : Bytes) (d : Destination)
      → authorize_connect_authority parse_host policy authority [] ≡ ok (RuleMode.intercept, d)
      → normalize_dns_name parse_host name ≡ ok d.host
      → permits_tls_interception_authority parse_host policy authority (some name) ≡ true
  unfolding permits_tls_interception_authority
  interception_suffices authority name d admitted accepted = ground (arith, eq_refl d.host)

  -- TLS interception is entered exactly if the CONNECT authority alone is admitted by an intercept
  -- rule and the server name is given and normalizes to that destination's host.
  pub permits_tls_interception_iff :
      (authority : Bytes) (server_name : Option Bytes)
      → (permits_tls_interception_authority parse_host policy authority server_name ≡ true) ↔ (
          (name : Bytes) × (d : Destination) × (server_name ≡ some name)
          × (authorize_connect_authority parse_host policy authority []
              ≡ ok (RuleMode.intercept, d))
          × (normalize_dns_name parse_host name ≡ ok d.host))
  permits_tls_interception_iff authority none = (
    λ e. absurd (
        unfold permits_tls_interception_authority in
        ground (arith, Result-cases (authorize_connect_authority parse_host policy authority []))),
    λ (name, d, given, admitted, same). absurd (ground arith),
  )
  permits_tls_interception_iff authority (some name) = (
    interception_needs authority name,
    λ (given, d, same, admitted, host).
        let accepted : normalize_dns_name parse_host name ≡ ok d.host =
          ap (normalize_dns_name parse_host) (some_name name given same) ∙ host in
        interception_suffices authority name d admitted accepted,
  )
