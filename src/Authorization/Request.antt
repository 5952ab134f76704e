-- ===== src/Authorization/Request.antt =====
-- Which decrypted requests a policy admits, and with which path and credentials.
use baffle.Prelude.{
  ◌≡◌, ◌≢◌, refl, sym, ap, ◌∙◌, ◌⊎◌, inl, inr, Bool, true, false, ◌&&◌, Option, none, some, List,
  [], ◌∷◌, ok, ok_or, arith, bind-eq-ok, fail_if-eq-ok, ok_or-eq-ok, ok-injective, ap₂, ◌↔◌,
}
use baffle.Prelude.Text.{Bytes, is_empty}
use baffle.Prelude.Assoc.{get}
use baffle.Policy.Dns.{ParsedHost}
use baffle.Authorization.{
  invalid_authority, denied, Destination, RequestFacts, CompiledRule, CompiledCredential,
  SessionPolicy, has_port, rule_for, canonical_authorized_path, is_misdirected,
  optional_destination, host_destination, differs, is_none, is_unbound, parse_authority_text,
  authorize_intercepted_request, authorize_connect_authority,
}
use baffle.Authorization.Connect.{authorize_connect_iff}
use baffle.Authorization.Authority.{Agrees, same_destination_refl}
use baffle.Authorization.Forwards.{
  Forwards, canonical_authorized_path-Forwards, Forwards-canonical_authorized_path, rule_for-found,
  found-rule_for, bound_parts, parts_bound, differs-some,
}

module _ (parse_host : Bytes → ParsedHost) where
  abbrev pub NamedBy : Option Bytes → Destination → Type 0
  NamedBy authority d =
      (authority ≡ none)
      ⊎ ((text : Bytes) × (authority ≡ some text)
          × (parse_authority_text parse_host text (some 443) ≡ ok d))

  -- What an admitted request has shown.
  pub record Admitted (policy : SessionPolicy) (facts : RequestFacts) (connect_authority : Bytes)
      (credentials : List CompiledCredential) (forwarded : Option Bytes) : Type 0 where
    pub destination : Destination
    pub rule : CompiledRule
    pub connect : parse_authority_text parse_host connect_authority (some 443) ≡ ok destination
    pub directed : is_misdirected facts ≡ false
    pub uri : NamedBy facts.uri_authority destination
    pub host : Agrees parse_host facts.host_headers destination
    pub named : (facts.uri_authority ≢ none) ⊎ (facts.host_headers ≢ [])
    pub found : get destination.host policy.rules ≡ some rule
    pub port : has_port rule.ports destination.port ≡ true
    pub path : Forwards rule facts.path forwarded
    pub injected : credentials ≡ rule.credentials

  uri_cases :
      (authority : Option Bytes) (uri : Option Destination) (d : Destination)
      → optional_destination parse_host authority ≡ ok uri
      → differs uri d ≡ false
      → NamedBy authority d × (is_none uri ≡ is_none authority)
  uri_cases none uri d e same = (inl refl, ap is_none (sym (ok-injective e)))
  uri_cases (some text) uri d e same =
      let (c, ec, e1) = bind-eq-ok (parse_authority_text parse_host text (some 443)) _ e in
      let (agrees, given) = differs-some c d uri (ok-injective e1) same in
      (inr (text, refl, ec ∙ ap ok agrees), given)

  host_cases :
      (headers : List Bytes) (host : Option Destination) (d : Destination)
      → host_destination parse_host headers ≡ ok host
      → differs host d ≡ false
      → Agrees parse_host headers d × (is_none host ≡ is_empty headers)
  unfolding host_destination
  host_cases [] host d e same = (inl refl, ap is_none (sym (ok-injective e)))
  host_cases (text ∷ []) host d e same =
      let (c, ec, e1) = bind-eq-ok (parse_authority_text parse_host text (some 443)) _ e in
      let (agrees, given) = differs-some c d host (ok-injective e1) same in
      (inr (text, refl, ec ∙ ap ok agrees), given)
  host_cases (text ∷ other ∷ rest) host d e same = absurd (ground arith)

  named_uri :
      (authority : Option Bytes) (d : Destination)
      → NamedBy authority d
      → (uri : Option Destination) × (optional_destination parse_host authority ≡ ok uri)
        × (differs uri d ≡ false)
        × (is_none uri ≡ is_none authority)
  named_uri authority d (inl e) = (none, rw e refl, refl, ap is_none (sym e))
  named_uri authority d (inr (text, e, p)) =
      (some d, rw (e, p) refl, ground (arith, same_destination_refl d), ap is_none (sym e))

  named_host :
      (headers : List Bytes) (d : Destination)
      → Agrees parse_host headers d
      → (host : Option Destination) × (host_destination parse_host headers ≡ ok host)
        × (differs host d ≡ false)
        × (is_none host ≡ is_empty headers)
  unfolding host_destination
  named_host headers d (inl e) = (none, rw e refl, refl, ap is_empty (sym e))
  named_host headers d (inr (text, e, p)) =
      (some d, rw (e, p) refl, ground (arith, same_destination_refl d), ap is_empty (sym e))

  not_both_absent :
      (authority : Option Bytes) (headers : List Bytes)
      → (authority ≢ none) ⊎ (headers ≢ [])
      → (is_none authority && is_empty headers) ≡ false
  not_both_absent none [] (inl n) = absurd (n refl)
  not_both_absent none [] (inr n) = absurd (n refl)
  not_both_absent none (h ∷ headers) n = refl
  not_both_absent (some text) headers n = refl

  one_named :
      (authority : Option Bytes) (headers : List Bytes) (a b : Bool)
      → a ≡ is_none authority
      → b ≡ is_empty headers
      → (a && b) ≡ false
      → (authority ≢ none) ⊎ (headers ≢ [])
  one_named (some text) headers a b ea eb h = inl (λ e. absurd (ground arith))
  one_named none (text ∷ headers) a b ea eb h = inr (λ e. absurd (ground arith))
  one_named none [] a b ea eb h = absurd (ground arith)

  module _ (policy : SessionPolicy) (facts : RequestFacts) (connect_authority : Bytes)
      (credentials : List CompiledCredential) (forwarded : Option Bytes) where
    authorize_intercepted-Admitted :
        authorize_intercepted_request parse_host policy facts connect_authority
          ≡ ok (credentials, forwarded)
        → Admitted policy facts connect_authority credentials forwarded
    unfolding authorize_intercepted_request
    authorize_intercepted-Admitted e =
        let (directed, e1) = fail_if-eq-ok (is_misdirected facts) invalid_authority _ e in
        let (d, ed, e2) =
          bind-eq-ok (parse_authority_text parse_host connect_authority (some 443)) _ e1 in
        let (uri, eu, e3) = bind-eq-ok (optional_destination parse_host facts.uri_authority) _ e2 in
        let (host, eh, e4) = bind-eq-ok (host_destination parse_host facts.host_headers) _ e3 in
        let (bound, e5) = fail_if-eq-ok (is_unbound uri host d) invalid_authority _ e4 in
        let (same_uri, same_host, one) = bound_parts uri host d bound in
        let (rule, er, e6) = bind-eq-ok (ok_or (rule_for policy d) denied) _ e5 in
        let (path, ep, e7) = bind-eq-ok (canonical_authorized_path rule facts.path) _ e6 in
        let result = ok-injective e7 in
        let (found, port) =
          rule_for-found policy d rule (ok_or-eq-ok (rule_for policy d) denied er) in
        let (by_uri, none_uri) = uri_cases facts.uri_authority uri d eu same_uri in
        let (by_host, none_host) = host_cases facts.host_headers host d eh same_host in
        record {
          destination = d;
          rule = rule;
          connect = ed;
          directed = directed;
          uri = by_uri;
          host = by_host;
          named =
              one_named facts.uri_authority facts.host_headers (is_none uri) (is_none host) none_uri
                none_host one;
          found = found;
          port = port;
          path =
              canonical_authorized_path-Forwards rule facts.path forwarded
                (ep ∙ ap ok (ap (λ (r : List CompiledCredential × Option Bytes). r.1) result));
          injected = sym (ap (λ (r : List CompiledCredential × Option Bytes). r.0) result);
        }

    Admitted-authorize_intercepted :
        Admitted policy facts connect_authority credentials forwarded
        → authorize_intercepted_request parse_host policy facts connect_authority
          ≡ ok (credentials, forwarded)
    unfolding authorize_intercepted_request
    Admitted-authorize_intercepted v =
        let (uri, eu, same_uri, none_uri) = named_uri facts.uri_authority v.destination v.uri in
        let (host, eh, same_host, none_host) = named_host facts.host_headers v.destination v.host in
        let one : (is_none uri && is_none host) ≡ false =
          ap₂ ◌&&◌ none_uri none_host
          ∙ not_both_absent facts.uri_authority facts.host_headers v.named in
        let bound : is_unbound uri host v.destination ≡ false =
          parts_bound uri host v.destination same_uri same_host one in
        rw (
          v.directed,
          v.connect,
          eu,
          eh,
          bound,
          found-rule_for policy v.destination v.rule v.found v.port,
          Forwards-canonical_authorized_path v.rule facts.path forwarded v.path,
          v.injected,
        )

    -- A decrypted request is admitted, with credentials and a path to forward, exactly if it is no
    -- CONNECT and not of another scheme than https, its target and its one Host header, of which
    -- one at least is there, both name the destination of the tunnel, the policy has a rule for that
    -- host and port whose credentials these are, and its path, in canonical form, matches a pattern
    -- of the rule, where the rule has patterns.
    pub authorize_intercepted_iff :
        (authorize_intercepted_request parse_host policy facts connect_authority
          ≡ ok (credentials, forwarded))
        ↔ Admitted policy facts connect_authority credentials forwarded
    authorize_intercepted_iff = (authorize_intercepted-Admitted, Admitted-authorize_intercepted)

    -- A request is admitted only in a tunnel that the policy would admit, by the rule whose
    -- credentials the request is given: the fallback for unmatched hosts never admits a request.
    pub authorize_intercepted-connect :
        authorize_intercepted_request parse_host policy facts connect_authority
          ≡ ok (credentials, forwarded)
        → (d : Destination) × (rule : CompiledRule) × (authorize_connect_authority parse_host policy
              connect_authority []
            ≡ ok (rule.mode, d))
          × (get d.host policy.rules ≡ some rule)
          × (credentials ≡ rule.credentials)
    authorize_intercepted-connect e =
        let v = authorize_intercepted-Admitted e in
        (
          v.destination,
          v.rule,
          (authorize_connect_iff parse_host policy connect_authority [] v.rule.mode v.destination).1
              (v.connect, inl refl, inl (v.rule, v.found, v.port, refl)),
          v.found,
          v.injected,
        )
