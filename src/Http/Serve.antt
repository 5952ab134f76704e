-- ===== src/Http/Serve.antt =====
-- What the policy layer passes on, and how it answers what it refuses.
use baffle.Prelude.{
  ℕ, ◌≡◌, sym, ap, ◌∙◌, ◌⊎◌, inl, inr, false, ◌&&◌, Option, none, some, List, ok, arith,
  Option-cases, Result-cases, Bool-cases,
}
use baffle.Prelude.Text.{Bytes, bytes}
use baffle.Prelude.Assoc.{Assoc}
use baffle.Policy.Dns.{ParsedHost}
use baffle.Telemetry.{increment}
use baffle.Authorization.{
  AuthorizationError, invalid_authority, denied, CompiledCredential, SessionPolicy,
  authorize_intercepted_request,
}
use baffle.Http.{
  HttpLibrary, Request, Answer, respond, forward, texts, facts_of, has_enabled, set_path,
  request_has_unsupported_upgrade, apply_header_credentials, serve_authorized, denied_response,
  serve,
}

module _ (lib : HttpLibrary) (parse_host : Bytes → ParsedHost) where
  open lib use {Headers, get_all}

  -- What stays as it was, and the path that is sent.
  abbrev pub Keeps : Option Bytes → Request lib → Request lib → Type 0
  Keeps path request sent =
      (sent.method ≡ request.method)
      × (sent.scheme ≡ request.scheme)
      × (sent.uri_authority ≡ request.uri_authority)
      × (sent.path ≡ (set_path lib path request).path)

  -- What stands behind a request that is passed on.
  pub record Forwarded (policy : SessionPolicy) (connect_authority : Bytes) (secrets : Assoc Bytes)
      (request sent : Request lib) : Type 0 where
    pub host_headers : List Bytes
    pub credentials : List CompiledCredential
    pub canonical_path : Option Bytes
    pub readable : texts lib (get_all request.headers (bytes "host")) ≡ some host_headers
    pub authorized :
        authorize_intercepted_request parse_host policy
          (facts_of lib request host_headers)
          connect_authority
        ≡ ok (credentials, canonical_path)
    pub no_upgrade :
        (has_enabled lib credentials && request_has_unsupported_upgrade lib request.headers) ≡ false
    pub applied : apply_header_credentials lib request.headers credentials secrets ≡ ok sent.headers
    pub kept : Keeps canonical_path request sent

  Keeps-sent :
      (path : Option Bytes) (request sent : Request lib) (headers : Headers)
      → record (set_path lib path request) { headers = headers } ≡ sent
      → Keeps path request sent
  Keeps-sent none request sent headers e = (
    ap (λ (r : Request lib). r.method) (sym e),
    ap (λ (r : Request lib). r.scheme) (sym e),
    ap (λ (r : Request lib). r.uri_authority) (sym e),
    ap (λ (r : Request lib). r.path) (sym e),
  )
  Keeps-sent (some path) request sent headers e = (
    ap (λ (r : Request lib). r.method) (sym e),
    ap (λ (r : Request lib). r.scheme) (sym e),
    ap (λ (r : Request lib). r.uri_authority) (sym e),
    ap (λ (r : Request lib). r.path) (sym e),
  )

  module _ (secrets : Assoc Bytes) (denials after : ℕ) (request : Request lib)
      (credentials : List CompiledCredential) (path : Option Bytes) where
    serve_authorized-forward :
        (sent : Request lib)
        → serve_authorized lib secrets denials request credentials path ≡ (after, forward sent)
        → (after ≡ denials)
          × ((has_enabled lib credentials && request_has_unsupported_upgrade lib request.headers)
              ≡ false)
          × (apply_header_credentials lib request.headers credentials secrets ≡ ok sent.headers)
          × Keeps path request sent
    unfolding serve_authorized denied_response
    serve_authorized-forward sent e =
        elim (Bool-cases
          (has_enabled lib credentials && request_has_unsupported_upgrade lib request.headers)) [
            | inl upgrade ↦ absurd (ground arith)
            | inr plain ↦
                elim (Result-cases
                  (apply_header_credentials lib request.headers credentials secrets)) [
                    | inr (bad, ea) ↦ absurd (ground arith)
                    | inl (headers, ea) ↦
                        let same : record (set_path lib path request) { headers = headers } ≡ sent =
                          ground arith in
                        (
                          ground arith,
                          plain,
                          ea ∙ ap (λ (r : Request lib). ok r.headers) same,
                          Keeps-sent path request sent headers same,
                        )
                  ]
          ]

    serve_authorized-respond :
        (status : ℕ)
        → serve_authorized lib secrets denials request credentials path ≡ (after, respond status)
        → (after ≡ increment denials) × (status ≡ 403)
    unfolding serve_authorized denied_response
    serve_authorized-respond status e =
        elim (Bool-cases
          (has_enabled lib credentials && request_has_unsupported_upgrade lib request.headers)) [
            | inl upgrade ↦ (ground arith, ground arith)
            | inr plain ↦
                elim (Result-cases
                  (apply_header_credentials lib request.headers credentials secrets)) [
                    | inr (bad, ea) ↦ (ground arith, ground arith)
                    | inl (headers, ea) ↦ absurd (ground arith)
                  ]
          ]

  denied_response-respond :
      (error : AuthorizationError) (count after status : ℕ)
      → ◌≡◌ {A = ℕ × Answer lib} (count, denied_response lib error) (after, respond status)
      → (after ≡ count) × ((status ≡ 400) ⊎ (status ≡ 403))
  unfolding denied_response
  denied_response-respond invalid_authority count after status e =
      (ground arith, inl (ground arith))
  denied_response-respond denied count after status e = (ground arith, inr (ground arith))

  module _ (policy : SessionPolicy) (connect_authority : Bytes) (secrets : Assoc Bytes)
      (denials after : ℕ) (request : Request lib) where
    -- A request that goes on to the origin was authorized by the session's policy for the tunnel's
    -- authority, asks for no upgrade where a credential is enabled, has the headers that the
    -- credentials give it and the canonical path, where its rule has patterns, and is otherwise as
    -- it came; and the counter of denied requests stays.
    pub serve-forward :
        (sent : Request lib)
        → serve lib parse_host policy connect_authority secrets denials request
          ≡ (after, forward sent)
        → (after ≡ denials) × Forwarded policy connect_authority secrets request sent
    unfolding serve denied_response
    serve-forward sent e =
        elim (Option-cases (texts lib (get_all request.headers (bytes "host")))) [
          | inl unreadable ↦ absurd (ground arith)
          | inr (host_headers, readable) ↦
              elim (Result-cases (
                authorize_intercepted_request parse_host policy (facts_of lib request host_headers)
                  connect_authority)) [
                    | inr (bad, refused) ↦ absurd (ground arith)
                    | inl ((credentials, path), authorized) ↦
                        let (same, plain, applied, kept) =
                          serve_authorized-forward secrets denials after request credentials path
                            sent (ground arith) in
                        (
                          same,
                          record {
                            host_headers = host_headers;
                            credentials = credentials;
                            canonical_path = path;
                            readable = readable;
                            authorized = authorized;
                            no_upgrade = plain;
                            applied = applied;
                            kept = kept;
                          },
                        )
                  ]
        ]

    -- A request that is answered by the proxy is refused with 400 or 403 and counted once as
    -- denied, modulo 2^64; the exception is a Host header that is no text, which gets 400 and is not counted.
    pub serve-respond :
        (status : ℕ)
        → serve lib parse_host policy connect_authority secrets denials request
          ≡ (after, respond status)
        → ((status ≡ 400) ⊎ (status ≡ 403))
          × ((after ≡ increment denials)
              ⊎ ((after ≡ denials)
                  × (status ≡ 400)
                  × (texts lib (get_all request.headers (bytes "host")) ≡ none)))
    unfolding serve denied_response
    serve-respond status e =
        elim (Option-cases (texts lib (get_all request.headers (bytes "host")))) [
          | inl unreadable ↦ (inl (ground arith), inr (ground arith, ground arith, unreadable))
          | inr (host_headers, readable) ↦
              elim (Result-cases (
                authorize_intercepted_request parse_host policy (facts_of lib request host_headers)
                  connect_authority)) [
                    | inr (bad, refused) ↦
                        let (counted, refusal) =
                          denied_response-respond bad (increment denials) after status
                            (ground arith) in
                        (refusal, inl counted)
                    | inl ((credentials, path), authorized) ↦
                        let (counted, status403) =
                          serve_authorized-respond secrets denials after request credentials path
                            status (ground arith) in
                        (inr status403, inl counted)
                  ]
        ]
