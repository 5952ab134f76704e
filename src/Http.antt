-- ===== src/Http.antt =====
-- src/proxy_runtime/rama/http.rs: the policy layer over decrypted requests, and the managed
-- credentials that it puts into their headers. The header map and the conversions of header names
-- and values (`rama::http`) and base64 are parameters.
pub mod Substitute
pub mod Turn
pub mod Apply
pub mod Serve
use baffle.Prelude.{
  ℕ, ◌+◌, ◌≡◌, Bool, true, false, not, ◌&&◌, ◌||◌, Option, none, some, List, [], ◌∷◌, ◌++◌, ◌==◌,
  if◌then◌else◌, Result, ok, err,
}
use baffle.Prelude.Text.{Bytes, bytes, eq, any, is_empty, split, split_once, eq_ignore_ascii_case}
use baffle.Prelude.Assoc.{Assoc, get}
use baffle.Policy.Types.{
  CredentialMode, InjectionFormat, HeaderInjection, inject, substitute, disabled, is_disabled,
}
use baffle.Policy.Dns.{ParsedHost}
use baffle.Telemetry.{increment}
use baffle.Authorization.{
  AuthorizationError, invalid_authority, denied, RequestFacts, CompiledCredential, SessionPolicy,
  authorize_intercepted_request,
}

-- What the code takes from `rama::http` and `base64`, with what their documents say of it.
pub record HttpLibrary : Type 1 where
  pub Headers : Type 0
  -- `HeaderName::try_from`, `HeaderValue::try_from` and `HeaderValue::to_str`.
  pub header_name : Bytes → Option Bytes
  pub header_value : Bytes → Option Bytes
  pub to_str : Bytes → Option Bytes
  pub get_all : Headers → Bytes → List Bytes
  pub remove : Headers → Bytes → Headers
  pub insert : Headers → Bytes → Bytes → Headers
  -- `STANDARD.encode` and `STANDARD.decode`.
  pub encode : Bytes → Bytes
  pub decode : Bytes → Option Bytes
  pub get_all-remove :
      (h : Headers) (n m : Bytes) → get_all (remove h n) m ≡ (if eq n m then [] else get_all h m)
  pub get_all-insert :
      (h : Headers) (n v m : Bytes)
      → get_all (insert h n v) m ≡ (if eq n m then v ∷ [] else get_all h m)

-- `str::trim`, on the ASCII text of a header value.
abbrev is_space : ℕ → Bool
is_space b = b == 32 || (b == 9 || b == 10 || b == 11 || b == 12 || b == 13)

unfoldable pub trim_start : Bytes → Bytes
trim_start [] = []
trim_start (c ∷ rest) = if is_space c then trim_start rest else c ∷ rest

unfoldable pub trim_end : Bytes → Bytes
trim_end [] = []
trim_end (c ∷ rest) =
    let kept = trim_end rest in if is_empty kept && is_space c then [] else c ∷ kept

module _ (lib : HttpLibrary) where
  open lib use {Headers, header_name, header_value, to_str, get_all, remove, insert, encode, decode}

  pub record Request : Type 0 where
    pub method : Bytes
    pub scheme : Option Bytes
    pub uri_authority : Option Bytes
    pub path : Option Bytes
    pub headers : Headers

  unfoldable pub format_injected_secret : HeaderInjection → Bytes → Option Bytes
  format_injected_secret injection secret = elim injection.format [
    | InjectionFormat.raw ↦ some secret
    | InjectionFormat.bearer ↦ some (bytes "Bearer " ++ secret)
    | InjectionFormat.basic_password ↦ elim injection.username [
      | none ↦ none
      | some username ↦ some (bytes "Basic " ++ encode (username ++ (b':' ∷ secret)))
    ]
  ]

  unfoldable pub substitute_bearer : Bytes → Bytes → Bytes → Option Bytes
  substitute_bearer value fake real = elim (split_once 32 value) [
    | none ↦ none
    | some (scheme, secret) ↦
        if eq_ignore_ascii_case scheme (bytes "Bearer") && eq secret fake
        then some (scheme ++ (32 ∷ real))
        else none
  ]

  -- The decoded credentials: `position` of the first colon, and the slices around it.
  unfoldable pub replace_password : Bytes → Bytes → Bytes → Bytes → Option Bytes
  replace_password decoded username fake real = elim (split_once b':' decoded) [
    | none ↦ none
    | some (user, password) ↦
        if eq user username && eq password fake then some (user ++ (b':' ∷ real)) else none
  ]

  unfoldable pub substitute_basic : Bytes → Option Bytes → Bytes → Bytes → Option Bytes
  substitute_basic value username fake real = elim (split_once 32 value) [
    | none ↦ none
    | some (scheme, encoded) ↦
        if not (eq_ignore_ascii_case scheme (bytes "Basic")) then none else elim username [
          | none ↦ none
          | some user ↦ elim (decode encoded) [
            | none ↦ none
            | some decoded ↦ elim (replace_password decoded user fake real) [
              | none ↦ none
              | some replacement ↦ some (scheme ++ (32 ∷ encode replacement))
            ]
          ]
        ]
  ]

  unfoldable pub substitute_value : HeaderInjection → Bytes → Bytes → Bytes → Option Bytes
  substitute_value injection value fake real = elim injection.format [
    | InjectionFormat.raw ↦ if eq value fake then some real else none
    | InjectionFormat.bearer ↦ substitute_bearer value fake real
    | InjectionFormat.basic_password ↦ substitute_basic value injection.username fake real
  ]

  -- The text of the one value of a header; none where it is absent, repeated or no text.
  abbrev pub single : List Bytes → Option Bytes
  single [] = none
  single (value ∷ []) = to_str value
  single (value ∷ other ∷ rest) = none

  unfoldable pub substitute_header_secret : Headers → HeaderInjection → Bytes → Bytes → Option Bytes
  substitute_header_secret headers injection fake real = elim (header_name injection.header) [
    | none ↦ none
    | some name ↦ elim (single (get_all headers name)) [
      | none ↦ none
      | some value ↦ substitute_value injection value fake real
    ]
  ]

  -- The new value of an enabled credential's header: `err` where the request is refused, and
  -- `ok none` where the header stays as it is.
  unfoldable pub credential_value :
      Headers → CompiledCredential → Bytes → Result (Unit {0}) (Option Bytes)
  credential_value headers credential secret = elim credential.mode [
    | CredentialMode.inject ↦ elim (format_injected_secret credential.injection secret) [
      | none ↦ err tt
      | some value ↦ ok (some value)
    ]
    | CredentialMode.substitute ↦ elim credential.fake_value [
      | none ↦ ok none
      | some fake ↦ ok (substitute_header_secret headers credential.injection fake secret)
    ]
    | CredentialMode.disabled ↦ ok none
  ]

  abbrev pub push_value :
      Bytes → Option Bytes → List (Bytes × Bytes) → Result (Unit {0}) (List (Bytes × Bytes))
  push_value name none values = ok values
  push_value name (some text) values = elim (header_value text) [
    | none ↦ err tt
    | some value ↦ ok ((name, value) ∷ values)
  ]

  -- The loop over the credentials: every value is computed from the request as it came.
  unfoldable pub collect_values :
      Headers → Assoc Bytes → List CompiledCredential → Result (Unit {0}) (List (Bytes × Bytes))
  collect_values headers secrets [] = ok []
  collect_values headers secrets (credential ∷ rest) =
      let later = collect_values headers secrets rest in
      if is_disabled credential.mode
      then later
      else elim (header_name credential.injection.header) [
        | none ↦ err tt
        | some name ↦ elim (get credential.injection.secret secrets) [
          | none ↦ err tt
          | some secret ↦ elim (credential_value headers credential secret) [
            | err e ↦ err tt
            | ok value ↦ elim later [ err e ↦ err tt | ok values ↦ push_value name value values ]
          ]
        ]
      ]

  unfoldable pub set_headers : Headers → List (Bytes × Bytes) → Headers
  set_headers headers [] = headers
  set_headers headers ((name, value) ∷ rest) =
      set_headers (insert (remove headers name) name value) rest

  unfoldable pub apply_header_credentials :
      Headers → List CompiledCredential → Assoc Bytes → Result (Unit {0}) Headers
  apply_header_credentials headers credentials secrets =
      elim (collect_values headers secrets credentials) [
        | err e ↦ err tt
        | ok values ↦ ok (set_headers headers values)
      ]

  abbrev has_upgrade_token : List Bytes → Bool
  has_upgrade_token [] = false
  has_upgrade_token (value ∷ rest) =
      elim (to_str value) [
        | none ↦ false
        | some text ↦
            any (λ token. eq_ignore_ascii_case (trim_start (trim_end token)) (bytes "upgrade"))
              (split b',' text)
      ]
      || has_upgrade_token rest

  unfoldable pub request_has_unsupported_upgrade : Headers → Bool
  request_has_unsupported_upgrade headers =
      not (is_empty (get_all headers (bytes "upgrade")))
      || has_upgrade_token (get_all headers (bytes "connection"))

  -- The texts of the Host headers; none where a value is no text.
  abbrev pub texts : List Bytes → Option (List Bytes)
  texts [] = some []
  texts (value ∷ rest) = elim (to_str value) [
    | none ↦ none
    | some text ↦ elim (texts rest) [ none ↦ none | some later ↦ some (text ∷ later) ]
  ]

  -- The answer to a request: a status of the proxy's own, or what goes to the inner service.
  pub data Answer : Type 0 where
    respond : ℕ → Answer
    forward : Request → Answer

  unfoldable pub denied_response : AuthorizationError → Answer
  denied_response invalid_authority = respond 400
  denied_response denied = respond 403

  abbrev path_or_root : Option Bytes → Bytes
  path_or_root none = bytes "/"
  path_or_root (some path) = path

  unfoldable pub facts_of : Request → List Bytes → RequestFacts
  facts_of request host_headers = record {
    method = request.method;
    scheme = request.scheme;
    uri_authority = request.uri_authority;
    path = path_or_root request.path;
    host_headers = host_headers;
  }

  abbrev set_path : Option Bytes → Request → Request
  set_path none request = request
  set_path (some path) request = record request { path = some path }

  unfoldable pub has_enabled : List CompiledCredential → Bool
  has_enabled credentials = any (λ c. not (is_disabled c.mode)) credentials

  -- Behind the authorization, with the counter of denied requests, which wraps.
  unfoldable pub serve_authorized :
      Assoc Bytes → ℕ → Request → List CompiledCredential → Option Bytes → ℕ × Answer
  serve_authorized secrets denials request credentials canonical_path =
      if has_enabled credentials && request_has_unsupported_upgrade request.headers
      then (increment denials, denied_response denied)
      else elim (apply_header_credentials request.headers credentials secrets) [
        | err e ↦ (increment denials, denied_response denied)
        | ok headers ↦
            (denials, forward (record (set_path canonical_path request) { headers = headers }))
      ]

  module _ (parse_host : Bytes → ParsedHost) where
    unfoldable pub serve : SessionPolicy → Bytes → Assoc Bytes → ℕ → Request → ℕ × Answer
    serve policy connect_authority secrets denials request =
        elim (texts (get_all request.headers (bytes "host"))) [
          | none ↦ (denials, denied_response invalid_authority)
          | some host_headers ↦
              elim (authorize_intercepted_request parse_host policy (facts_of request host_headers)
                connect_authority) [
                  | err error ↦ (increment denials, denied_response error)
                  | ok (credentials, canonical_path) ↦
                      serve_authorized secrets denials request credentials canonical_path
                ]
        ]
