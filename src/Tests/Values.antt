-- ===== src/Tests/Values.antt =====
-- A policy document, the policy that it stands for, and simple instances of the parameters.
use baffle.Prelude.{refl, none, some, List, [], ◌∷◌, ◌++◌, if◌then◌else◌, false}
use baffle.Prelude.Text.{Bytes, bytes, eq, is_ascii, is_empty, to_ascii_lowercase}
use baffle.Policy.Types.{
  UnmatchedHostPolicy, RuleMode, InjectionFormat, CredentialMode, HeaderInjection, HostRule,
  SessionConfig,
}
use baffle.Policy.Dns.{ParsedHost, domain}
use baffle.Policy.Rules.{RawNamedRule}
use baffle.Policy.Document.{RawSessionConfig, named, pos}
use baffle.Credentials.{Crypto}
use baffle.Authorization.{CompiledCredential, CompiledRule, SessionPolicy, RequestFacts}
use baffle.Http.{HttpLibrary, Request}

-- Every name that passes the checks before the parser is a domain, and is given back as it is.
abbrev pub parse_host : Bytes → ParsedHost
parse_host name = domain name

-- A digest and an encoding that keep the text, so that a run can be read.
abbrev pub crypto : Crypto
crypto = record { hmac_sha256 = λ seed text. seed ++ text; base64url = λ text. text }

-- Header maps as functions, with names in lower case.
abbrev pub lib : HttpLibrary
lib = record {
  Headers = Bytes → List Bytes;
  header_name = λ n. if is_empty n then none else some (to_ascii_lowercase n);
  header_value = λ v. some v;
  to_str = λ v. if is_ascii v then some v else none;
  get_all = λ h n. h n;
  remove = λ h n m. if eq n m then [] else h m;
  insert = λ h n v m. if eq n m then v ∷ [] else h m;
  encode = λ t. t;
  decode = λ t. some t;
  get_all-remove = λ h n m. refl;
  get_all-insert = λ h n v m. refl;
}

abbrev pub raw_rule : RawNamedRule
raw_rule = record {
  mode = none;
  ports = 443 ∷ 8443 ∷ [];
  paths = some (bytes "/v1/**" ∷ bytes "/h%65alth" ∷ []);
  inject = some (
      record {
        header = bytes "Authorization";
        secret = bytes "token";
        format = InjectionFormat.bearer;
        username = none;
      }
      ∷ []);
}

abbrev pub raw_session : RawSessionConfig
raw_session = record {
  version = some (pos 2);
  persistent = false;
  socket_name = some (bytes "build");
  unmatched = some (bytes "tunnel");
  rules = some (named ((bytes "API.Example.com.", raw_rule) ∷ []));
  credentials = some (record {
    default_mode = some CredentialMode.substitute;
    overrides = (bytes "other", CredentialMode.disabled) ∷ [];
  });
  unsupported_fields = [];
}

abbrev pub host : Bytes
host = bytes "api.example.com"

abbrev pub injection : HeaderInjection
injection = record {
  header = bytes "Authorization";
  secret = bytes "token";
  format = InjectionFormat.bearer;
  username = none;
}

abbrev pub rule : HostRule
rule = record {
  host = host;
  mode = RuleMode.intercept;
  ports = 443 ∷ 8443 ∷ [];
  paths = bytes "/v1/**" ∷ bytes "/health" ∷ [];
  injections = injection ∷ [];
}

abbrev pub session : SessionConfig
session = record {
  persistent = false;
  socket_name = some (bytes "build");
  unmatched = UnmatchedHostPolicy.tunnel;
  default_credential_mode = some CredentialMode.substitute;
  credential_modes = (bytes "other", CredentialMode.disabled) ∷ [];
  rules = rule ∷ [];
}

abbrev pub fake : Bytes
fake = bytes "baffle_v1_fake"

abbrev pub credential : CompiledCredential
credential = record {
  injection = injection;
  mode = CredentialMode.substitute;
  fake_value = some fake;
}

abbrev pub compiled_rule : CompiledRule
compiled_rule = record {
  mode = RuleMode.intercept;
  ports = 443 ∷ 8443 ∷ [];
  paths = bytes "/v1/**" ∷ bytes "/health" ∷ [];
  credentials = credential ∷ [];
}

abbrev pub policy : SessionPolicy
policy = record { rules = (host, compiled_rule) ∷ []; unmatched = UnmatchedHostPolicy.tunnel }

abbrev pub headers : Bytes → List Bytes
headers name =
    if eq name (bytes "host")
    then host ∷ []
    else if eq name (bytes "authorization")
    then (bytes "bearer " ++ fake) ∷ []
    else []

abbrev pub sent_headers : Bytes → List Bytes
sent_headers name =
    if eq (bytes "authorization") name
    then bytes "bearer secret" ∷ []
    else if eq (bytes "authorization") name
    then []
    else headers name

abbrev pub request : Request lib
request = record {
  method = bytes "GET";
  scheme = some (bytes "https");
  uri_authority = some host;
  path = some (bytes "/v1/%7euser");
  headers = headers;
}

abbrev pub facts : RequestFacts
facts = record {
  method = bytes "GET";
  scheme = some (bytes "https");
  uri_authority = some host;
  path = bytes "/v1/%7euser";
  host_headers = host ∷ [];
}
