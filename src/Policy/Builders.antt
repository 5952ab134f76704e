-- ===== src/Policy/Builders.antt =====
-- crates/baffle-client/src/lib.rs: the constructors by which a client writes a session policy.
use baffle.Prelude.{
  ◌≡◌, refl, Bool, false, Option, none, some, [], ◌∷◌, ◌++◌, if◌then◌else◌, Bool-cases, inl, inr,
}
use baffle.Prelude.Text.{Bytes, eq}
use baffle.Prelude.Assoc.{insert, get-insert}
use baffle.Policy.Types.{
  CredentialMode, UnmatchedHostPolicy, deny, RuleMode, InjectionFormat, HeaderInjection, HostRule,
  SessionConfig, effective_credential_mode,
}

-- `SessionConfig::new`.
unfoldable pub new_session_config : SessionConfig
new_session_config = record {
  persistent = false;
  socket_name = none;
  unmatched = deny;
  default_credential_mode = none;
  credential_modes = [];
  rules = [];
}

unfoldable pub set_persistent : SessionConfig → Bool → SessionConfig
set_persistent config persistent = record config { persistent = persistent }

unfoldable pub set_socket_name : SessionConfig → Bytes → SessionConfig
set_socket_name config socket_name = record config { socket_name = some socket_name }

unfoldable pub set_unmatched_host_policy : SessionConfig → UnmatchedHostPolicy → SessionConfig
set_unmatched_host_policy config policy = record config { unmatched = policy }

unfoldable pub set_default_credential_mode : SessionConfig → CredentialMode → SessionConfig
set_default_credential_mode config mode = record config { default_credential_mode = some mode }

unfoldable pub set_credential_mode : SessionConfig → Bytes → CredentialMode → SessionConfig
set_credential_mode config secret mode = record config {
  credential_modes = insert secret mode config.credential_modes;
}

unfoldable pub with_rule : SessionConfig → HostRule → SessionConfig
with_rule config rule = record config { rules = config.rules ++ rule ∷ [] }

-- `HostRule::new`, `HostRule::tunnel` and `HostRule::intercept`.
unfoldable pub new_rule : Bytes → RuleMode → HostRule
new_rule host mode = record {
  host = host;
  mode = mode;
  ports = 443 ∷ [];
  paths = [];
  injections = [];
}

unfoldable pub tunnel_rule : Bytes → HostRule
unfolding new_rule
tunnel_rule host = new_rule host RuleMode.tunnel

unfoldable pub intercept_rule : Bytes → HostRule
unfolding new_rule
intercept_rule host = new_rule host RuleMode.intercept

-- `HeaderInjection::raw`, `bearer` and `basic_password`.
unfoldable pub new_injection : Bytes → Bytes → InjectionFormat → Option Bytes → HeaderInjection
new_injection header secret format username = record {
  header = header;
  secret = secret;
  format = format;
  username = username;
}

unfoldable pub raw_injection : Bytes → Bytes → HeaderInjection
unfolding new_injection
raw_injection header secret = new_injection header secret InjectionFormat.raw none

unfoldable pub bearer_injection : Bytes → Bytes → HeaderInjection
unfolding new_injection
bearer_injection header secret = new_injection header secret InjectionFormat.bearer none

unfoldable pub basic_password_injection : Bytes → Bytes → Bytes → HeaderInjection
unfolding new_injection
basic_password_injection header secret username =
    new_injection header secret InjectionFormat.basic_password (some username)

-- A mode that is set for a secret is that secret's effective mode, over the default mode and any
-- mode set before, and no other secret's effective mode changes.
pub effective_credential_mode-set_credential_mode :
    (config : SessionConfig) (secret other : Bytes) (mode : CredentialMode)
    → effective_credential_mode (set_credential_mode config secret mode) other
      ≡ (if eq secret other then mode else effective_credential_mode config other)
unfolding effective_credential_mode set_credential_mode
effective_credential_mode-set_credential_mode config secret other mode =
    elim (Bool-cases (eq secret other)) [
      | inl same ↦ rw (same, get-insert secret other mode config.credential_modes, same) refl
      | inr differ ↦ rw (differ, get-insert secret other mode config.credential_modes, differ) refl
    ]
