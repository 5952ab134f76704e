-- ===== src/Policy/Types.antt =====
-- crates/baffle-client/src/lib.rs, the session policy that a client sends and the daemon keeps.
-- Strings are lists of bytes; ports are numbers, below 2^16 where the code reads them as `u16`.
use baffle.Prelude.{ℕ, Bool, true, false, Option, none, some, List}
use baffle.Prelude.Text.{Bytes}
use baffle.Prelude.Assoc.{Assoc, get}

pub data CredentialMode : Type 0 where
  inject substitute disabled : CredentialMode

pub data UnmatchedHostPolicy : Type 0 where
  deny tunnel : UnmatchedHostPolicy

pub data RuleMode : Type 0 where
  tunnel intercept : RuleMode

pub data InjectionFormat : Type 0 where
  raw bearer basic_password : InjectionFormat

pub record HeaderInjection : Type 0 where
  pub header : Bytes
  pub secret : Bytes
  pub format : InjectionFormat
  pub username : Option Bytes

pub record HostRule : Type 0 where
  pub host : Bytes
  pub mode : RuleMode
  pub ports : List ℕ
  pub paths : List Bytes
  pub injections : List HeaderInjection

pub record SessionConfig : Type 0 where
  pub persistent : Bool
  pub socket_name : Option Bytes
  pub unmatched : UnmatchedHostPolicy
  pub default_credential_mode : Option CredentialMode
  pub credential_modes : Assoc CredentialMode
  pub rules : List HostRule

-- `Option::or`, and `unwrap_or_default` at the default mode.
abbrev or_default : Option CredentialMode → Option CredentialMode → CredentialMode
or_default (some mode) fallback = mode
or_default none (some mode) = mode
or_default none none = CredentialMode.inject

unfoldable pub effective_credential_mode : SessionConfig → Bytes → CredentialMode
effective_credential_mode session secret =
    or_default (get secret session.credential_modes) session.default_credential_mode

-- `==` on the modes.
abbrev pub is_substitute : CredentialMode → Bool
is_substitute CredentialMode.substitute = true
is_substitute _ = false

abbrev pub is_disabled : CredentialMode → Bool
is_disabled CredentialMode.disabled = true
is_disabled _ = false

abbrev pub is_intercept : RuleMode → Bool
is_intercept RuleMode.intercept = true
is_intercept _ = false

abbrev pub is_tunnel : RuleMode → Bool
is_tunnel RuleMode.tunnel = true
is_tunnel _ = false
