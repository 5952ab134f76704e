-- ===== src/Control/Protocol.antt =====
-- src/config/protocol.rs: control requests. Deserialization is the `toml` crate's, and a parameter.
use baffle.Prelude.{
  ℕ, true, false, not, Option, Result, ok, ◌>>=◌, ◌>>◌, fail_if, ok_or, map_err, Bool, ◌==◌,
}
use baffle.Prelude.Text.{Bytes}
use baffle.Policy.Types.{SessionConfig}
use baffle.Policy.Dns.{ParsedHost}
use baffle.Policy.Names.{NameError, validate_session_config_name, validate_session_id}
use baffle.Policy.Document.{DocumentIssue, RawSessionConfig, from_toml}

pub data ControlRequest : Type 0 where
  create : (version : ℕ) (session : SessionConfig) → ControlRequest
  create_from_file : (version : ℕ) (name : Bytes) (require_ephemeral : Bool) → ControlRequest
  stop reload : (version : ℕ) (session_id : Bytes) → ControlRequest
  reload_all list : (version : ℕ) → ControlRequest

-- A `toml::Value` is of a type that the crate gives.
pub data RawControlRequest (Value : Type 0) : Type 0 where
  raw_create : (version : ℕ) (session : Value) → RawControlRequest Value
  raw_create_from_file :
      (version : ℕ) (name : Bytes) (require_ephemeral : Bool) → RawControlRequest Value
  raw_stop raw_reload : (version : ℕ) (session_id : Bytes) → RawControlRequest Value
  raw_reload_all raw_list : (version : ℕ) → RawControlRequest Value

pub data ConfigError : Type 0 where
  syntax unsupported_protocol_version session_syntax : ConfigError
  session_invalid : DocumentIssue → ConfigError
  name_invalid : NameError → ConfigError

-- `ConfigError::is_unsupported_protocol_version`.
abbrev pub is_unsupported_protocol_version : ConfigError → Bool
is_unsupported_protocol_version unsupported_protocol_version = true
is_unsupported_protocol_version _ = false

abbrev pub protocol_version : ℕ
protocol_version = 2

unfoldable pub validate_protocol_version : ℕ → Result ConfigError (Unit {0})
validate_protocol_version version = do
  fail_if (not (version == protocol_version)) unsupported_protocol_version
  ok tt

-- What the code takes from the `toml` crate: the version alone, the request, and a value as text.
pub record RequestToml : Type 1 where
  pub Value : Type 0
  pub deserialize_version : Bytes → Option ℕ
  pub deserialize_request : Bytes → Option (RawControlRequest Value)
  pub to_string : Value → Option Bytes
  pub deserialize_session : Bytes → Option RawSessionConfig

module _ (toml : RequestToml) (parse_host : Bytes → ParsedHost) where
  open toml use {Value, deserialize_version, deserialize_request, to_string, deserialize_session}

  unfoldable pub validate_request : RawControlRequest Value → Result ConfigError ControlRequest
  validate_request (raw_create version session) = do
    text ← ok_or (to_string session) session_syntax
    session ← map_err session_invalid (from_toml parse_host deserialize_session text)
    ok (create version session)
  validate_request (raw_stop version session_id) = do
    map_err name_invalid (validate_session_id session_id)
    ok (stop version session_id)
  validate_request (raw_reload version session_id) = do
    map_err name_invalid (validate_session_id session_id)
    ok (reload version session_id)
  validate_request (raw_reload_all version) = ok (reload_all version)
  validate_request (raw_create_from_file version name require_ephemeral) = do
    map_err name_invalid (validate_session_config_name name)
    ok (create_from_file version name require_ephemeral)
  validate_request (raw_list version) = ok (list version)

  -- `ControlRequest::from_toml`.
  unfoldable pub request_from_toml : Bytes → Result ConfigError ControlRequest
  request_from_toml input = do
    version ← ok_or (deserialize_version input) syntax
    validate_protocol_version version
    raw ← ok_or (deserialize_request input) syntax
    validate_request raw
