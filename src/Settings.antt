-- ===== src/Settings.antt =====
-- src/config/daemon.rs: from the deserialized daemon configuration to the validated one, and
-- `validate_allowed_secrets` of src/config/policy.rs. Paths are byte strings with the components
-- that `std::path::Path` has on Unix. Deserialization is the `toml` crate's, and a parameter.
pub mod Valid
use baffle.Prelude.{
  ℕ, zero, suc, ◌+◌, ◌≡◌, ◌≢◌, ◌⊎◌, inl, inr, refl, sym, ap, ◌∙◌, true, false, not, Option, none,
  some, List, [], ◌∷◌, ◌++◌, Result, ok, err, ◌>>=◌, ◌>>◌, fail_if, ok_or, map_err, Bool-cases,
  Option-cases, Result-cases, bind-eq-ok, fail_if-eq-ok, ok-injective, map_err-eq-ok, ok_or-eq-ok,
  arith, Bool, ltb, leb, ◌==◌, if◌then◌else◌, ◌&&◌, ◌||◌, subst,
}
use baffle.Prelude.Text.{Bytes, bytes, eq, any, is_empty, length, starts_with, ends_with, split}
use baffle.Prelude.Sizes.{member, Distinct}
use baffle.Policy.Names.{NameError, validate_secret_id}
use baffle.Control.Connection.{SessionCreateMode, inline, file_only}

pub data Field : Type 0 where
  control_socket socket_dir ca_certificate ca_private_key secrets_directory : Field
  max_sessions max_connections_per_session control_read_timeout_ms : Field
  max_provisioning_requests io_timeout_ms : Field

pub data SettingsError : Type 0 where
  syntax dir_requires_file_only file_only_requires_dir dir_invalid : SettingsError
  path_empty limit_zero : Field → SettingsError
  allowed_invalid allowed_duplicate : SettingsError

-- A key that has a default may be absent.
pub record RawDaemonSettings : Type 0 where
  pub control_socket : Bytes
  pub socket_dir : Bytes
  pub trusted_operator_uid : ℕ
  pub max_sessions : Option ℕ
  pub max_connections_per_session : Option ℕ
  pub shutdown_grace_seconds : Option ℕ
  pub control_read_timeout_ms : Option ℕ
  pub max_provisioning_requests : Option ℕ
  pub io_timeout_ms : Option ℕ
  pub session_config_dir : Option Bytes
  pub create_mode : Option SessionCreateMode

pub record CaConfig : Type 0 where
  pub certificate : Bytes
  pub private_key : Bytes

pub record SecretStoreConfig : Type 0 where
  pub directory : Bytes
  pub allowed : List Bytes

pub record RawDaemonConfig : Type 0 where
  pub daemon : RawDaemonSettings
  pub ca : CaConfig
  pub secrets : SecretStoreConfig

pub record DaemonSettings : Type 0 where
  pub control_socket : Bytes
  pub socket_dir : Bytes
  pub trusted_operator_uid : ℕ
  pub max_sessions : ℕ
  pub max_connections_per_session : ℕ
  pub shutdown_grace_seconds : ℕ
  pub control_read_timeout_ms : ℕ
  pub max_provisioning_requests : ℕ
  pub io_timeout_ms : ℕ
  pub session_config_dir : Option Bytes
  pub create_mode : SessionCreateMode

pub record DaemonConfig : Type 0 where
  pub daemon : DaemonSettings
  pub ca : CaConfig
  pub secrets : SecretStoreConfig

abbrev pub default : {A : Type 0} → Option A → A → A
default none a = a
default (some b) a = b

-- Paths.

abbrev pub is_absolute : Bytes → Bool
is_absolute [] = false
is_absolute (c ∷ path) = c == b'/'

-- `Path::join` with a relative path that is not empty.
unfoldable pub join_path : Bytes → Bytes → Bytes
join_path directory path =
    if is_empty directory || ends_with directory (bytes "/")
    then directory ++ path
    else directory ++ (b'/' ∷ path)

unfoldable pub resolve_config_path : Bytes → Bytes → Bytes
resolve_config_path path directory =
    if is_empty path || is_absolute path then path else join_path directory path

unfoldable pub resolve_optional : Option Bytes → Bytes → Option Bytes
resolve_optional none directory = none
resolve_optional (some path) directory = some (resolve_config_path path directory)

unfoldable pub resolve_paths : RawDaemonConfig → Bytes → RawDaemonConfig
resolve_paths raw directory = record {
  daemon = record raw.daemon {
    control_socket = resolve_config_path raw.daemon.control_socket directory;
    socket_dir = resolve_config_path raw.daemon.socket_dir directory;
    session_config_dir = resolve_optional raw.daemon.session_config_dir directory;
  };
  ca = record {
    certificate = resolve_config_path raw.ca.certificate directory;
    private_key = resolve_config_path raw.ca.private_key directory;
  };
  secrets = record raw.secrets { directory = resolve_config_path raw.secrets.directory directory };
}

unfoldable pub required_path : Bytes → Field → Result SettingsError Bytes
required_path path field = do fail_if (is_empty path) (path_empty field); ok path

-- What `components` gives of the text after the root: neither empty nor `.`.
unfoldable pub components_of : List Bytes → List Bytes
components_of [] = []
components_of (part ∷ rest) =
    let others = components_of rest in
    if is_empty part || eq part (bytes ".") then others else part ∷ others

abbrev pub is_dot : Bytes → Bool
is_dot component = eq component (bytes ".") || eq component (bytes "..")

-- An absolute path has one component for the root, and so one more at least for two.
abbrev pub is_bad_dir : Bytes → Bool
is_bad_dir path =
    not (is_absolute path)
    || is_empty path
    || any (λ byte. byte == 0) path
    || any is_dot (split b'/' path)
    || any (λ component. eq component (bytes "..")) (components_of (split b'/' path))
    || is_empty (components_of (split b'/' path))

unfoldable pub validate_session_config_dir : Bytes → Result SettingsError (Unit {0})
validate_session_config_dir path = do fail_if (is_bad_dir path) dir_invalid; ok tt

-- Settings.

unfoldable pub session_dir : SessionCreateMode → Option Bytes → Result SettingsError (Option Bytes)
session_dir inline none = ok none
session_dir inline (some path) = err dir_requires_file_only
session_dir file_only none = err file_only_requires_dir
session_dir file_only (some path) = do validate_session_config_dir path; ok (some path)

unfoldable pub daemon_settings :
    RawDaemonSettings → Option Bytes → Result SettingsError DaemonSettings
daemon_settings raw dir = do
  control_path ← required_path raw.control_socket Field.control_socket
  directory ← required_path raw.socket_dir Field.socket_dir
  ok (record {
    control_socket = control_path;
    socket_dir = directory;
    trusted_operator_uid = raw.trusted_operator_uid;
    max_sessions = default raw.max_sessions 64;
    max_connections_per_session = default raw.max_connections_per_session 128;
    shutdown_grace_seconds = default raw.shutdown_grace_seconds 5;
    control_read_timeout_ms = default raw.control_read_timeout_ms 5000;
    max_provisioning_requests = default raw.max_provisioning_requests 8;
    io_timeout_ms = default raw.io_timeout_ms 30000;
    session_config_dir = dir;
    create_mode = default raw.create_mode inline;
  })

unfoldable pub check_limits : DaemonSettings → Result SettingsError (Unit {0})
check_limits daemon = do
  fail_if (daemon.max_sessions == 0) (limit_zero Field.max_sessions)
  fail_if (daemon.max_connections_per_session == 0) (limit_zero Field.max_connections_per_session)
  fail_if (daemon.control_read_timeout_ms == 0) (limit_zero Field.control_read_timeout_ms)
  fail_if (daemon.max_provisioning_requests == 0) (limit_zero Field.max_provisioning_requests)
  fail_if (daemon.io_timeout_ms == 0) (limit_zero Field.io_timeout_ms)
  ok tt

-- The set of allowed secrets is a list without duplicates.
unfoldable pub validate_allowed_from : List Bytes → List Bytes → Result SettingsError (List Bytes)
validate_allowed_from [] allowed = ok allowed
validate_allowed_from (secret ∷ raw) allowed = do
  map_err (λ _. allowed_invalid) (validate_secret_id secret)
  fail_if (member secret allowed) allowed_duplicate
  validate_allowed_from raw (secret ∷ allowed)

abbrev pub validate_allowed_secrets : List Bytes → Result SettingsError (List Bytes)
validate_allowed_secrets raw = validate_allowed_from raw []

unfoldable pub validated : RawDaemonConfig → Result SettingsError DaemonConfig
validated raw = do
  dir ← session_dir (default raw.daemon.create_mode inline) raw.daemon.session_config_dir
  daemon ← daemon_settings raw.daemon dir
  check_limits daemon
  certificate ← required_path raw.ca.certificate ca_certificate
  private_key ← required_path raw.ca.private_key ca_private_key
  directory ← required_path raw.secrets.directory secrets_directory
  allowed ← validate_allowed_secrets raw.secrets.allowed
  ok (record {
    daemon = daemon;
    ca = record { certificate = certificate; private_key = private_key };
    secrets = record { directory = directory; allowed = allowed };
  })

unfoldable pub resolved : RawDaemonConfig → Option Bytes → RawDaemonConfig
resolved raw none = raw
resolved raw (some directory) = resolve_paths raw directory

unfoldable pub from_toml_in_directory :
    (Bytes → Option RawDaemonConfig) → Bytes → Option Bytes → Result SettingsError DaemonConfig
from_toml_in_directory deserialize input directory = do
  raw ← ok_or (deserialize input) syntax
  validated (resolved raw directory)
