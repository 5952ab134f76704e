-- ===== src/Tests/Settings.antt =====
-- A daemon configuration with file-only sessions.
use baffle.Prelude.{◌≡◌, refl, Option, none, some, [], ◌∷◌, ok, err}
use baffle.Prelude.Text.{
  Bytes, bytes, eq, any, all, split, contains_text, starts_with, strip_suffix,
}
use baffle.Control.Connection.{file_only}
use baffle.Policy.Names.{validate_secret_id}
use baffle.Settings.{
  RawDaemonConfig, DaemonConfig, join_path, resolve_config_path, resolve_optional, resolve_paths,
  required_path, components_of, validate_session_config_dir, session_dir, daemon_settings,
  check_limits, validate_allowed_from, validated, resolved, from_toml_in_directory,
  allowed_duplicate, dir_requires_file_only,
}
use baffle.Settings.Valid.{IsValidConfig, from_toml_in_directory-IsValidConfig}

abbrev raw : RawDaemonConfig
raw = record {
  daemon = record {
    control_socket = bytes "run/control.sock";
    socket_dir = bytes "/run/baffle";
    trusted_operator_uid = 1000;
    max_sessions = none;
    max_connections_per_session = some 16;
    shutdown_grace_seconds = none;
    control_read_timeout_ms = none;
    max_provisioning_requests = none;
    io_timeout_ms = none;
    session_config_dir = some (bytes "sessions");
    create_mode = some file_only;
  };
  ca = record { certificate = bytes "ca.pem"; private_key = bytes "ca.key" };
  secrets = record { directory = bytes "secrets"; allowed = bytes "a" ∷ bytes "b" ∷ [] };
}

abbrev deserialize : Bytes → Option RawDaemonConfig
deserialize text = some raw

abbrev directory : Bytes
directory = bytes "/etc/baffle"

abbrev config : DaemonConfig
config = record {
  daemon = record {
    control_socket = bytes "/etc/baffle/run/control.sock";
    socket_dir = bytes "/run/baffle";
    trusted_operator_uid = 1000;
    max_sessions = 64;
    max_connections_per_session = 16;
    shutdown_grace_seconds = 5;
    control_read_timeout_ms = 5000;
    max_provisioning_requests = 8;
    io_timeout_ms = 30000;
    session_config_dir = some (bytes "/etc/baffle/sessions");
    create_mode = file_only;
  };
  ca = record {
    certificate = bytes "/etc/baffle/ca.pem";
    private_key = bytes "/etc/baffle/ca.key";
  };
  secrets = record {
    directory = bytes "/etc/baffle/secrets";
    allowed = bytes "b" ∷ bytes "a" ∷ [];
  };
}

config_accepted : from_toml_in_directory deserialize [] (some directory) ≡ ok config
unfolding from_toml_in_directory resolved resolve_paths resolve_config_path resolve_optional
    join_path validated session_dir validate_session_config_dir components_of daemon_settings
    required_path check_limits validate_allowed_from validate_secret_id eq any all split
    contains_text starts_with strip_suffix
config_accepted = refl

from_toml_in_directory-IsValidConfig_example :
    (given : RawDaemonConfig) × (deserialize [] ≡ some given) × IsValidConfig given config
from_toml_in_directory-IsValidConfig_example =
    from_toml_in_directory-IsValidConfig deserialize [] directory config refl config_accepted

-- An inline daemon must not name a directory, and a secret must not be allowed twice.

abbrev inline_raw : RawDaemonConfig
inline_raw = record raw { daemon = record raw.daemon { create_mode = none } }

inline_refused : validated inline_raw ≡ err dir_requires_file_only
unfolding validated session_dir
inline_refused = refl

twice_refused : validate_allowed_from (bytes "a" ∷ bytes "a" ∷ []) [] ≡ err allowed_duplicate
unfolding validate_allowed_from validate_secret_id eq any all contains_text starts_with
twice_refused = refl
