-- ===== src/Settings/Valid.antt =====
-- What an accepted daemon configuration (src/config/daemon.rs) is known to be.
use baffle.Prelude.{
  ◌≡◌, ◌⊎◌, inl, inr, refl, sym, true, false, Option, none, some, List, [], ◌∷◌, ◌++◌, ok, ok_or,
  map_err, Bool-cases, bind-eq-ok, fail_if-eq-ok, ok-injective, map_err-eq-ok, ok_or-eq-ok, arith,
  ◌==◌, ◌||◌, subst,
}
use baffle.Prelude.Text.{Bytes, bytes, any, is_empty, ends_with, split}
use baffle.Prelude.Sizes.{member, Distinct}
use baffle.Policy.Names.{validate_secret_id}
use baffle.Control.Connection.{SessionCreateMode, inline, file_only}
use baffle.Settings.{
  is_bad_dir, Field, allowed_invalid, RawDaemonSettings, RawDaemonConfig, DaemonSettings,
  DaemonConfig, default, is_absolute, join_path, resolve_config_path, resolve_optional,
  resolve_paths, required_path, components_of, is_dot, validate_session_config_dir, session_dir,
  daemon_settings, check_limits, validate_allowed_from, validate_allowed_secrets, validated,
  resolved, from_toml_in_directory, syntax, ca_certificate, ca_private_key, secrets_directory,
}

-- Paths.

absolute-append :
    (directory path : Bytes) → is_absolute directory ≡ true → is_absolute (directory ++ path) ≡ true
absolute-append [] path h = absurd (ground arith)
absolute-append (c ∷ directory) path h = h

absolute-join_path :
    (directory path : Bytes)
    → is_absolute directory ≡ true
    → is_absolute (join_path directory path) ≡ true
unfolding join_path
absolute-join_path directory path h =
    elim (Bool-cases (is_empty directory || ends_with directory (bytes "/"))) [
      | inl closed ↦ rw (join_path, closed) (absolute-append directory path h)
      | inr open_end ↦ rw (join_path, open_end) (absolute-append directory (b'/' ∷ path) h)
    ]

absolute-resolve :
    (directory path : Bytes)
    → is_absolute directory ≡ true
    → is_empty (resolve_config_path path directory) ≡ false
    → is_absolute (resolve_config_path path directory) ≡ true
unfolding resolve_config_path
absolute-resolve directory [] h full = absurd (ground arith)
absolute-resolve directory (c ∷ path) h full = elim (Bool-cases (c == b'/')) [
  | inl rooted ↦ rw (resolve_config_path, rooted) rooted
  | inr relative ↦ rw (resolve_config_path, relative) (absolute-join_path directory (c ∷ path) h)
]

required_path-eq-ok :
    (path p : Bytes) (field : Field)
    → required_path path field ≡ ok p
    → (is_empty path ≡ false) × (path ≡ p)
unfolding required_path
required_path-eq-ok path p field e =
    let (full, same) = fail_if-eq-ok (is_empty path) _ _ e in (full, ok-injective same)

required_path-absolute :
    (directory path p : Bytes) (field : Field)
    → is_absolute directory ≡ true
    → required_path (resolve_config_path path directory) field ≡ ok p
    → is_absolute p ≡ true
required_path-absolute directory path p field h e =
    let (full, same) = required_path-eq-ok (resolve_config_path path directory) p field e in
    subst (λ q. is_absolute q ≡ true) same (absolute-resolve directory path h full)

-- The directory of session files is there exactly if sessions are created from files only, and then
-- it is an absolute path to another directory than the root, without dot components.
abbrev pub IsFitting : SessionCreateMode → Option Bytes → Type 0
IsFitting mode dir =
    ((mode ≡ inline) × (dir ≡ none))
    ⊎ ((path : Bytes) × (mode ≡ file_only)
        × (dir ≡ some path)
        × (is_absolute path ≡ true)
        × (any is_dot (split b'/' path) ≡ false)
        × (is_empty (components_of (split b'/' path)) ≡ false))

session_dir-IsFitting :
    (mode : SessionCreateMode) (given dir : Option Bytes)
    → session_dir mode given ≡ ok dir
    → IsFitting mode dir
unfolding session_dir validate_session_config_dir
session_dir-IsFitting inline none dir e = inl (refl, sym (ok-injective e))
session_dir-IsFitting inline (some path) dir e = absurd (ground arith)
session_dir-IsFitting file_only none dir e = absurd (ground arith)
session_dir-IsFitting file_only (some path) dir e =
    let (u, checked, same) = bind-eq-ok (validate_session_config_dir path) _ e in
    let (fine, _) = fail_if-eq-ok (is_bad_dir path) _ _ checked in
    inr (path, refl, sym (ok-injective same), ground arith, ground arith, ground arith)

-- Limits.

pub record IsLimited (daemon : DaemonSettings) : Type 0 where
  pub sessions : (daemon.max_sessions == 0) ≡ false
  pub connections : (daemon.max_connections_per_session == 0) ≡ false
  pub control_timeout : (daemon.control_read_timeout_ms == 0) ≡ false
  pub provisioning : (daemon.max_provisioning_requests == 0) ≡ false
  pub io_timeout : (daemon.io_timeout_ms == 0) ≡ false

check_limits-IsLimited :
    (daemon : DaemonSettings) (u : Unit {0}) → check_limits daemon ≡ ok u → IsLimited daemon
unfolding check_limits
check_limits-IsLimited daemon u e =
    let (a, e1) = fail_if-eq-ok (daemon.max_sessions == 0) _ _ e in
    let (b, e2) = fail_if-eq-ok (daemon.max_connections_per_session == 0) _ _ e1 in
    let (c, e3) = fail_if-eq-ok (daemon.control_read_timeout_ms == 0) _ _ e2 in
    let (d, e4) = fail_if-eq-ok (daemon.max_provisioning_requests == 0) _ _ e3 in
    let (f, _) = fail_if-eq-ok (daemon.io_timeout_ms == 0) _ _ e4 in
    record { sessions = a; connections = b; control_timeout = c; provisioning = d; io_timeout = f }

-- Allowed secrets.

abbrev pub AllIdentifiers : List Bytes → Type 0
AllIdentifiers [] = Unit {0}
AllIdentifiers (name ∷ names) = (validate_secret_id name ≡ ok tt) × AllIdentifiers names

-- The set has exactly the names of a list, each once, and they are identifiers.
pub record IsSetOf (raw before allowed : List Bytes) : Type 0 where
  pub identifiers : AllIdentifiers allowed
  pub distinct : Distinct allowed
  pub same : (n : Bytes) → member n allowed ≡ (member n raw || member n before)

validate_allowed_from-IsSetOf :
    (raw before allowed : List Bytes)
    → AllIdentifiers before
    → Distinct before
    → validate_allowed_from raw before ≡ ok allowed
    → IsSetOf raw before allowed
unfolding validate_allowed_from
validate_allowed_from-IsSetOf [] before allowed ids distinct e =
    subst (IsSetOf [] before) (ok-injective e)
      (record { identifiers = ids; distinct = distinct; same = λ n. refl })
validate_allowed_from-IsSetOf (secret ∷ raw) before allowed ids distinct e =
    let (u, checked, e1) =
      bind-eq-ok (map_err (λ _. allowed_invalid) (validate_secret_id secret)) _ e in
    let (new, e2) = fail_if-eq-ok (member secret before) _ _ e1 in
    let r =
      validate_allowed_from-IsSetOf raw (secret ∷ before) allowed
        (map_err-eq-ok _ (validate_secret_id secret) checked, ids) (new, distinct) e2 in
    record {
      identifiers = r.identifiers;
      distinct = r.distinct;
      same = λ n. ground (arith, r.same n);
    }

-- The whole configuration.

pub record IsValidConfig (raw : RawDaemonConfig) (config : DaemonConfig) : Type 0 where
  pub control_socket : is_absolute config.daemon.control_socket ≡ true
  pub socket_dir : is_absolute config.daemon.socket_dir ≡ true
  pub certificate : is_absolute config.ca.certificate ≡ true
  pub private_key : is_absolute config.ca.private_key ≡ true
  pub secrets : is_absolute config.secrets.directory ≡ true
  pub fitting : IsFitting config.daemon.create_mode config.daemon.session_config_dir
  pub limits : IsLimited config.daemon
  pub allowed : IsSetOf raw.secrets.allowed [] config.secrets.allowed

-- What the paths and the mode of the settings are.
IsSettings : Bytes → RawDaemonSettings → Option Bytes → DaemonSettings → Type 0
IsSettings directory raw dir daemon =
    (is_absolute daemon.control_socket ≡ true)
    × (is_absolute daemon.socket_dir ≡ true)
    × (daemon.create_mode ≡ default raw.create_mode inline)
    × (daemon.session_config_dir ≡ dir)

daemon_settings_lem :
    (directory : Bytes) (raw : RawDaemonConfig) (dir : Option Bytes) (daemon : DaemonSettings)
    → is_absolute directory ≡ true
    → daemon_settings (resolve_paths raw directory).daemon dir ≡ ok daemon
    → IsSettings directory raw.daemon dir daemon
unfolding daemon_settings IsSettings resolve_paths
daemon_settings_lem directory raw dir daemon h e =
    let (control, ec, e1) =
      bind-eq-ok
        (required_path (resolve_config_path raw.daemon.control_socket directory)
          Field.control_socket)
        _ e in
    let (sockets, es, e2) =
      bind-eq-ok
        (required_path (resolve_config_path raw.daemon.socket_dir directory) Field.socket_dir) _
        e1 in
    subst (IsSettings directory raw.daemon dir) (ok-injective e2) (
      required_path-absolute directory raw.daemon.control_socket control Field.control_socket h ec,
      required_path-absolute directory raw.daemon.socket_dir sockets Field.socket_dir h es,
      refl,
      refl,
    )

validated-IsValidConfig :
    (directory : Bytes) (raw : RawDaemonConfig) (config : DaemonConfig)
    → is_absolute directory ≡ true
    → validated (resolve_paths raw directory) ≡ ok config
    → IsValidConfig raw config
unfolding validated resolve_paths IsSettings
validated-IsValidConfig directory raw config h e =
    let (dir, ed, e1) =
      bind-eq-ok
        (session_dir (default raw.daemon.create_mode inline)
          (resolve_optional raw.daemon.session_config_dir directory))
        _ e in
    let (daemon, es, e2) =
      bind-eq-ok (daemon_settings (resolve_paths raw directory).daemon dir) _ e1 in
    let (u, el, e3) = bind-eq-ok (check_limits daemon) _ e2 in
    let (certificate, ec, e4) =
      bind-eq-ok (required_path (resolve_config_path raw.ca.certificate directory) ca_certificate) _
        e3 in
    let (private_key, ek, e5) =
      bind-eq-ok (required_path (resolve_config_path raw.ca.private_key directory) ca_private_key) _
        e4 in
    let (secrets, ev, e6) =
      bind-eq-ok
        (required_path (resolve_config_path raw.secrets.directory directory) secrets_directory) _
        e5 in
    let (allowed, ea, e7) = bind-eq-ok (validate_allowed_secrets raw.secrets.allowed) _ e6 in
    let (control, sockets, mode, same) = daemon_settings_lem directory raw dir daemon h es in
    let fits = session_dir-IsFitting _ _ dir ed in
    subst (IsValidConfig raw) (ok-injective e7) (record {
      control_socket = control;
      socket_dir = sockets;
      certificate =
          required_path-absolute directory raw.ca.certificate certificate ca_certificate h ec;
      private_key =
          required_path-absolute directory raw.ca.private_key private_key ca_private_key h ek;
      secrets =
          required_path-absolute directory raw.secrets.directory secrets secrets_directory h ev;
      fitting = rw (mode, same) fits;
      limits = check_limits-IsLimited daemon u el;
      allowed = validate_allowed_from-IsSetOf raw.secrets.allowed [] allowed tt tt ea;
    })

-- A daemon configuration read in an absolute directory and accepted has only absolute paths; it has a
-- directory of session files exactly if sessions are created from files only, and that is a path
-- without dot components to another directory than the root; each limit that must not be zero is
-- not zero, and the allowed secrets are the named ones, each a valid identifier and there once.
pub from_toml_in_directory-IsValidConfig :
    (deserialize : Bytes → Option RawDaemonConfig) (input directory : Bytes) (config : DaemonConfig)
    → is_absolute directory ≡ true
    → from_toml_in_directory deserialize input (some directory) ≡ ok config
    → (raw : RawDaemonConfig) × (deserialize input ≡ some raw) × IsValidConfig raw config
unfolding from_toml_in_directory resolved
from_toml_in_directory-IsValidConfig deserialize input directory config h e =
    let (raw, given, e1) = bind-eq-ok (ok_or (deserialize input) syntax) _ e in
    (
      raw,
      ok_or-eq-ok (deserialize input) syntax given,
      validated-IsValidConfig directory raw config h e1,
    )
