-- ===== src/SessionFiles/Access.antt =====
-- src/control/file_config.rs: reading a session file safely. Directories, files and their metadata
-- are the operating system's, and parameters.
use baffle.Prelude.{
  if◌then◌else◌, [], ◌∷◌, List, ℕ, ◌+◌, true, false, not, List, [], ◌∷◌, Result, ok, err, ◌>>=◌,
  ◌>>◌, fail_if, map_err, Bool, ltb, ◌==◌, if◌then◌else◌, ◌&&◌, ◌||◌,
}
use baffle.Prelude.Text.{eq, is_empty, starts_with, Bytes, bytes, any, length, split}
use baffle.Io.{IoError, ErrorKind, permission_denied}
use baffle.Secrets.{Metadata, bit, special_bits}
use baffle.SessionFiles.Errors.{
  SessionConfigFileError, SessionConfigFileErrorKind, invalid_detail, unavailable_file, missing,
  too_large, not_utf8, bad_component, empty_path,
}

pub record Files : Type 1 where
  pub Directory : Type 0
  pub File : Type 0
  -- `openat` with the flags for a directory, and for a file.
  pub open_directory : Directory → Bytes → Result IoError Directory
  pub open_file : Directory → Bytes → Result IoError File
  pub directory_metadata : Directory → Result IoError Metadata
  pub file_metadata : File → Result IoError Metadata
  -- `file.take(limit).read_to_end(..)`.
  pub read_to_end : File → ℕ → Result IoError Bytes
  pub is_utf8 : Bytes → Bool

abbrev pub max_session_config_bytes : ℕ
max_session_config_bytes = 262144

unfoldable pub trusted_owner : ℕ → ℕ → Bool
trusted_owner owner_uid trusted_uid = owner_uid == trusted_uid || owner_uid == 0

abbrev refused : Bytes → IoError
refused message = record { kind = permission_denied; message = message }

unfoldable pub is_traversable : Metadata → ℕ → Bool
is_traversable metadata trusted_uid =
    if metadata.uid == trusted_uid
    then bit 64 metadata.mode
    else bit 64 metadata.mode || bit 8 metadata.mode || bit 1 metadata.mode

unfoldable pub validate_config_directory_metadata : Metadata → ℕ → Bool → Result IoError (Unit {0})
validate_config_directory_metadata metadata trusted_uid allow_sticky_parent = do
  fail_if (not metadata.is_dir || not (trusted_owner metadata.uid trusted_uid))
      (refused (bytes "unsafe session configuration directory"))
  let sticky_parent = allow_sticky_parent && bit 512 metadata.mode
  fail_if ((bit 16 metadata.mode || bit 2 metadata.mode) && not sticky_parent)
      (refused (bytes "writable session configuration directory"))
  fail_if (not (is_traversable metadata trusted_uid))
      (refused (bytes "untraversable session configuration directory"))
  ok tt

abbrev pub is_not_found : ErrorKind → Bool
is_not_found ErrorKind.not_found = true
is_not_found _ = false

unfoldable pub classify_config_file_io : Bytes → IoError → SessionConfigFileError
classify_config_file_io name error =
    if is_not_found error.kind
    then record { kind = SessionConfigFileErrorKind.not_found; detail = missing name }
    else unavailable_file name

unfoldable pub is_bad_file : Metadata → ℕ → Bool
is_bad_file metadata trusted_uid =
    not metadata.is_file
    || not (trusted_owner metadata.uid trusted_uid)
    || (not (special_bits metadata.mode == 0) || bit 16 metadata.mode || bit 2 metadata.mode)
    || not (bit 256 metadata.mode || bit 32 metadata.mode || bit 4 metadata.mode)

-- `CString::new`: no NUL byte.
unfoldable pub c_string : Bytes → Bytes → Result SessionConfigFileError Bytes
c_string name component = do
  fail_if (any (λ c. c == 0) component) (invalid_detail (bad_component name))
  ok component

-- The messages of `open_trusted_directory_tree`, with the operating system's errors.
pub data TreeError : Type 0 where
  not_absolute path_invalid is_filesystem_root : TreeError
  root_unopened unopened uninspected unsafe_directory : IoError → TreeError

-- The normal components of an absolute path: `path.components()` passes over empty ones and `.`, and
-- `..` is refused.
abbrev add_component : Bytes → List Bytes → Result TreeError (List Bytes)
add_component component components =
    if is_empty component || eq component (bytes ".")
    then ok components
    else if eq component (bytes "..")
    then err path_invalid
    else ok (component ∷ components)

unfoldable pub normal_components : List Bytes → Result TreeError (List Bytes)
normal_components [] = ok []
normal_components (component ∷ rest) = do
  components ← normal_components rest
  add_component component components

module _ (files : Files) (trusted_uid : ℕ) where
  open files use {
    Directory, File, open_directory, open_file, directory_metadata, file_metadata, read_to_end,
    is_utf8,
  }

  -- The loop over the components; only directories above the last may be sticky and writable.
  unfoldable pub open_tree : Directory → List Bytes → Result TreeError Directory
  open_tree directory [] = ok directory
  open_tree directory (component ∷ rest) = do
    fail_if (any (λ c. c == 0) component) path_invalid
    inner ← map_err unopened (open_directory directory component)
    metadata ← map_err uninspected (directory_metadata inner)
    map_err unsafe_directory
        (validate_config_directory_metadata metadata trusted_uid (not (is_empty rest)))
    open_tree inner rest

  -- From the file system's root, or the failure to open it.
  unfoldable pub open_trusted_directory_tree :
      Result IoError Directory → Bytes → Result TreeError Directory
  open_trusted_directory_tree root path = do
    fail_if (not (starts_with path (bytes "/"))) not_absolute
    directory ← map_err root_unopened root
    components ← normal_components (split b'/' path)
    fail_if (is_empty components) is_filesystem_root
    open_tree directory components

  unfoldable pub enter_directory :
      Bytes → Directory → Bytes → Result SessionConfigFileError Directory
  enter_directory name parent component = do
    component ← c_string name component
    directory ← map_err (classify_config_file_io name) (open_directory parent component)
    metadata ← map_err (λ _. unavailable_file name) (directory_metadata directory)
    map_err (λ _. unavailable_file name)
        (validate_config_directory_metadata metadata trusted_uid false)
    ok directory

  unfoldable pub read_file : Bytes → Directory → Bytes → Result SessionConfigFileError Bytes
  read_file name parent component = do
    component ← c_string name component
    file ← map_err (classify_config_file_io name) (open_file parent component)
    metadata ← map_err (λ _. unavailable_file name) (file_metadata file)
    fail_if (is_bad_file metadata trusted_uid) (unavailable_file name)
    fail_if (ltb max_session_config_bytes metadata.len) (invalid_detail (too_large name))
    text ← map_err (λ _. unavailable_file name) (read_to_end file (max_session_config_bytes + 1))
    fail_if (ltb max_session_config_bytes (length text)) (invalid_detail (too_large name))
    fail_if (not (is_utf8 text)) (invalid_detail (not_utf8 name))
    ok text

  -- The loop over the components of the name.
  unfoldable pub descend : Bytes → Directory → List Bytes → Result SessionConfigFileError Bytes
  descend name directory [] = err (invalid_detail (empty_path name))
  descend name directory (component ∷ []) = read_file name directory component
  descend name directory (component ∷ next ∷ rest) = do
    inner ← enter_directory name directory component
    descend name inner (next ∷ rest)

  -- From an open handle of the store's directory, or the failure to clone it.
  unfoldable pub read_snapshot :
      Result IoError Directory → Bytes → Result SessionConfigFileError Bytes
  read_snapshot root name = do
    directory ← map_err (λ _. unavailable_file name) root
    descend name directory (split b'/' name)
