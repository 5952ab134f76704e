-- ===== src/Secrets/Resolve.antt =====
-- src/secrets.rs: the secrets of a session, resolved from files that the daemon owns. The file system
-- is a parameter.
use baffle.Prelude.{
  ℕ, ◌+◌, false, not, Option, none, some, List, [], ◌∷◌, Result, ok, ◌>>=◌, ◌>>◌, fail_if, ok_or,
  Bool, ◌==◌, if◌then◌else◌, ◌&&◌, ◌||◌,
}
use baffle.Prelude.Text.{Bytes, any, all, eq, is_empty, length}
use baffle.Prelude.Assoc.{Assoc, get, insert}
use baffle.Prelude.Sizes.{member}
use baffle.Policy.Types.{
  HeaderInjection, HostRule, SessionConfig, effective_credential_mode, is_disabled,
}
use baffle.Secrets.{
  SecretStoreError, not_entitled, unavailable, Metadata, max_secret_bytes,
  validate_private_directory, validate_secret_file, secret_value,
}

-- The identity of a file is its device and its inode.
pub record SecretFiles : Type 1 where
  pub File : Type 0
  pub directory_metadata : Option Metadata
  -- `symlink_metadata` of the path of a name, `File::open` there, and `metadata` of what was opened.
  pub path_metadata : Bytes → Option (Metadata × ℕ × ℕ)
  pub open_path : Bytes → Option File
  pub file_metadata : File → Option (Metadata × ℕ × ℕ)
  -- `file.take(limit).read_to_end(..)`.
  pub read_to_end : File → ℕ → Option Bytes
  pub is_utf8 : Bytes → Bool

-- The set of the secrets of a session that are not disabled: `collect` drops what it has.
unfoldable pub add_requested : SessionConfig → List HeaderInjection → List Bytes → List Bytes
add_requested session [] names = names
add_requested session (injection ∷ rest) names =
    let others = add_requested session rest names in
    if is_disabled (effective_credential_mode session injection.secret)
      || member injection.secret others
    then others
    else injection.secret ∷ others

unfoldable pub requested_of : SessionConfig → List HostRule → List Bytes
requested_of session [] = []
requested_of session (rule ∷ rules) =
    add_requested session rule.injections (requested_of session rules)

-- `ResolvedSecrets::has_same_values`.
unfoldable pub has_same_values : Assoc Bytes → Assoc Bytes → Bool
has_same_values left right =
    length left == length right
    && all (λ entry. elim (get entry.0 right) [ none ↦ false | some value ↦ eq entry.1 value ]) left

module _ (files : SecretFiles) (trusted_uid : ℕ) where
  open files use {
    File, directory_metadata, path_metadata, open_path, file_metadata, read_to_end, is_utf8,
  }

  unfoldable pub read_secret : Bytes → Result SecretStoreError Bytes
  read_secret name = do
    metadata ← ok_or (path_metadata name) unavailable
    validate_secret_file metadata.0 trusted_uid
    file ← ok_or (open_path name) unavailable
    opened ← ok_or (file_metadata file) unavailable
    validate_secret_file opened.0 trusted_uid
    fail_if (not (opened.1 == metadata.1) || not (opened.2 == metadata.2)) unavailable
    content ← ok_or (read_to_end file (max_secret_bytes + 1)) unavailable
    secret_value is_utf8 content

  -- The loop over the requested names.
  unfoldable pub read_secrets : List Bytes → Assoc Bytes → Result SecretStoreError (Assoc Bytes)
  read_secrets [] resolved = ok resolved
  read_secrets (name ∷ rest) resolved = do
    value ← read_secret name
    read_secrets rest (insert name value resolved)

  unfoldable pub resolve : List Bytes → SessionConfig → Result SecretStoreError (Assoc Bytes)
  resolve allowed session = do
    let requested = requested_of session session.rules
    fail_if (any (λ name. not (member name allowed)) requested) not_entitled
    if is_empty requested then ok [] else do
      metadata ← ok_or directory_metadata unavailable
      validate_private_directory metadata trusted_uid
      read_secrets requested []

-- Which secrets are requested: those that an injection of a rule names and whose mode is not disabled.
abbrev pub is_requested : SessionConfig → Bytes → Bool
is_requested session name =
    any (λ rule. any (λ injection. eq injection.secret name) (HostRule.injections rule))
      session.rules
    && not (is_disabled (effective_credential_mode session name))
