-- ===== src/SessionFiles/Merge.antt =====
-- src/control/file_config.rs: the state of a composition, and how the settings of one file are merged
-- into it. The `toml` crate is a parameter.
use baffle.Prelude.{
  true, false, not, Option, none, some, List, [], ◌∷◌, ◌++◌, Result, ok, err, ◌>>=◌, ◌>>◌, fail_if,
  Bool,
}
use baffle.Prelude.Text.{Bytes}
use baffle.Prelude.Assoc.{Assoc, get, insert}
use baffle.Prelude.Sizes.{member}
use baffle.Policy.Types.{CredentialMode, UnmatchedHostPolicy, HostRule, SessionConfig, deny}
use baffle.SessionFiles.Errors.{
  SessionConfigFileError, invalid_detail, unmatched_conflict, default_mode_conflict, mode_conflict,
  host_duplicate, unmatched_differs, default_mode_differs, Detail,
}

-- What the code takes from the `toml` crate.
pub record Toml : Type 1 where
  pub Value : Type 0
  pub from_str : Bytes → Option Value
  pub as_table : Value → Option (Assoc Value)
  pub as_array : Value → Option (List Value)
  pub as_str : Value → Option Bytes
  pub to_string : Assoc Value → Option Bytes

-- Why a composition stops: the code's error, or that the model's rounds ran out.
pub data Stop : Type 0 where
  failed : SessionConfigFileError → Stop
  exhausted : Stop

pub record RootSettings : Type 0 where
  pub persistent : Bool
  pub socket_name : Option Bytes

-- The top of the stack stands first.
pub record Composition : Type 0 where
  pub stack : List Bytes
  pub loaded : List Bytes
  pub hosts : List Bytes
  pub rules : List HostRule
  pub imported_unmatched : Option UnmatchedHostPolicy
  pub root_unmatched : Option UnmatchedHostPolicy
  pub imported_credential_default : Option CredentialMode
  pub root_credential_default : Option CredentialMode
  pub credential_modes : Assoc CredentialMode
  pub root : Option RootSettings

abbrev pub empty_composition : Composition
empty_composition = record {
  stack = [];
  loaded = [];
  hosts = [];
  rules = [];
  imported_unmatched = none;
  root_unmatched = none;
  imported_credential_default = none;
  root_credential_default = none;
  credential_modes = [];
  root = none;
}

-- `==` on the policies and on the modes.
abbrev pub same_unmatched : UnmatchedHostPolicy → UnmatchedHostPolicy → Bool
same_unmatched deny deny = true
same_unmatched UnmatchedHostPolicy.tunnel UnmatchedHostPolicy.tunnel = true
same_unmatched _ _ = false

abbrev pub same_mode : CredentialMode → CredentialMode → Bool
same_mode CredentialMode.inject CredentialMode.inject = true
same_mode CredentialMode.substitute CredentialMode.substitute = true
same_mode CredentialMode.disabled CredentialMode.disabled = true
same_mode _ _ = false

-- `current.is_some_and(|current| current != value)`.
abbrev pub conflicts : {A : Type 0} → (A → A → Bool) → Option A → A → Bool
conflicts same none value = false
conflicts same (some current) value = not (same current value)

abbrev pub unwrap_or : {A : Type 0} → A → Option A → A
unwrap_or fallback none = fallback
unwrap_or fallback (some value) = value

abbrev pub invalid : {A : Type 0} → Detail → Result Stop A
invalid detail = err (failed (invalid_detail detail))

unfoldable pub set_unmatched :
    Bytes → Bool → Bool → UnmatchedHostPolicy → Composition → Result Stop Composition
set_unmatched name is_root false unmatched c = ok c
set_unmatched name true true unmatched c = do
  fail_if (conflicts same_unmatched c.root_unmatched unmatched)
      (failed (invalid_detail (unmatched_conflict name)))
  ok (record c { root_unmatched = some unmatched })
set_unmatched name false true unmatched c = do
  fail_if (conflicts same_unmatched c.imported_unmatched unmatched)
      (failed (invalid_detail (unmatched_conflict name)))
  ok (record c { imported_unmatched = some unmatched })

unfoldable pub set_credential_default :
    Bytes → Bool → Option CredentialMode → Composition → Result Stop Composition
set_credential_default name is_root none c = ok c
set_credential_default name true (some mode) c = do
  fail_if (conflicts same_mode c.root_credential_default mode)
      (failed (invalid_detail (default_mode_conflict name)))
  ok (record c { root_credential_default = some mode })
set_credential_default name false (some mode) c = do
  fail_if (conflicts same_mode c.imported_credential_default mode)
      (failed (invalid_detail (default_mode_conflict name)))
  ok (record c { imported_credential_default = some mode })

-- The loop over the modes of credentials.
unfoldable pub merge_modes : Assoc CredentialMode → Composition → Result Stop Composition
merge_modes [] c = ok c
merge_modes ((secret, mode) ∷ rest) c = do
  fail_if (conflicts same_mode (get secret c.credential_modes) mode)
      (failed (invalid_detail (mode_conflict secret)))
  merge_modes rest (record c { credential_modes = insert secret mode c.credential_modes })

-- The loop over the rules.
unfoldable pub merge_rules : List HostRule → Composition → Result Stop Composition
merge_rules [] c = ok c
merge_rules (rule ∷ rest) c = do
  fail_if (member rule.host c.hosts) (failed (invalid_detail (host_duplicate rule.host)))
  merge_rules rest (record c { hosts = c.hosts ++ rule.host ∷ []; rules = c.rules ++ rule ∷ [] })

-- The last block, for the root file.
unfoldable pub finish_root : Bool → SessionConfig → Composition → Result Stop Composition
finish_root false policy c = ok c
finish_root true policy c = do
  let unmatched = unwrap_or deny c.root_unmatched
  fail_if (conflicts same_unmatched c.imported_unmatched unmatched)
      (failed (invalid_detail (unmatched_differs unmatched)))
  let mode = unwrap_or CredentialMode.inject c.root_credential_default
  fail_if (conflicts same_mode c.imported_credential_default mode)
      (failed (invalid_detail (default_mode_differs mode)))
  ok (record c {
    root = some (record { persistent = policy.persistent; socket_name = policy.socket_name });
  })

-- The settings of a file's own document, after its imports.
unfoldable pub merge_policy :
    Bytes → Bool → Bool → SessionConfig → Composition → Result Stop Composition
merge_policy name is_root explicit_unmatched policy c = do
  c ← set_unmatched name is_root explicit_unmatched policy.unmatched c
  c ← set_credential_default name is_root policy.default_credential_mode c
  c ← merge_modes policy.credential_modes c
  c ← merge_rules policy.rules c
  finish_root is_root policy c
