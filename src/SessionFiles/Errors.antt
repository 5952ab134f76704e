-- ===== src/SessionFiles/Errors.antt =====
-- src/control/file_config.rs: why a session file is refused.
use baffle.Prelude.Text.{Bytes, bytes}
use baffle.Policy.Types.{UnmatchedHostPolicy, CredentialMode}
use baffle.Policy.Document.{DocumentIssue}

pub data SessionConfigFileErrorKind : Type 0 where
  not_found unavailable invalid : SessionConfigFileErrorKind

-- The messages, with what they name.
pub data Detail : Type 0 where
  missing unreadable too_large not_utf8 bad_component empty_path : Bytes → Detail
  import_cycle import_syntax not_table root_fields import_not_string imports_not_array :
      Bytes → Detail
  import_path undecodable unmatched_conflict default_mode_conflict : Bytes → Detail
  import_depth import_files root_not_loaded : Detail
  document_invalid : Bytes → DocumentIssue → Detail
  mode_conflict host_duplicate : Bytes → Detail
  unmatched_differs : UnmatchedHostPolicy → Detail
  default_mode_differs : CredentialMode → Detail

pub record SessionConfigFileError : Type 0 where
  pub kind : SessionConfigFileErrorKind
  pub detail : Detail

-- `SessionConfigFileError::invalid`, and so `invalid_file`.
abbrev pub invalid_detail : Detail → SessionConfigFileError
invalid_detail detail = record { kind = SessionConfigFileErrorKind.invalid; detail = detail }

abbrev pub unavailable_file : Bytes → SessionConfigFileError
unavailable_file name = record {
  kind = SessionConfigFileErrorKind.unavailable;
  detail = unreadable name;
}

unfoldable pub create_code : SessionConfigFileError → Bytes
create_code error = elim error.kind [
  | SessionConfigFileErrorKind.not_found ↦ bytes "config_file_not_found"
  | SessionConfigFileErrorKind.unavailable ↦ bytes "config_file_unavailable"
  | SessionConfigFileErrorKind.invalid ↦ bytes "config_file_invalid"
]

unfoldable pub reload_reason : SessionConfigFileError → Bytes
reload_reason error = elim error.kind [
  | SessionConfigFileErrorKind.not_found ↦ bytes "configuration_not_found"
  | SessionConfigFileErrorKind.unavailable ↦ bytes "configuration_unavailable"
  | SessionConfigFileErrorKind.invalid ↦ bytes "configuration_invalid"
]
