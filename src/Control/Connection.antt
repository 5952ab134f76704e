-- ===== src/Control/Connection.antt =====
-- src/control/server.rs: `handle_connection`, what one control connection does. The operations of the
-- session registry (Session.antt), of the secret store and of the session files are parameters here,
-- as is whether a response can be written.
use baffle.Prelude.{
  ℕ, true, false, Option, none, some, List, [], ◌∷◌, ◌++◌, Result, ok, err, Bool, ◌==◌,
  if◌then◌else◌, ◌&&◌,
}
use baffle.Prelude.Text.{Bytes, bytes}
use baffle.Prelude.Assoc.{Assoc}
use baffle.Policy.Types.{SessionConfig}
use baffle.Secrets.{SecretStoreError}
use baffle.Session.{SessionError, at_capacity, shutting_down, internal, SessionInfo}
use baffle.SessionFiles.Errors.{SessionConfigFileError}
use baffle.Control.Protocol.{ControlRequest, ConfigError, is_unsupported_protocol_version}
use baffle.Control.Frame.{
  TimedReader, RequestError, unauthorized, invalid_request, unsupported_version, busy,
  session_limit, session_not_found, secret_unavailable, operation_not_allowed, ephemeral_required,
  read_request_frame,
}

pub data SessionCreateMode : Type 0 where
  inline file_only : SessionCreateMode

-- Why `SessionManager::create` fails: an error of the registry, or of starting the runtime.
pub data CreateError : Type 0 where
  registry : SessionError → CreateError
  runtime : CreateError

pub record CreatedSession : Type 0 where
  pub id : Bytes
  pub socket : Bytes
  pub persistent : Bool
  pub ca_certificate_pem : Bytes
  pub credential_seed : Bytes

-- What a connection did to the registry, in order; a session is created from a file or not.
pub data Effect : Type 0 where
  creates : CreatedSession → Option Bytes → Effect
  stops reloads : Bytes → Effect
  reloads_all lists : Effect
  removes : (id : Bytes) (reason : Bytes) → Effect

-- `success` and `error_value`, and `error_value_with_message` for session files.
pub data Response (Report : Type 0) : Type 0 where
  failure : RequestError → Response Report
  file_failure : SessionConfigFileError → Response Report
  created : CreatedSession → Response Report
  stopped : Response Report
  reloaded : Report → Response Report
  reloaded_all : List Report → Response Report
  listed : List SessionInfo → Response Report

pub record ControlState : Type 1 where
  pub stream : TimedReader
  pub Report : Type 0
  -- `peer_cred` of the connection.
  pub peer_uid : Option ℕ
  pub trusted_operator_uid : ℕ
  pub create_mode : SessionCreateMode
  -- Whether a provisioning slot can be acquired.
  pub has_slot : Bool
  pub session_configs : Option (Bytes → Result SessionConfigFileError SessionConfig)
  pub resolve_secrets : SessionConfig → Result SecretStoreError (Assoc Bytes)
  pub create_session :
      SessionConfig → Assoc Bytes → Option Bytes → Result CreateError CreatedSession
  pub stop_session : Bytes → Bool
  pub reload_session : Bytes → Option Report
  pub reload_sessions : List Report
  pub list_sessions : List SessionInfo
  pub is_utf8 : Bytes → Bool
  pub parse_request : Bytes → Result ConfigError ControlRequest
  -- Whether `write_value` succeeds.
  pub writes : Response Report → Bool

-- The removal of the session that a connection holds.
abbrev pub release : Option Bytes → Bytes → List Effect
release none reason = []
release (some id) reason = removes id reason ∷ []

module _ (state : ControlState) where
  open state use {
    stream, Report, peer_uid, trusted_operator_uid, create_mode, has_slot, session_configs,
    resolve_secrets, create_session, stop_session, reload_session, reload_sessions, list_sessions,
    is_utf8, parse_request, writes,
  }

  -- The effects, the response and the session that the connection holds.
  pub record Answer : Type 0 where
    pub effects : List Effect
    pub response : Response Report
    pub lease_id : Option Bytes

  -- What a connection did, and the response that it wrote, if any.
  pub record Served : Type 0 where
    pub effects : List Effect
    pub response : Option (Response Report)

  abbrev pub answer : List Effect → Response Report → Answer
  answer effects response = record { effects = effects; response = response; lease_id = none }

  abbrev pub create_error : CreateError → RequestError
  create_error (registry at_capacity) = session_limit
  create_error (registry shutting_down) = RequestError.shutting_down
  create_error (registry internal) = RequestError.internal
  create_error runtime = RequestError.internal

  unfoldable pub create_session_response : SessionConfig → Option Bytes → Answer
  create_session_response session config_source = elim (resolve_secrets session) [
    | err e ↦ answer [] (failure secret_unavailable)
    | ok secrets ↦ elim (create_session session secrets config_source) [
      | err e ↦ answer [] (failure (create_error e))
      | ok session ↦ record {
        effects = creates session config_source ∷ [];
        response = created session;
        lease_id = if session.persistent then none else some session.id;
      }
    ]
  ]

  unfoldable pub answer_create : SessionCreateMode → SessionConfig → Answer
  answer_create file_only session = answer [] (failure operation_not_allowed)
  answer_create inline session =
      if has_slot then create_session_response session none else answer [] (failure busy)

  unfoldable pub answer_read :
      Bytes → Bool → Option (Bytes → Result SessionConfigFileError SessionConfig) → Answer
  answer_read name require_ephemeral none = answer [] (failure RequestError.internal)
  answer_read name require_ephemeral (some read_session) = elim (read_session name) [
    | err e ↦ answer [] (file_failure e)
    | ok session ↦
        if require_ephemeral && session.persistent
        then answer [] (failure ephemeral_required)
        else create_session_response session (some name)
  ]

  unfoldable pub answer_create_from_file : SessionCreateMode → Bytes → Bool → Answer
  answer_create_from_file inline name require_ephemeral = answer [] (failure operation_not_allowed)
  answer_create_from_file file_only name require_ephemeral =
      if has_slot
      then answer_read name require_ephemeral session_configs
      else answer [] (failure busy)

  unfoldable pub answer_request : ControlRequest → Answer
  answer_request (ControlRequest.create version session) = answer_create create_mode session
  answer_request (ControlRequest.create_from_file version name require_ephemeral) =
      answer_create_from_file create_mode name require_ephemeral
  answer_request (ControlRequest.stop version session_id) =
      answer (stops session_id ∷ [])
        (if stop_session session_id then stopped else failure session_not_found)
  answer_request (ControlRequest.reload version session_id) =
      answer (reloads session_id ∷ []) (elim (reload_session session_id) [
        | none ↦ failure session_not_found
        | some report ↦ reloaded report
      ])
  answer_request (ControlRequest.reload_all version) =
      answer (reloads_all ∷ []) (reloaded_all reload_sessions)
  answer_request (ControlRequest.list version) = answer (lists ∷ []) (listed list_sessions)

  -- The response is written, and a session that the connection holds ends with it.
  unfoldable pub finish : Answer → Served
  finish answered = record {
    effects =
        answered.effects
        ++ release answered.lease_id (
            if writes answered.response
            then bytes "lease_closed"
            else bytes "response_write_failed");
    response = some answered.response;
  }

  abbrev pub refuse : RequestError → Served
  refuse error = record { effects = []; response = some (failure error) }

  unfoldable pub handle_request : Bytes → Served
  handle_request body =
      if is_utf8 body
      then elim (parse_request body) [
        | err e ↦
            refuse
              (if is_unsupported_protocol_version e then unsupported_version else invalid_request)
        | ok request ↦ finish (answer_request request)
      ]
      else refuse invalid_request

  abbrev pub is_peer : Option ℕ → Bool
  is_peer none = false
  is_peer (some uid) = uid == trusted_operator_uid

  unfoldable pub handle_connection : TimedReader.State stream → Served
  handle_connection s = elim (is_peer peer_uid) [
    | false ↦ refuse unauthorized
    | true ↦ elim (read_request_frame stream s) [
      | err e ↦ refuse e
      | ok (none, s') ↦ record { effects = []; response = none }
      | ok (some body, s') ↦ handle_request body
    ]
  ]
