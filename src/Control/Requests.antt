-- ===== src/Control/Requests.antt =====
-- What an accepted control request of src/config/protocol.rs is known to be.
use baffle.Prelude.{
  ℕ, ◌≡◌, ap, ◌∙◌, not, some, ok, ok_or, map_err, bind-eq-ok, fail_if-eq-ok, ok-injective, arith,
  ◌==◌, map_err-eq-ok, ok_or-eq-ok, subst,
}
use baffle.Prelude.Text.{Bytes, eq}
use baffle.Prelude.Apart.{Apart}
use baffle.Policy.Dns.{ParsedHost}
use baffle.Policy.Names.{validate_session_config_name, validate_session_id}
use baffle.Policy.Document.{from_toml, from_toml-AllValid}
use baffle.Policy.Rules.Valid.{AllValid, hosts_of}
use baffle.Control.Protocol.{
  ControlRequest, RawControlRequest, raw_create, raw_create_from_file, raw_stop, raw_reload,
  raw_reload_all, raw_list, syntax, session_invalid, session_syntax, name_invalid,
  validate_protocol_version, RequestToml, validate_request, request_from_toml, protocol_version,
}

-- The rules of a policy are valid and for distinct hosts, and identifiers and names are accepted.
unfoldable pub IsValidRequest : ControlRequest → Type 0
IsValidRequest (ControlRequest.create version session) =
    AllValid session.rules × Apart eq (hosts_of session.rules)
IsValidRequest (ControlRequest.create_from_file version name require_ephemeral) =
    validate_session_config_name name ≡ ok tt
IsValidRequest (ControlRequest.stop version id) = validate_session_id id ≡ ok tt
IsValidRequest (ControlRequest.reload version id) = validate_session_id id ≡ ok tt
IsValidRequest (ControlRequest.reload_all version) = Unit {0}
IsValidRequest (ControlRequest.list version) = Unit {0}

version_lem :
    (version : ℕ) {u : Unit {0}}
    → validate_protocol_version version ≡ ok u
    → version ≡ protocol_version
unfolding validate_protocol_version
version_lem version e =
    let (same, _) = fail_if-eq-ok (not (version == protocol_version)) _ _ e in ground arith

module _ (toml : RequestToml) (parse_host : Bytes → ParsedHost) where
  open toml use {Value, to_string, deserialize_session, deserialize_version, deserialize_request}

  validate_request-IsValidRequest :
      (raw : RawControlRequest Value) (request : ControlRequest)
      → validate_request toml parse_host raw ≡ ok request
      → IsValidRequest request
  unfolding validate_request IsValidRequest
  validate_request-IsValidRequest (raw_create version value) request e =
      let (text, et, e1) = bind-eq-ok (ok_or (to_string value) session_syntax) _ e in
      let (session, es, e2) =
        bind-eq-ok (map_err session_invalid (from_toml parse_host deserialize_session text)) _ e1 in
      let known =
        from_toml-AllValid parse_host deserialize_session text session
          (map_err-eq-ok session_invalid _ es) in
      subst IsValidRequest (ok-injective e2) (known.0, known.1)
  validate_request-IsValidRequest (raw_create_from_file version name require_ephemeral) request e =
      let (u, en, e1) = bind-eq-ok (map_err name_invalid (validate_session_config_name name)) _ e in
      subst IsValidRequest (ok-injective e1) (map_err-eq-ok name_invalid _ en)
  validate_request-IsValidRequest (raw_stop version id) request e =
      let (u, en, e1) = bind-eq-ok (map_err name_invalid (validate_session_id id)) _ e in
      subst IsValidRequest (ok-injective e1) (map_err-eq-ok name_invalid _ en)
  validate_request-IsValidRequest (raw_reload version id) request e =
      let (u, en, e1) = bind-eq-ok (map_err name_invalid (validate_session_id id)) _ e in
      subst IsValidRequest (ok-injective e1) (map_err-eq-ok name_invalid _ en)
  validate_request-IsValidRequest (raw_reload_all version) request e =
      subst IsValidRequest (ok-injective e) tt
  validate_request-IsValidRequest (raw_list version) request e =
      subst IsValidRequest (ok-injective e) tt

  -- An accepted control request declares the version of the protocol; if it carries a policy, its rules
  -- are valid and for distinct hosts, and if it names a file or a session, the name is accepted.
  pub request_from_toml-IsValidRequest :
      (input : Bytes) (request : ControlRequest)
      → request_from_toml toml parse_host input ≡ ok request
      → (deserialize_version input ≡ some protocol_version) × IsValidRequest request
  unfolding request_from_toml
  request_from_toml-IsValidRequest input request e =
      let (version, ev, e1) = bind-eq-ok (ok_or (deserialize_version input) syntax) _ e in
      let (u, ec, e2) = bind-eq-ok (validate_protocol_version version) _ e1 in
      let (raw, er, e3) = bind-eq-ok (ok_or (deserialize_request input) syntax) _ e2 in
      (
        ok_or-eq-ok (deserialize_version input) syntax ev ∙ ap some (version_lem version ec),
        validate_request-IsValidRequest raw request e3,
      )
