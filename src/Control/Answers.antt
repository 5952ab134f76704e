-- ===== src/Control/Answers.antt =====
-- That each answer to a request on a control connection (src/control/server.rs) does what it may do.
use baffle.Prelude.{
  ◌≡◌, ◌⊎◌, inl, inr, refl, true, Option, none, some, List, [], ◌∷◌, Result, ok, Bool-cases,
  Result-cases, Bool, if◌then◌else◌, ◌&&◌, false,
}
use baffle.Prelude.Text.{Bytes}
use baffle.Prelude.Assoc.{Assoc}
use baffle.Policy.Types.{SessionConfig}
use baffle.SessionFiles.Errors.{SessionConfigFileError}
use baffle.Control.Protocol.{ControlRequest}
use baffle.Control.Frame.{
  busy, secret_unavailable, operation_not_allowed, internal, ephemeral_required,
}
use baffle.Control.Effects.{leased, removed}
use baffle.Control.Connection.{
  failure, file_failure, create_error, SessionCreateMode, inline, file_only, CreatedSession, Effect,
  creates, stops, reloads, reloads_all, lists, removes, Response, ControlState, Answer, answer,
  create_session_response, answer_create, answer_read, answer_create_from_file, answer_request,
  failure,
}

abbrev pub to_list : Option Bytes → List Bytes
to_list none = []
to_list (some id) = id ∷ []

module _ (state : ControlState) where
  open state use {
    stream, peer_uid, create_mode, has_slot, session_configs, resolve_secrets, create_session,
    writes, parse_request, is_utf8, reload_session,
  }

  -- Where the session of a created session came from: the request, or a file that the request names.
  abbrev pub Sourced : SessionConfig → Option Bytes → Type 0
  Sourced session source =
      ((create_mode ≡ inline) × (source ≡ none))
      ⊎ ((create_mode ≡ file_only)
          × ((name : Bytes) × (read_session : Bytes → Result SessionConfigFileError SessionConfig)
              × (source ≡ some name)
              × (session_configs ≡ some read_session)
              × (read_session name ≡ ok session)))

  -- A session is created with a slot, from where the daemon's mode allows, with the secrets it may have.
  unfoldable pub Allowed : Effect → Type 0
  Allowed (creates created source) =
      (session : SessionConfig) × (secrets : Assoc Bytes) × (resolve_secrets session ≡ ok secrets)
      × (create_session session secrets source ≡ ok created)
      × (has_slot ≡ true)
      × Sourced session source
  Allowed (stops id) = Unit {0}
  Allowed (reloads id) = Unit {0}
  Allowed reloads_all = Unit {0}
  Allowed lists = Unit {0}
  Allowed (removes id reason) = Unit {0}

  abbrev pub AllAllowed : List Effect → Type 0
  AllAllowed [] = Unit {0}
  AllAllowed (effect ∷ effects) = Allowed effect × AllAllowed effects

  -- What is known of an answer: it does what is allowed, holds what it leased, and removed nothing.
  unfoldable pub Good : Answer state → Type 0
  Good answered =
      AllAllowed answered.effects
      × (leased answered.effects ≡ to_list answered.lease_id)
      × (removed answered.effects ≡ [])

  silent-Good : (response : Response (ControlState.Report state)) → Good (answer state [] response)
  unfolding Good leased removed
  silent-Good response = (tt, refl, refl)

  if-Good :
      (b : Bool) (x y : Answer state)
      → (b ≡ true → Good x)
      → (b ≡ false → Good y)
      → Good (if b then x else y)
  if-Good true x y h k = h refl
  if-Good false x y h k = k refl

  lease_lem :
      (created : CreatedSession) (source : Option Bytes)
      → leased (creates created source ∷ [])
        ≡ to_list (if created.persistent then none else some created.id)
  unfolding leased
  lease_lem created source = elim (Bool-cases created.persistent) [
    | inl kept ↦ rw (leased, kept) refl
    | inr held ↦ rw (leased, held) refl
  ]

  create_session_response-Good :
      (session : SessionConfig) (source : Option Bytes)
      → has_slot ≡ true
      → Sourced session source
      → Good (create_session_response state session source)
  unfolding create_session_response Good Allowed removed
  create_session_response-Good session source slot sourced =
      elim (Result-cases (resolve_secrets session)) [
        | inr (e, failed) ↦
            rw (create_session_response, failed) (silent-Good (failure secret_unavailable))
        | inl (secrets, resolved) ↦ elim (Result-cases (create_session session secrets source)) [
          | inr (e, failed) ↦
              rw (create_session_response, resolved, failed)
                (silent-Good (failure (create_error state e)))
          | inl (created, done) ↦
              rw (create_session_response, resolved, done)
                (
                  ((session, secrets, resolved, done, slot, sourced), tt),
                  lease_lem created source,
                  refl,
                )
        ]
      ]

  answer_create-Good :
      (mode : SessionCreateMode) (session : SessionConfig)
      → create_mode ≡ mode
      → Good (answer_create state mode session)
  unfolding answer_create
  answer_create-Good file_only session same = silent-Good (failure operation_not_allowed)
  answer_create-Good inline session same =
      if-Good has_slot _ _
        (λ slot. create_session_response-Good session none slot (inl (same, refl)))
        (λ full. silent-Good (failure busy))

  answer_read-Good :
      (name : Bytes) (require_ephemeral : Bool)
      (configs : Option (Bytes → Result SessionConfigFileError SessionConfig))
      → create_mode ≡ file_only
      → has_slot ≡ true
      → session_configs ≡ configs
      → Good (answer_read state name require_ephemeral configs)
  unfolding answer_read
  answer_read-Good name require_ephemeral none mode slot same = silent-Good (failure internal)
  answer_read-Good name require_ephemeral (some read_session) mode slot same =
      elim (Result-cases (read_session name)) [
        | inr (e, failed) ↦ rw (answer_read, failed) (silent-Good (file_failure e))
        | inl (session, found) ↦
            rw (answer_read, found)
              (if-Good (require_ephemeral && session.persistent) _ _
                (λ refused. silent-Good (failure ephemeral_required))
                (λ fitting.
                  create_session_response-Good session (some name) slot
                    (inr (mode, (name, read_session, refl, same, found)))))
      ]

  answer_create_from_file-Good :
      (mode : SessionCreateMode) (name : Bytes) (require_ephemeral : Bool)
      → create_mode ≡ mode
      → Good (answer_create_from_file state mode name require_ephemeral)
  unfolding answer_create_from_file
  answer_create_from_file-Good inline name require_ephemeral same =
      silent-Good (failure operation_not_allowed)
  answer_create_from_file-Good file_only name require_ephemeral same =
      if-Good has_slot _ _
        (λ slot. answer_read-Good name require_ephemeral session_configs same slot refl)
        (λ full. silent-Good (failure busy))

  pub answer_request-Good : (request : ControlRequest) → Good (answer_request state request)
  unfolding answer_request Good Allowed leased removed
  answer_request-Good (ControlRequest.create version session) =
      answer_create-Good create_mode session refl
  answer_request-Good (ControlRequest.create_from_file version name require_ephemeral) =
      answer_create_from_file-Good create_mode name require_ephemeral refl
  answer_request-Good (ControlRequest.stop version id) = ((tt, tt), refl, refl)
  answer_request-Good (ControlRequest.reload version id) = ((tt, tt), refl, refl)
  answer_request-Good (ControlRequest.reload_all version) = ((tt, tt), refl, refl)
  answer_request-Good (ControlRequest.list version) = ((tt, tt), refl, refl)
