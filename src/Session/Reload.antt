-- ===== src/Session/Reload.antt =====
-- src/control/reload.rs, `reload_locked`, and `list` of src/control/session.rs: the sections under
-- the lock of the registry. What lies between them (reading the configuration and the secrets,
-- starting a listener) gives the candidate, and is left open.
use baffle.Prelude.{
  ℕ, ◌+◌, Bool, not, ◌||◌, none, some, List, [], ◌∷◌, ◌++◌, ltb, leb, if◌then◌else◌, Result, ok,
  err,
}
use baffle.Prelude.Text.{Bytes, length}
use baffle.Prelude.Assoc.{Assoc, get}
use baffle.Policy.Types.{SessionConfig}
use baffle.Session.{SessionRegistry, ManagedSession, ProxyRuntime, is_stopping, set_session}

pub data ReloadReason : Type 0 where
  session_unavailable session_stopping inline_session generation_limit : ReloadReason

abbrev pub max_retired_listeners : ℕ
max_retired_listeners = 8

abbrev pub max_u64 : ℕ
max_u64 = 18446744073709551615

abbrev pub saturating_add_one : ℕ → ℕ
saturating_add_one n = if ltb n max_u64 then n + 1 else max_u64

-- `retain(|runtime| !runtime.is_finished())`.
unfoldable pub unfinished : (ProxyRuntime → Bool) → List ProxyRuntime → List ProxyRuntime
unfinished is_finished [] = []
unfinished is_finished (runtime ∷ rest) =
    let kept = unfinished is_finished rest in if is_finished runtime then kept else runtime ∷ kept

module _ (is_finished : ProxyRuntime → Bool) where
  unfoldable pub retain : ManagedSession → ManagedSession
  retain session = record session {
    retired_runtimes = unfinished is_finished session.retired_runtimes;
  }

  unfoldable pub refresh : ManagedSession → ManagedSession
  refresh session =
      let kept = unfinished is_finished session.retired_runtimes in
      record session {
        retired_runtimes = kept;
        info = record session.info { draining_generations = length kept };
      }

  -- `list`, before the sessions are sorted.
  unfoldable pub refresh_all : Assoc ManagedSession → Assoc ManagedSession
  refresh_all [] = []
  refresh_all ((id, session) ∷ rest) = (id, refresh session) ∷ refresh_all rest

  -- The first section: the source of the session's policy, where it can be reloaded.
  unfoldable pub check_reload :
      Bytes → SessionRegistry → SessionRegistry × Result ReloadReason Bytes
  check_reload id registry = elim (get id registry.sessions) [
    | none ↦ (registry, err session_unavailable)
    | some session ↦
        let after = set_session id (refresh session) registry in
        if is_stopping session.info.state || not registry.accepting_sessions
        then (after, err session_stopping)
        else elim session.config_source [
          | none ↦ (after, err inline_session)
          | some source ↦ (after, ok source)
        ]
  ]

  -- Before another listener starts: its generation, if the present one can be retired.
  unfoldable pub prepare_listener :
      Bytes → SessionRegistry → SessionRegistry × Result ReloadReason ℕ
  prepare_listener id registry =
      if not registry.accepting_sessions
      then (registry, err session_stopping)
      else elim (get id registry.sessions) [
        | none ↦ (registry, err session_unavailable)
        | some session ↦
            let kept = retain session in
            let after = set_session id kept registry in
            elim session.runtime [
              | none ↦ (after, err session_stopping)
              | some runtime ↦
                  if leb max_u64 session.listener_generation
                  then (after, err generation_limit)
                  else if ltb (length kept.retired_runtimes) max_retired_listeners
                  then (after, ok (session.listener_generation + 1))
                  else (after, err generation_limit)
            ]
      ]

-- The policy and secrets of the candidate take the place of the present ones.
unfoldable pub adopt : SessionConfig → Assoc Bytes → ManagedSession → ManagedSession
adopt candidate secrets session = record session {
  configuration = candidate;
  secrets = secrets;
  info = record session.info {
    generation = saturating_add_one session.info.generation;
    draining_generations = length session.retired_runtimes;
  };
}

-- The section for a candidate with the same socket; `replaced` is what `replace_generation` of the
-- runtime answers.
unfoldable pub replace_generation :
    Bool
    → SessionConfig
    → Assoc Bytes
    → Bytes
    → SessionRegistry
    → SessionRegistry × Result ReloadReason (Unit {0})
replace_generation replaced candidate secrets id registry =
    if not registry.accepting_sessions
    then (registry, err session_stopping)
    else elim (get id registry.sessions) [
      | none ↦ (registry, err session_unavailable)
      | some session ↦ elim session.runtime [
        | none ↦ (registry, err session_stopping)
        | some runtime ↦
            if replaced
            then (set_session id (adopt candidate secrets session) registry, ok tt)
            else (registry, err generation_limit)
      ]
    ]

-- The new listener takes the place of the old one, which is retired.
unfoldable pub move_listener :
    SessionConfig → Assoc Bytes → ProxyRuntime → ProxyRuntime → ManagedSession → ManagedSession
move_listener candidate secrets replacement old session =
    let retired = session.retired_runtimes ++ old ∷ [] in
    record session {
      configuration = candidate;
      secrets = secrets;
      info = record session.info {
        socket = replacement.socket_path;
        generation = saturating_add_one session.info.generation;
        draining_generations = length retired;
      };
      runtime = some replacement;
      listener_generation = replacement.listener_generation;
      listener_gate = replacement.listener_generation;
      retired_runtimes = retired;
    }

-- The last section, with the new listener.
unfoldable pub install_listener :
    SessionConfig
    → Assoc Bytes
    → ProxyRuntime
    → Bytes
    → SessionRegistry
    → SessionRegistry × Result ReloadReason (Unit {0})
install_listener candidate secrets replacement id registry =
    if not registry.accepting_sessions
    then (registry, err session_stopping)
    else elim (get id registry.sessions) [
      | none ↦ (registry, err session_unavailable)
      | some session ↦
          if is_stopping session.info.state
          then (registry, err session_stopping)
          else elim session.runtime [
            | none ↦ (registry, err session_stopping)
            | some old ↦ (
              set_session id (move_listener candidate secrets replacement old session) registry,
              ok tt,
            )
          ]
    ]
