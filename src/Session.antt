-- ===== src/Session.antt =====
-- src/control/session.rs: the registry of sessions. Each function is one section of a method of
-- `SessionManager` that runs under the lock of the registry; Session/Step.antt has how the sections
-- of concurrent calls follow each other. A `ProxyRuntime` is its socket and listener generation.
pub mod Reload
pub mod Step
pub mod Updates
pub mod ReloadUpdates
pub mod Consistent
pub mod Shutdown
pub mod Runs
pub mod Listing
pub mod Endings
pub mod Invariant
pub mod Listeners
pub mod Reloads
pub mod Generations
pub mod Limits
pub mod Reached
use baffle.Prelude.{
  ℕ, ◌+◌, Bool, true, false, not, ◌&&◌, Option, none, some, List, [], ◌∷◌, ◌++◌, leb, ◌==◌,
  if◌then◌else◌, Result, ok, err, ◌>>◌, fail_if,
}
use baffle.Prelude.Text.{Bytes, length}
use baffle.Prelude.Assoc.{Assoc, get, insert, remove, contains_key}
use baffle.Prelude.Sizes.{keys}
use baffle.Policy.Types.{SessionConfig}

pub data SessionLifecycle : Type 0 where
  running stopping : SessionLifecycle

pub data SessionError : Type 0 where
  at_capacity shutting_down internal : SessionError

pub record ProxyRuntime : Type 0 where
  pub socket_path : Bytes
  pub listener_generation : ℕ

pub record SessionInfo : Type 0 where
  pub id : Bytes
  pub socket : Bytes
  pub persistent : Bool
  pub state : SessionLifecycle
  pub generation : ℕ
  pub draining_generations : ℕ

pub record ManagedSession : Type 0 where
  pub info : SessionInfo
  pub configuration : SessionConfig
  pub secrets : Assoc Bytes
  pub config_source : Option Bytes
  pub runtime : Option ProxyRuntime
  pub retired_runtimes : List ProxyRuntime
  pub listener_gate : ℕ
  pub listener_generation : ℕ

-- `provisioning` is a set: a map to the unit.
pub record SessionRegistry : Type 0 where
  pub accepting_sessions : Bool
  pub sessions : Assoc ManagedSession
  pub provisioning : Assoc (Unit {0})

abbrev pub empty_registry : SessionRegistry
empty_registry = record { accepting_sessions = true; sessions = []; provisioning = [] }

-- `create`, before the runtime starts.
unfoldable pub reserve : ℕ → Bytes → SessionRegistry → Result SessionError SessionRegistry
reserve max_sessions id registry = do
  fail_if (not registry.accepting_sessions) shutting_down
  fail_if (leb max_sessions (length registry.sessions + length registry.provisioning)) at_capacity
  fail_if (contains_key id registry.sessions) internal
  fail_if (contains_key id registry.provisioning) internal
  ok (record registry { provisioning = insert id tt registry.provisioning })

-- `create`, where the runtime does not start.
unfoldable pub release : Bytes → SessionRegistry → SessionRegistry
release id registry = record registry { provisioning = remove id registry.provisioning }

unfoldable pub new_session :
    Bytes → SessionConfig → Assoc Bytes → Option Bytes → ProxyRuntime → ManagedSession
new_session id session secrets config_source runtime = record {
  info = record {
    id = id;
    socket = runtime.socket_path;
    persistent = session.persistent;
    state = running;
    generation = 1;
    draining_generations = 0;
  };
  configuration = session;
  secrets = secrets;
  config_source = config_source;
  runtime = some runtime;
  retired_runtimes = [];
  listener_gate = 1;
  listener_generation = 1;
}

-- `create`, behind the start of the runtime: the session is registered, or the daemon has begun to
-- shut down and it is not.
unfoldable pub register :
    Bytes → ManagedSession → SessionRegistry → SessionRegistry × Result SessionError (Unit {0})
register id session registry =
    let left = record registry { provisioning = remove id registry.provisioning } in
    if left.accepting_sessions
    then (record left { sessions = insert id session left.sessions }, ok tt)
    else (left, err shutting_down)

unfoldable pub reject_new_sessions : SessionRegistry → SessionRegistry
reject_new_sessions registry = record registry { accepting_sessions = false }

-- `session.info.state = Stopping`, and the runtimes taken out of the session.
unfoldable pub take_runtimes : ManagedSession → ManagedSession × List ProxyRuntime
take_runtimes session =
    let stopped = record session {
      info = record session.info { state = stopping };
      runtime = none;
      retired_runtimes = [];
    } in
    (
      stopped,
      session.retired_runtimes ++ elim session.runtime [ none ↦ [] | some runtime ↦ runtime ∷ [] ],
    )

abbrev pub is_stopping : SessionLifecycle → Bool
is_stopping running = false
is_stopping stopping = true

abbrev pub has_runtime : Option ProxyRuntime → Bool
has_runtime none = false
has_runtime (some runtime) = true

-- What a call that ends a session does at first: nothing, where there is no such session or it is
-- ending already; a change of the session; or the beginning of its end, with the runtimes to be
-- shut down.
pub data Ending : Type 0 where
  unknown already : Ending
  changed : SessionRegistry → Ending
  begun : SessionRegistry → List ProxyRuntime → Ending

abbrev pub set_session : Bytes → ManagedSession → SessionRegistry → SessionRegistry
set_session id session registry = record registry { sessions = insert id session registry.sessions }

abbrev pub begin_end : Bytes → ManagedSession → SessionRegistry → Ending
begin_end id session registry =
    let taken = take_runtimes session in begun (set_session id taken.0 registry) taken.1

unfoldable pub begin_stop : Bytes → SessionRegistry → Ending
begin_stop id registry = elim (get id registry.sessions) [
  | none ↦ unknown
  | some session ↦ if is_stopping session.info.state then already else begin_end id session registry
]

abbrev pub is_ended : ManagedSession → Bool
is_ended session = is_stopping session.info.state && not (has_runtime session.runtime)

unfoldable pub begin_remove : Bytes → SessionRegistry → Ending
begin_remove id registry = elim (get id registry.sessions) [
  | none ↦ unknown
  | some session ↦ if is_ended session then already else begin_end id session registry
]

abbrev pub without_generation : ℕ → List ProxyRuntime → List ProxyRuntime
without_generation g [] = []
without_generation g (runtime ∷ rest) =
    if runtime.listener_generation == g
    then without_generation g rest
    else runtime ∷ without_generation g rest

-- A listener other than the present one has ended: a retired one is forgotten.
unfoldable pub forget_listener : ℕ → ManagedSession → ManagedSession
forget_listener g session =
    let kept = without_generation g session.retired_runtimes in
    record session {
      retired_runtimes = kept;
      info = record session.info { draining_generations = length kept };
    }

unfoldable pub begin_exit : Bytes → ℕ → SessionRegistry → Ending
begin_exit id g registry = elim (get id registry.sessions) [
  | none ↦ unknown
  | some session ↦
      if not (session.listener_generation == g)
      then changed (set_session id (forget_listener g session) registry)
      else if is_ended session
      then already
      else begin_end id session registry
]

-- The end of `stop`, `remove` and `runtime_exit`, and whether there was a session to remove.
unfoldable pub finish_end : Bytes → SessionRegistry → SessionRegistry × Bool
finish_end id registry =
    (record registry { sessions = remove id registry.sessions }, contains_key id registry.sessions)

-- `shutdown_all`: its beginning, one turn of its loop, and its end.
unfoldable pub begin_shutdown : SessionRegistry → SessionRegistry × List Bytes
begin_shutdown registry =
    (record registry { accepting_sessions = false; provisioning = [] }, keys registry.sessions)

unfoldable pub claim : Bytes → SessionRegistry → SessionRegistry × List ProxyRuntime × ℕ
claim id registry = elim (get id registry.sessions) [
  | none ↦ (registry, [], 0)
  | some session ↦
      let taken = take_runtimes session in (set_session id taken.0 registry, taken.1, 1)
]

unfoldable pub clear : SessionRegistry → SessionRegistry
clear registry = record registry { sessions = [] }
