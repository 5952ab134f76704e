-- ===== src/Session/Step.antt =====
-- src/control/session.rs: the concurrent calls of `SessionManager`, as steps. A step is a section
-- under the lock of the registry, or one change of the gauge of active sessions; between two steps
-- of a call any steps of the others may come.
use baffle.Prelude.{
  ℕ, suc, ◌+◌, ◌%◌, ◌≡◌, true, false, Option, List, [], ◌∷◌, if◌then◌else◌, ok, is_ok, Bool, Result,
  err, none, some,
}
use baffle.Prelude.Text.{Bytes}
use baffle.Prelude.Assoc.{Assoc, insert, remove, contains_key, get}
use baffle.Policy.Types.{SessionConfig}
use baffle.Session.Reload.{
  ReloadReason, refresh_all, check_reload, replace_generation, prepare_listener, install_listener,
}
use baffle.Session
use baffle.Session.{
  SessionRegistry, ManagedSession, ProxyRuntime, Ending, changed, begun, empty_registry,
  new_session, begin_stop, begin_remove, begin_exit, finish_end,
}

-- `fetch_add` and `fetch_sub` on an `AtomicU64`.
unfoldable pub session_started : ℕ → ℕ
session_started active = (active + 1) % 18446744073709551616

unfoldable pub session_stopped : ℕ → ℕ
session_stopped active = (active + 18446744073709551615) % 18446744073709551616

-- How far `shutdown_all` has come: the sessions still to be claimed, and the count of those claimed.
pub data Phase : Type 0 where
  serving : Phase
  claiming : List Bytes → ℕ → Phase
  cleared : Phase

-- The registry; the gauge; and of the calls under way: the `create` calls that have a reservation,
-- the sessions whose reload lock is held by a call that has begun to end them, or by a reload, with
-- the generation of the listener that the reload may install; and the number of `session_stopped`
-- calls still to come.
pub record Daemon : Type 0 where
  pub registry : SessionRegistry
  pub active_sessions : ℕ
  pub creating : Assoc (Unit {0})
  pub closing : Assoc (Unit {0})
  pub reloading : Assoc (Option ℕ)
  pub owed : ℕ
  pub phase : Phase

abbrev pub initial : Daemon
initial = record {
  registry = empty_registry;
  active_sessions = 0;
  creating = [];
  closing = [];
  reloading = [];
  owed = 0;
  phase = serving;
}

-- The calls that end one session.
pub data Call : Type 0 where
  stop remove_session : Call
  runtime_exit : ℕ → Call

unfoldable pub begin_call : Call → Bytes → SessionRegistry → Ending
begin_call stop id registry = begin_stop id registry
begin_call remove_session id registry = begin_remove id registry
begin_call (runtime_exit g) id registry = begin_exit id g registry

abbrev pub registered : Bytes → ManagedSession → Daemon → Daemon
registered id session d =
    let result = Session.register id session d.registry in
    record d {
      registry = result.0;
      creating = remove id d.creating;
      active_sessions =
          if is_ok result.1 then session_started d.active_sessions else d.active_sessions;
    }

abbrev pub finished : Bytes → Daemon → Daemon
finished id d =
    let result = finish_end id d.registry in
    record d {
      registry = result.0;
      closing = remove id d.closing;
      owed = (if result.1 then 1 else 0) + d.owed;
    }

abbrev pub claimed : Bytes → List Bytes → ℕ → Daemon → Daemon
claimed id rest count d =
    let result = Session.claim id d.registry in
    record d { registry = result.0; phase = claiming rest (result.2 + count) }

abbrev pub listed : (ProxyRuntime → Bool) → Daemon → Daemon
listed is_finished d = record d {
  registry = record d.registry { sessions = refresh_all is_finished d.registry.sessions };
}

abbrev pub prepared_generation : Result ReloadReason ℕ → Option ℕ
prepared_generation (err reason) = none
prepared_generation (ok generation) = some generation

abbrev pub prepared : (ProxyRuntime → Bool) → Bytes → Daemon → Daemon
prepared is_finished id d =
    let result = prepare_listener is_finished id d.registry in
    record d {
      registry = result.0;
      reloading = insert id (prepared_generation result.1) d.reloading;
    }

-- The reload lock of a session is taken by `begin`, `change` and `claim`; `begin` keeps it until
-- `finish`, and a reload holds it from `reload_begin` to `reload_end`. The listener that a reload
-- installs has the generation that it was prepared for. `shutdown_all` is called once.
pub data Step (max_sessions : ℕ) : Daemon → Daemon → Type 0 where
  reserve :
      (d : Daemon) (id : Bytes) (registry : SessionRegistry)
      → Session.reserve max_sessions id d.registry ≡ ok registry
      → Step max_sessions d (record d { registry = registry; creating = insert id tt d.creating })
  release :
      (d : Daemon) (id : Bytes)
      → contains_key id d.creating ≡ true
      → Step max_sessions d
          (record d { registry = Session.release id d.registry; creating = remove id d.creating })
  register :
      (d : Daemon) (id : Bytes) (session : SessionConfig) (secrets : Assoc Bytes)
      (config_source : Option Bytes) (runtime : ProxyRuntime)
      → contains_key id d.creating ≡ true
      → runtime.listener_generation ≡ 1
      → Step max_sessions d (registered id (new_session id session secrets config_source runtime) d)
  reject_new_sessions :
      (d : Daemon)
      → Step max_sessions d (record d { registry = Session.reject_new_sessions d.registry })
  begin :
      (d : Daemon) (call : Call) (id : Bytes) (registry : SessionRegistry)
      (runtimes : List ProxyRuntime)
      → contains_key id d.closing ≡ false
      → contains_key id d.reloading ≡ false
      → begin_call call id d.registry ≡ begun registry runtimes
      → Step max_sessions d (record d { registry = registry; closing = insert id tt d.closing })
  change :
      (d : Daemon) (call : Call) (id : Bytes) (registry : SessionRegistry)
      → contains_key id d.closing ≡ false
      → contains_key id d.reloading ≡ false
      → begin_call call id d.registry ≡ changed registry
      → Step max_sessions d (record d { registry = registry })
  finish :
      (d : Daemon) (id : Bytes)
      → contains_key id d.closing ≡ true
      → Step max_sessions d (finished id d)
  settle :
      (d : Daemon) (owed : ℕ)
      → d.owed ≡ suc owed
      → Step max_sessions d
          (record d { owed = owed; active_sessions = session_stopped d.active_sessions })
  begin_shutdown :
      (d : Daemon)
      → d.phase ≡ serving
      → Step max_sessions d (record d {
        registry = (Session.begin_shutdown d.registry).0;
        phase = claiming (Session.begin_shutdown d.registry).1 0;
      })
  claim :
      (d : Daemon) (id : Bytes) (rest : List Bytes) (count : ℕ)
      → d.phase ≡ claiming (id ∷ rest) count
      → contains_key id d.closing ≡ false
      → contains_key id d.reloading ≡ false
      → Step max_sessions d (claimed id rest count d)
  clear :
      (d : Daemon) (count : ℕ)
      → d.phase ≡ claiming [] count
      → Step max_sessions d
          (record d { registry = Session.clear d.registry; owed = count + d.owed; phase = cleared })
  list :
      (d : Daemon) (is_finished : ProxyRuntime → Bool) → Step max_sessions d (listed is_finished d)
  reload_begin :
      (d : Daemon) (id : Bytes)
      → contains_key id d.closing ≡ false
      → contains_key id d.reloading ≡ false
      → Step max_sessions d (record d { reloading = insert id none d.reloading })
  reload_check :
      (d : Daemon) (is_finished : ProxyRuntime → Bool) (id : Bytes)
      → contains_key id d.reloading ≡ true
      → Step max_sessions d (record d { registry = (check_reload is_finished id d.registry).0 })
  reload_replace :
      (d : Daemon) (replaced : Bool) (candidate : SessionConfig) (secrets : Assoc Bytes)
      (id : Bytes)
      → contains_key id d.reloading ≡ true
      → Step max_sessions d
          (record d { registry = (replace_generation replaced candidate secrets id d.registry).0 })
  reload_prepare :
      (d : Daemon) (is_finished : ProxyRuntime → Bool) (id : Bytes)
      → get id d.reloading ≡ some none
      → Step max_sessions d (prepared is_finished id d)
  reload_install :
      (d : Daemon) (candidate : SessionConfig) (secrets : Assoc Bytes) (replacement : ProxyRuntime)
      (id : Bytes)
      → get id d.reloading ≡ some (some replacement.listener_generation)
      → Step max_sessions d (record d {
        registry = (install_listener candidate secrets replacement id d.registry).0;
        reloading = insert id none d.reloading;
      })
  reload_end :
      (d : Daemon) (id : Bytes)
      → contains_key id d.reloading ≡ true
      → Step max_sessions d (record d { reloading = remove id d.reloading })

pub data Reachable (max_sessions : ℕ) : Daemon → Type 0 where
  start : Reachable max_sessions initial
  next :
      (d e : Daemon) → Reachable max_sessions d → Step max_sessions d e → Reachable max_sessions e
