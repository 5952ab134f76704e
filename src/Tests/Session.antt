-- ===== src/Tests/Session.antt =====
-- Runs of the session registry.
use baffle.Prelude.{◌≡◌, refl, none, [], ◌∷◌, ok, false, arith, ◌%◌, ◌+◌, some}
use baffle.Prelude.Text.{Bytes, bytes, eq, length}
use baffle.Prelude.Assoc.{get, insert, remove}
use baffle.Tests.Values.{session}
use baffle.Session.{
  ProxyRuntime, ManagedSession, new_session, begin_shutdown, clear, reserve, register, claim,
  take_runtimes,
}
use baffle.Session.Step.{Daemon, initial, Step, Reachable, Phase, registered, claimed, prepared}
use baffle.Session.Invariant.{Reachable-active_sessions, Reachable-cleared, Reachable-Consistent}
use baffle.Session.Runs.{Consistent}
use baffle.Session.Reload.{move_listener, install_listener, prepare_listener, retain, unfinished}
use baffle.Session.Listeners.{Sound}
use baffle.Session.Reached.{Reachable-Sound}

abbrev id : Bytes
id = bytes "0a1b"

abbrev runtime : ProxyRuntime
runtime = record { socket_path = bytes "/run/baffle/build"; listener_generation = 1 }

abbrev managed : ManagedSession
managed = new_session id session [] none runtime

abbrev reserved : Daemon
reserved = record initial {
  registry = record initial.registry { provisioning = (id, tt) ∷ [] };
  creating = insert id tt [];
}

abbrev started : Daemon
started = registered id managed reserved

abbrev draining : Daemon
draining = record started {
  registry = (begin_shutdown started.registry).0;
  phase = Phase.claiming (begin_shutdown started.registry).1 0;
}

abbrev drained : Daemon
drained = claimed id [] 0 draining

abbrev stopped : Daemon
stopped = record drained { registry = clear drained.registry; owed = 1 + 0; phase = Phase.cleared }

reservation : reserve 1 id initial.registry ≡ ok reserved.registry
unfolding reserve get insert
reservation = refl

run_started : Reachable 1 started
run_started =
    Reachable.next reserved started
      (Reachable.next initial reserved Reachable.start
        (Step.reserve initial id reserved.registry reservation))
      (Step.register reserved id session [] none runtime (unfold insert get eq in refl) refl)

listed : draining.phase ≡ Phase.claiming (id ∷ []) 0
unfolding begin_shutdown register insert remove get eq
listed = refl

counted_once : drained.phase ≡ Phase.claiming [] 1
unfolding claim begin_shutdown register insert remove get eq take_runtimes
counted_once = refl

-- The session is registered, and then shut down.
run_stopped : Reachable 1 stopped
run_stopped =
    Reachable.next drained stopped
      (Reachable.next draining drained
        (Reachable.next started draining run_started (Step.begin_shutdown started refl))
        (Step.claim draining id [] 0 listed (unfold get in refl) (unfold get in refl)))
      (Step.clear drained 1 counted_once)

Reachable-Consistent_example : Consistent 1 started
Reachable-Consistent_example = Reachable-Consistent 1 started run_started

Reachable-active_sessions_example : started.active_sessions ≡ length started.registry.sessions
Reachable-active_sessions_example =
    Reachable-active_sessions 1 started (omega arith) run_started refl

Reachable-cleared_example :
    (stopped.registry.sessions ≡ [])
    × (stopped.registry.accepting_sessions ≡ false)
    × (stopped.active_sessions ≡ stopped.owed % 18446744073709551616)
Reachable-cleared_example = Reachable-cleared 1 stopped run_stopped refl

-- The session's listener is moved to another socket.
abbrev replacement : ProxyRuntime
replacement = record { socket_path = bytes "/run/baffle/other"; listener_generation = 2 }

abbrev reloading : Daemon
reloading = record started { reloading = insert id none started.reloading }

abbrev ready : Daemon
ready = prepared (λ r. false) id reloading

abbrev reloaded : Daemon
reloaded = record ready {
  registry = (install_listener session [] replacement id ready.registry).0;
  reloading = insert id none ready.reloading;
}

abbrev moved : ManagedSession
moved = move_listener session [] replacement runtime managed

prepared_second : get id ready.reloading ≡ some (some 2)
unfolding prepare_listener retain unfinished register insert remove get eq new_session
prepared_second = refl

run_reloaded : Reachable 1 reloaded
run_reloaded =
    Reachable.next ready reloaded
      (Reachable.next reloading ready
        (Reachable.next started reloading run_started
          (Step.reload_begin started id (unfold get in refl) (unfold get in refl)))
        (Step.reload_prepare reloading (λ r. false) id (unfold get insert eq in refl)))
      (Step.reload_install ready session [] replacement id prepared_second)

moved_session : get id reloaded.registry.sessions ≡ some moved
unfolding install_listener move_listener prepare_listener retain unfinished register insert remove
    get eq new_session
moved_session = refl

Reachable-Sound_example : Sound moved
Reachable-Sound_example = Reachable-Sound 1 reloaded id moved run_reloaded moved_session
