-- ===== src/Session/Invariant.antt =====
-- The steps that end sessions, and every reachable state.
use baffle.Prelude.{ℕ, ◌+◌, ◌%◌, ◌≤◌, ◌<◌, ◌≡◌, ap, ◌∙◌, false, [], arith, subst, none}
use baffle.Prelude.Text.{length}
use baffle.Prelude.Assoc.{insert, remove}
use baffle.Session
use baffle.Session.{
  SessionRegistry, finish_end, begin_shutdown, clear, reject_new_sessions, ManagedSession,
}
use baffle.Session.Step.{Daemon, Step, Reachable, Phase, prepared}
use baffle.Session.Updates.{begin_call-Begun, begin_call-changed}
use baffle.Session.Consistent.{InPhase, Replaced-InPhase, Begun-InPhase}
use baffle.Session.Runs.{
  Consistent, initial-Consistent, gauge_stopped, reserve-Consistent, release-Consistent,
  register-Consistent,
}
use baffle.Session.Listing.{list-Consistent}
use baffle.Session.ReloadUpdates.{
  check_reload-Kept, replace_generation-Kept, prepare_listener-Kept, install_listener-Kept,
}
use baffle.Session.Endings.{
  replaced-Consistent, reject-Consistent, finish-Consistent, begin_shutdown-Consistent,
  claim-Consistent, clear-Consistent, Kept-Consistent, reloading-Consistent,
}

settled_lem :
    (active sessions reservations owed max_sessions : ℕ)
    → active ≡ (sessions + owed) % 18446744073709551616
    → sessions + reservations ≤ max_sessions
    → max_sessions < 18446744073709551616
    → owed ≡ 0
    → active ≡ sessions
settled_lem active sessions reservations owed max_sessions g c b z = omega arith

module _ (max_sessions : ℕ) where
  Step-Consistent :
      (d e : Daemon) → Step max_sessions d e → Consistent max_sessions d → Consistent max_sessions e
  Step-Consistent _ _ (Step.reserve d id r h) c = reserve-Consistent max_sessions d id r h c
  Step-Consistent _ _ (Step.release d id h) c = release-Consistent max_sessions d id c
  Step-Consistent _ _ (Step.register d id session secrets source runtime h first) c =
      register-Consistent max_sessions d id
        (baffle.Session.new_session id session secrets source runtime) h c
  Step-Consistent _ _ (Step.reject_new_sessions d) c = reject-Consistent max_sessions d c
  Step-Consistent _ _ (Step.begin d call id r runtimes free unlocked h) c =
      let b = begin_call-Begun call id d.registry r runtimes h in
      replaced-Consistent max_sessions d id r (insert id tt d.closing) b.replaced
        (Begun-InPhase id d.registry r b d.phase d.closing c.phase) c
  Step-Consistent _ _ (Step.change d call id r free unlocked h) c =
      let u = (begin_call-changed call id d.registry r h).0 in
      replaced-Consistent max_sessions d id r d.closing u
        (Replaced-InPhase id d.registry r u d.phase d.closing c.phase) c
  Step-Consistent _ _ (Step.finish d id h) c = finish-Consistent max_sessions d id h c
  Step-Consistent _ _ (Step.settle d owed h) c = record {
    gauge =
        gauge_stopped d.active_sessions (length d.registry.sessions) owed
          (c.gauge ∙ ap (λ n. (length d.registry.sessions + n) % 18446744073709551616) h);
    capacity = c.capacity;
    unique = c.unique;
    unique_reservations = c.unique_reservations;
    reserved = c.reserved;
    separate = c.separate;
    phase = c.phase;
  }
  Step-Consistent _ _ (Step.begin_shutdown d h) c = begin_shutdown-Consistent max_sessions d c
  Step-Consistent _ _ (Step.claim d id rest count h free unlocked) c =
      claim-Consistent max_sessions d id rest count free
        (subst (λ p. InPhase p d.registry d.closing) h c.phase) c
  Step-Consistent _ _ (Step.clear d count h) c =
      clear-Consistent max_sessions d count (subst (λ p. InPhase p d.registry d.closing) h c.phase)
        c
  Step-Consistent _ _ (Step.list d is_finished) c = list-Consistent is_finished max_sessions d c
  Step-Consistent _ _ (Step.reload_begin d id free unlocked) c =
      reloading-Consistent max_sessions d (insert id none d.reloading) c
  Step-Consistent _ _ (Step.reload_check d is_finished id locked) c =
      Kept-Consistent max_sessions d id _ d.reloading (check_reload-Kept id d.registry is_finished)
        c
  Step-Consistent _ _ (Step.reload_replace d accepted candidate secrets id locked) c =
      Kept-Consistent max_sessions d id _ d.reloading
        (replace_generation-Kept id d.registry accepted candidate secrets) c
  Step-Consistent _ _ (Step.reload_prepare d is_finished id h) c =
      Kept-Consistent max_sessions d id _ (prepared is_finished id d).reloading
        (prepare_listener-Kept id d.registry is_finished) c
  Step-Consistent _ _ (Step.reload_install d candidate secrets replacement id h) c =
      Kept-Consistent max_sessions d id _ (insert id none d.reloading)
        (install_listener-Kept id d.registry candidate secrets replacement) c
  Step-Consistent _ _ (Step.reload_end d id h) c =
      reloading-Consistent max_sessions d (remove id d.reloading) c

  -- In every run of `create`, `stop`, `remove`, `runtime_exit`, `reload`, `list` and `shutdown_all`, however their
  -- sections interleave, the state between two steps is consistent: in particular sessions and
  -- reservations together never exceed the limit, and no reservation is for a registered session.
  pub Reachable-Consistent : (d : Daemon) → Reachable max_sessions d → Consistent max_sessions d
  Reachable-Consistent _ Reachable.start = initial-Consistent max_sessions
  Reachable-Consistent _ (Reachable.next d e run step) =
      Step-Consistent d e step (Reachable-Consistent d run)

  -- If the limit is below 2^64, then in every state where no `session_stopped` call is still to
  -- come, the gauge of active sessions is the number of registered sessions.
  pub Reachable-active_sessions :
      (d : Daemon)
      → max_sessions < 18446744073709551616
      → Reachable max_sessions d
      → d.owed ≡ 0
      → d.active_sessions ≡ length d.registry.sessions
  Reachable-active_sessions d bound run settled =
      let c = Reachable-Consistent d run in
      settled_lem d.active_sessions (length d.registry.sessions) (length d.registry.provisioning)
        d.owed max_sessions c.gauge c.capacity bound settled

  -- After `shutdown_all` no session is registered and none is accepted, whatever calls it overlapped,
  -- and the gauge of active sessions is the number of `session_stopped` calls still to come.
  pub Reachable-cleared :
      (d : Daemon)
      → Reachable max_sessions d
      → d.phase ≡ Phase.cleared
      → (d.registry.sessions ≡ [])
        × (d.registry.accepting_sessions ≡ false)
        × (d.active_sessions ≡ d.owed % 18446744073709551616)
  Reachable-cleared d run h =
      let c = Reachable-Consistent d run in
      let p = subst (λ p. InPhase p d.registry d.closing) h c.phase in
      (
        p.1,
        p.0,
        c.gauge ∙ ap (λ n. n % 18446744073709551616) (ground (arith, ap (λ m. length m) p.1)),
      )
