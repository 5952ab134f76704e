-- ===== src/Session/Reached.antt =====
-- The listeners of every session in every run of src/control/session.rs and src/control/reload.rs.
use baffle.Prelude.{ℕ, ◌≡◌, refl, sym, ◌∙◌, true, false, some, arith, inl, inr, Bool-cases, subst}
use baffle.Prelude.Text.{Bytes}
use baffle.Prelude.Assoc.{get, insert, remove, contains_key}
use baffle.Session
use baffle.Session.{
  SessionRegistry, ManagedSession, ProxyRuntime, new_session, register, clear, release,
  reject_new_sessions, begin_shutdown, finish_end,
}
use baffle.Session.Step.{Daemon, Step, Reachable, registered}
use baffle.Session.Updates.{begin_call-Begun, begin_call-changed}
use baffle.Session.ReloadUpdates.{install_listener-Kept, check_reload-Kept, replace_generation-Kept}
use baffle.Session.Consistent.{InPhase}
use baffle.Session.Listeners.{Sound, Shrinks, refresh-Shrinks, adopt-Shrinks}
use baffle.Session.Runs.{Consistent}
use baffle.Session.Invariant.{Reachable-Consistent}
use baffle.Session.Reloads.{
  Listening, empty-Listening, shrunk, Kept-Listening, same_sessions, inserted, removed_session,
  closed_begins,
}
use baffle.Session.Generations.{unprepared, locked_free, reload_ends}
use baffle.Session.Limits.{
  new_session-Sound, reserve_same, claim-Kept, list-Listening, prepare-Listening, install-Listening,
}

abbrev Listens : Daemon → Type 0
Listens d = Listening d.registry d.closing d.reloading

module _ (max_sessions : ℕ) where
  register-Listens :
      (d : Daemon) (id : Bytes) (s : ManagedSession)
      → contains_key id d.creating ≡ true
      → Sound s
      → Consistent max_sessions d
      → Listens d
      → Listens (registered id s d)
  unfolding register
  register-Listens d id s held fresh c v = elim (Bool-cases d.registry.accepting_sessions) [
    | inr closed ↦
        rw (register, closed)
          (same_sessions d.closing d.reloading d.registry
            (record {
              accepting_sessions = false;
              sessions = d.registry.sessions;
              provisioning = remove id d.registry.provisioning;
            })
            refl (λ h. absurd (ground arith)) v)
    | inl accepting ↦
        let reserved_id : contains_key id d.registry.provisioning ≡ true =
          rw (← c.reserved accepting) held in
        rw (register, accepting)
          (inserted d.closing d.reloading id s d.registry
            (record {
              accepting_sessions = true;
              sessions = insert id s d.registry.sessions;
              provisioning = remove id d.registry.provisioning;
            })
            refl accepting (c.separate id reserved_id) fresh v)
  ]

  clear-Listens :
      (d : Daemon)
      → d.registry.accepting_sessions ≡ false
      → Listens d
      → Listening (baffle.Session.clear d.registry) d.closing d.reloading
  unfolding clear get
  clear-Listens d refusing v = record {
    sound = λ k s h. absurd (ground arith);
    room = λ k s g h. absurd (ground arith);
    present = λ k g under accepting. absurd (ground arith);
    apart = v.apart;
  }

  Step-Listens :
      (d e : Daemon) → Step max_sessions d e → Consistent max_sessions d → Listens d → Listens e
  unfolding release reject_new_sessions begin_shutdown finish_end
  Step-Listens _ _ (Step.reserve d id r h) c v =
      let (same, accepting) = reserve_same max_sessions id d.registry r h in
      same_sessions d.closing d.reloading d.registry r same (λ a. sym accepting ∙ a) v
  Step-Listens _ _ (Step.release d id h) c v =
      same_sessions d.closing d.reloading d.registry (baffle.Session.release id d.registry) refl
        (λ a. a) v
  Step-Listens _ _ (Step.register d id session secrets source runtime h first) c v =
      register-Listens d id (new_session id session secrets source runtime) h
        (new_session-Sound id session secrets source runtime first) c v
  Step-Listens _ _ (Step.reject_new_sessions d) c v =
      same_sessions d.closing d.reloading d.registry (baffle.Session.reject_new_sessions d.registry)
        refl (λ a. absurd (ground arith)) v
  Step-Listens _ _ (Step.begin d call id r runtimes free unlocked h) c v =
      let b = begin_call-Begun call id d.registry r runtimes h in
      closed_begins d.closing d.reloading id r unlocked
        (shrunk d.closing d.reloading id d.registry r b.replaced b.shrinks v)
  Step-Listens _ _ (Step.change d call id r free unlocked h) c v =
      let (u, shrinks) = begin_call-changed call id d.registry r h in
      shrunk d.closing d.reloading id d.registry r u shrinks v
  Step-Listens _ _ (Step.finish d id h) c v =
      removed_session d.closing d.reloading id d.registry h v
  Step-Listens _ _ (Step.settle d owed h) c v = v
  Step-Listens _ _ (Step.begin_shutdown d h) c v =
      same_sessions d.closing d.reloading d.registry (baffle.Session.begin_shutdown d.registry).0
        refl (λ a. absurd (ground arith)) v
  Step-Listens _ _ (Step.claim d id rest count h free unlocked) c v =
      Kept-Listening d.closing d.reloading id d.registry (baffle.Session.claim id d.registry).0
        (λ s s' p. p) (claim-Kept id d.registry) v
  Step-Listens _ _ (Step.clear d count h) c v =
      clear-Listens d (subst (λ p. InPhase p d.registry d.closing) h c.phase).refusing v
  Step-Listens _ _ (Step.list d is_finished) c v =
      list-Listening d.closing d.reloading is_finished d.registry v
  Step-Listens _ _ (Step.reload_begin d id free unlocked) c v =
      unprepared d.closing d.reloading id d.registry free v
  Step-Listens _ _ (Step.reload_check d is_finished id locked) c v =
      Kept-Listening d.closing d.reloading id d.registry _
        (λ s s' e. subst (Shrinks s) (sym e) (refresh-Shrinks is_finished s))
        (check_reload-Kept id d.registry is_finished) v
  Step-Listens _ _ (Step.reload_replace d accepted candidate secrets id locked) c v =
      Kept-Listening d.closing d.reloading id d.registry _
        (λ s s' e. subst (Shrinks s) (sym e) (adopt-Shrinks candidate secrets s))
        (replace_generation-Kept id d.registry accepted candidate secrets) v
  Step-Listens _ _ (Step.reload_prepare d is_finished id h) c v =
      prepare-Listening d.closing d.reloading is_finished id d.registry
        (locked_free d.closing d.reloading id d.registry (ground (arith, h)) v) v
  Step-Listens _ _ (Step.reload_install d candidate secrets replacement id h) c v =
      install-Listening d.closing d.reloading candidate secrets replacement id d.registry _
        (install_listener-Kept id d.registry candidate secrets replacement) h v
  Step-Listens _ _ (Step.reload_end d id h) c v = reload_ends d.closing d.reloading id d.registry v

  Reachable-Listens : (d : Daemon) → Reachable max_sessions d → Listens d
  Reachable-Listens _ Reachable.start = empty-Listening
  Reachable-Listens _ (Reachable.next d e run step) =
      Step-Listens d e step (Reachable-Consistent max_sessions d run) (Reachable-Listens d run)

  -- In every run, whatever reloads and endings interleave, a registered session has at most eight
  -- retired listeners, all of generations before the session's listener generation; its gate stands
  -- at that generation; and the listener in use, if there is one, has it.
  pub Reachable-Sound :
      (d : Daemon) (id : Bytes) (s : ManagedSession)
      → Reachable max_sessions d
      → get id d.registry.sessions ≡ some s
      → Sound s
  Reachable-Sound d id s run found = (Reachable-Listens d run).sound id s found
