-- ===== src/Session/Runs.antt =====
-- What holds in every run of the concurrent calls of src/control/session.rs.
use baffle.Prelude.{
  ℕ, ◌+◌, ◌%◌, ◌≤◌, ◌≡◌, refl, sym, ap, ◌∙◌, true, false, not, ok, arith, inl, inr, Bool-cases, leb,
  fail_if-eq-ok, ok-injective, suc,
}
use baffle.Prelude.Text.{Bytes, eq, length, eq→≡}
use baffle.Prelude.Assoc.{Assoc, get, insert, remove, contains_key}
use baffle.Prelude.Sizes.{
  Unique, contains_key-insert, contains_key-remove, Unique-insert, Unique-remove, length-insert,
  length-remove,
}
use baffle.Session.{
  SessionRegistry, ManagedSession, reserve, release, shutting_down, at_capacity, internal, register,
}
use baffle.Session.Step.{Daemon, initial, Phase, registered, session_started, session_stopped}
use baffle.Session.Consistent.{InPhase}

-- What holds between any two steps: the gauge of active sessions, as a `u64`, counts the registered
-- sessions and the calls of `session_stopped` still to come; sessions and reservations stay within
-- the limit; while sessions are accepted each `create` under way has its reservation, for an
-- identifier that no session has; and `shutdown_all` counts each session it leaves to `clear` once.
pub record Consistent (max_sessions : ℕ) (d : Daemon) : Type 0 where
  pub gauge : d.active_sessions ≡ (length d.registry.sessions + d.owed) % 18446744073709551616
  pub capacity : length d.registry.sessions + length d.registry.provisioning ≤ max_sessions
  pub unique : Unique d.registry.sessions
  pub unique_reservations : Unique d.registry.provisioning
  pub reserved : d.registry.accepting_sessions ≡ true → d.creating ≡ d.registry.provisioning
  pub separate :
      (k : Bytes)
      → contains_key k d.registry.provisioning ≡ true
      → contains_key k d.registry.sessions ≡ false
  pub phase : InPhase d.phase d.registry d.closing

pub initial-Consistent : (max_sessions : ℕ) → Consistent max_sessions initial
unfolding get
initial-Consistent max_sessions = record {
  gauge = refl;
  capacity = ground arith;
  unique = tt;
  unique_reservations = tt;
  reserved = λ h. refl;
  separate = λ k h. refl;
  phase = tt;
}

-- A change of what `shutdown_all` does not look at.
pub same_phase :
    (p : Phase) (r r' : SessionRegistry) (closing : Assoc (Unit {0}))
    → (r.accepting_sessions ≡ false → r'.accepting_sessions ≡ false)
    → r'.sessions ≡ r.sessions
    → InPhase p r closing
    → InPhase p r' closing
same_phase Phase.serving r r' closing a e p = tt
same_phase (Phase.claiming pending count) r r' closing a e p = record {
  refusing = a p.refusing;
  total = rw e p.total;
  distinct = p.distinct;
  ended = rw e p.ended;
  held = rw e p.held;
}
same_phase Phase.cleared r r' closing a e p = (a p.0, e ∙ p.1)

-- While sessions are accepted, `shutdown_all` has not begun.
accepting_phase :
    (p : Phase) (r r' : SessionRegistry) (closing : Assoc (Unit {0}))
    → r.accepting_sessions ≡ true
    → InPhase p r closing
    → InPhase p r' closing
accepting_phase Phase.serving r r' closing a p = tt
accepting_phase (Phase.claiming pending count) r r' closing a p =
    absurd (ground (arith, p.refusing))
accepting_phase Phase.cleared r r' closing a p = absurd (ground (arith, p.0))

gauge_started :
    (active sessions more owed : ℕ)
    → active ≡ (sessions + owed) % 18446744073709551616
    → more ≡ 1 + sessions
    → session_started active ≡ (more + owed) % 18446744073709551616
unfolding session_started
gauge_started active sessions more owed e m = rw (e, m) (omega arith)

pub gauge_stopped :
    (active sessions owed : ℕ)
    → active ≡ (sessions + suc owed) % 18446744073709551616
    → session_stopped active ≡ (sessions + owed) % 18446744073709551616
unfolding session_stopped
gauge_stopped active sessions owed e = rw e (omega arith)

module _ (max_sessions : ℕ) where
  -- `create` takes a reservation.
  pub reserve-Consistent :
      (d : Daemon) (id : Bytes) (r : SessionRegistry)
      → baffle.Session.reserve max_sessions id d.registry ≡ ok r
      → Consistent max_sessions d
      → Consistent max_sessions (record d { registry = r; creating = insert id tt d.creating })
  unfolding reserve
  reserve-Consistent d id r e c =
      let (a, e1) = fail_if-eq-ok (not d.registry.accepting_sessions) shutting_down _ e in
      let (room, e2) =
        fail_if-eq-ok
          (leb max_sessions (length d.registry.sessions + length d.registry.provisioning))
          at_capacity _ e1 in
      let (fresh, e3) = fail_if-eq-ok (contains_key id d.registry.sessions) internal _ e2 in
      let (free, e4) = fail_if-eq-ok (contains_key id d.registry.provisioning) internal _ e3 in
      rw (sym (ok-injective e4)) (record {
        gauge = c.gauge;
        capacity = ground (arith, length-insert id tt d.registry.provisioning, c.capacity);
        unique = c.unique;
        unique_reservations = Unique-insert id tt d.registry.provisioning c.unique_reservations;
        reserved = λ h. ap (λ m. insert id tt m) (c.reserved h);
        separate = λ k h. elim (Bool-cases (eq id k)) [
          | inl same ↦ rw (← eq→≡ id k same) fresh
          | inr differ ↦
              c.separate k (ground (arith, contains_key-insert id k tt d.registry.provisioning))
        ];
        phase = same_phase d.phase d.registry _ d.closing (λ h. h) refl c.phase;
      })

  pub release-Consistent :
      (d : Daemon) (id : Bytes)
      → Consistent max_sessions d
      → Consistent max_sessions (record d {
        registry = baffle.Session.release id d.registry;
        creating = remove id d.creating;
      })
  unfolding release
  release-Consistent d id c = record {
    gauge = c.gauge;
    capacity =
        ground (arith, length-remove id d.registry.provisioning c.unique_reservations, c.capacity);
    unique = c.unique;
    unique_reservations = Unique-remove id d.registry.provisioning c.unique_reservations;
    reserved = λ h. ap (λ m. remove id m) (c.reserved h);
    separate =
        λ k h. c.separate k (ground (arith, contains_key-remove id k d.registry.provisioning));
    phase = same_phase d.phase d.registry _ d.closing (λ h. h) refl c.phase;
  }

  -- `create` registers its session.
  pub register-Consistent :
      (d : Daemon) (id : Bytes) (session : ManagedSession)
      → contains_key id d.creating ≡ true
      → Consistent max_sessions d
      → Consistent max_sessions (registered id session d)
  unfolding register
  register-Consistent d id session held c = elim (Bool-cases d.registry.accepting_sessions) [
    | inr closed ↦
        rw (register, closed)
          (record {
            gauge = c.gauge;
            capacity =
                ground (
                  arith,
                  length-remove id d.registry.provisioning c.unique_reservations,
                  c.capacity,
                );
            unique = c.unique;
            unique_reservations = Unique-remove id d.registry.provisioning c.unique_reservations;
            reserved = λ h. absurd (ground arith);
            separate = λ k h.
                c.separate k (ground (arith, contains_key-remove id k d.registry.provisioning));
            phase =
                same_phase d.phase d.registry
                  (record {
                    accepting_sessions = false;
                    sessions = d.registry.sessions;
                    provisioning = remove id d.registry.provisioning;
                  })
                  d.closing (λ h. refl) refl c.phase;
          })
    | inl accepting ↦
        let reserved_id : contains_key id d.registry.provisioning ≡ true =
          rw (← c.reserved accepting) held in
        let absent : contains_key id d.registry.sessions ≡ false = c.separate id reserved_id in
        let longer : length (insert id session d.registry.sessions)
            ≡ 1 + length d.registry.sessions =
          length-insert id session d.registry.sessions ∙ rw absent refl in
        rw (register, accepting)
          (record {
            gauge =
                gauge_started d.active_sessions (length d.registry.sessions) _ d.owed c.gauge
                  longer;
            capacity = ground (
              arith,
              length-remove id d.registry.provisioning c.unique_reservations,
              c.capacity,
              longer,
            );
            unique = Unique-insert id session d.registry.sessions c.unique;
            unique_reservations = Unique-remove id d.registry.provisioning c.unique_reservations;
            reserved = λ h. ap (λ m. remove id m) (c.reserved accepting);
            separate = λ k h. elim (Bool-cases (eq id k)) [
              | inl same ↦ absurd (ground (arith, contains_key-remove id k d.registry.provisioning))
              | inr differ ↦ ground (
                arith,
                contains_key-remove id k d.registry.provisioning,
                contains_key-insert id k session d.registry.sessions,
                c.separate k,
              )
            ];
            phase =
                accepting_phase d.phase d.registry
                  (record {
                    accepting_sessions = true;
                    sessions = insert id session d.registry.sessions;
                    provisioning = remove id d.registry.provisioning;
                  })
                  d.closing accepting c.phase;
          })
  ]
