-- ===== src/Session/Endings.antt =====
-- The steps of src/control/session.rs that end, replace or claim sessions keep the state consistent.
use baffle.Prelude.{
  ℕ, ◌+◌, ◌%◌, ◌≡◌, refl, sym, ap, ◌∙◌, true, false, List, [], ◌∷◌, arith, subst, Option,
}
use baffle.Prelude.Text.{Bytes}
use baffle.Prelude.Assoc.{Assoc, contains_key, get}
use baffle.Prelude.Sizes.{contains_key-remove, Unique-remove, length-remove, waiting_none}
use baffle.Session
use baffle.Session.{
  SessionRegistry, finish_end, begin_shutdown, clear, reject_new_sessions, ManagedSession,
}
use baffle.Session.Step.{Daemon, Phase, claimed, finished}
use baffle.Session.Updates.{Replaced}
use baffle.Session.Consistent.{
  InPhase, Claiming, Replaced-length, Replaced-contains_key, Replaced-Unique, Replaced-InPhase,
  removed-InPhase,
}
use baffle.Session.Shutdown.{begin_shutdown-Claiming, claim-Turn}
use baffle.Session.Runs.{Consistent, same_phase}
use baffle.Session.ReloadUpdates.{Kept, unchanged, replaced}

module _ (max_sessions : ℕ) where
  -- A session is replaced by another version of it.
  pub replaced-Consistent :
      (d : Daemon) (id : Bytes) (r : SessionRegistry) (closing : Assoc (Unit {0}))
      → Replaced id d.registry r
      → InPhase d.phase r closing
      → Consistent max_sessions d
      → Consistent max_sessions (record d { registry = r; closing = closing })
  replaced-Consistent d id r closing u p c =
      let same = Replaced-length id d.registry r u in
      record {
        gauge = c.gauge ∙ ap (λ n. (n + d.owed) % 18446744073709551616) (sym same);
        capacity = rw (same, u.provisioning) c.capacity;
        unique = Replaced-Unique id d.registry r u c.unique;
        unique_reservations = rw u.provisioning c.unique_reservations;
        reserved = λ h. c.reserved (sym u.accepting ∙ h) ∙ sym u.provisioning;
        separate = λ k h.
            Replaced-contains_key id d.registry r u k
            ∙ c.separate k (ap (λ m. contains_key k m) (sym u.provisioning) ∙ h);
        phase = p;
      }

  -- No field of the invariant is about the reloads under way.
  pub reloading-Consistent :
      (d : Daemon) (reloading : Assoc (Option ℕ))
      → Consistent max_sessions d
      → Consistent max_sessions (record d { reloading = reloading })
  reloading-Consistent d reloading c = record {
    gauge = c.gauge;
    capacity = c.capacity;
    unique = c.unique;
    unique_reservations = c.unique_reservations;
    reserved = c.reserved;
    separate = c.separate;
    phase = c.phase;
  }

  pub reject-Consistent :
      (d : Daemon)
      → Consistent max_sessions d
      → Consistent max_sessions
          (record d { registry = baffle.Session.reject_new_sessions d.registry })
  unfolding reject_new_sessions
  reject-Consistent d c = record {
    gauge = c.gauge;
    capacity = c.capacity;
    unique = c.unique;
    unique_reservations = c.unique_reservations;
    reserved = λ h. absurd (ground arith);
    separate = c.separate;
    phase = same_phase d.phase d.registry _ d.closing (λ h. refl) refl c.phase;
  }

  pub finish-Consistent :
      (d : Daemon) (id : Bytes)
      → contains_key id d.closing ≡ true
      → Consistent max_sessions d
      → Consistent max_sessions (finished id d)
  unfolding finish_end
  finish-Consistent d id closed c =
      let shorter = length-remove id d.registry.sessions c.unique in
      record {
        gauge = c.gauge ∙ ap (λ n. n % 18446744073709551616) (ground (arith, shorter));
        capacity = ground (arith, shorter, c.capacity);
        unique = Unique-remove id d.registry.sessions c.unique;
        unique_reservations = c.unique_reservations;
        reserved = c.reserved;
        separate =
            λ k h. ground (arith, contains_key-remove id k d.registry.sessions, c.separate k h);
        phase = removed-InPhase id d.registry d.closing d.phase c.unique closed c.phase;
      }

  pub begin_shutdown-Consistent :
      (d : Daemon)
      → Consistent max_sessions d
      → Consistent max_sessions (record d {
        registry = (baffle.Session.begin_shutdown d.registry).0;
        phase = Phase.claiming (baffle.Session.begin_shutdown d.registry).1 0;
      })
  unfolding begin_shutdown
  begin_shutdown-Consistent d c = record {
    gauge = c.gauge;
    capacity = ground (arith, c.capacity);
    unique = c.unique;
    unique_reservations = tt;
    reserved = λ h. absurd (ground arith);
    separate = λ k h. absurd (unfold get in ground arith);
    phase = begin_shutdown-Claiming d.registry d.closing c.unique;
  }

  pub claim-Consistent :
      (d : Daemon) (id : Bytes) (rest : List Bytes) (count : ℕ)
      → contains_key id d.closing ≡ false
      → Claiming (id ∷ rest) count d.registry d.closing
      → Consistent max_sessions d
      → Consistent max_sessions (claimed id rest count d)
  claim-Consistent d id rest count free p c =
      let t = claim-Turn id rest count d.registry d.closing c.unique free p in
      record {
        gauge = c.gauge ∙ ap (λ n. (n + d.owed) % 18446744073709551616) (sym t.same_length);
        capacity = rw (t.same_length, t.provisioning) c.capacity;
        unique = t.unique;
        unique_reservations = rw t.provisioning c.unique_reservations;
        reserved = λ h. c.reserved (sym t.accepting ∙ h) ∙ sym t.provisioning;
        separate = λ k h.
            t.same_keys k ∙ c.separate k (ap (λ m. contains_key k m) (sym t.provisioning) ∙ h);
        phase = t.claiming;
      }

  pub clear-Consistent :
      (d : Daemon) (count : ℕ)
      → Claiming [] count d.registry d.closing
      → Consistent max_sessions d
      → Consistent max_sessions (record d {
        registry = baffle.Session.clear d.registry;
        owed = count + d.owed;
        phase = Phase.cleared;
      })
  unfolding clear
  clear-Consistent d count p c = record {
    gauge =
        c.gauge
        ∙ ap (λ n. n % 18446744073709551616)
            (ground (arith, p.total, waiting_none d.registry.sessions));
    capacity = ground (arith, c.capacity);
    unique = tt;
    unique_reservations = c.unique_reservations;
    reserved = c.reserved;
    separate = λ k h. unfold get in refl;
    phase = (p.refusing, refl);
  }

  pub Kept-Consistent :
      {P : ManagedSession → ManagedSession → Type 0} (d : Daemon) (id : Bytes) (r : SessionRegistry)
      (reloading : Assoc (Option ℕ))
      → Kept P id d.registry r
      → Consistent max_sessions d
      → Consistent max_sessions (record d { registry = r; reloading = reloading })
  Kept-Consistent d id r reloading (unchanged e) c =
      subst (λ x. Consistent max_sessions (record d { registry = x; reloading = reloading }))
        (sym e) (reloading-Consistent d reloading c)
  Kept-Consistent d id r reloading (replaced u p) c =
      reloading-Consistent (record d { registry = r }) reloading
        (replaced-Consistent d id r d.closing u
          (Replaced-InPhase id d.registry r u d.phase d.closing c.phase) c)
