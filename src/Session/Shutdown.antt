-- ===== src/Session/Shutdown.antt =====
-- The sections of `shutdown_all`, src/control/session.rs, one after the other.
use baffle.Prelude.{
  ℕ, ◌+◌, ◌≡◌, refl, sym, ◌∙◌, true, false, none, some, List, ◌∷◌, arith, inl, inr, Bool-cases,
  Option-cases,
}
use baffle.Prelude.Text.{Bytes, eq, length, eq→≡}
use baffle.Prelude.Assoc.{Assoc, get, contains_key}
use baffle.Prelude.Sizes.{Unique, waiting-pop, waiting-keys, member-keys, Unique-keys}
use baffle.Session.{
  SessionRegistry, ManagedSession, is_ended, take_runtimes, set_session, begin_shutdown, claim,
}
use baffle.Session.Updates.{Replaced, take_runtimes-is_ended}
use baffle.Session.Consistent.{
  Claiming, Replaced-length, Replaced-contains_key, Replaced-waiting, Replaced-get, Replaced-Unique,
}

pub begin_shutdown-Claiming :
    (r : SessionRegistry) (closing : Assoc (Unit {0}))
    → Unique r.sessions
    → Claiming (begin_shutdown r).1 0 (begin_shutdown r).0 closing
unfolding begin_shutdown
begin_shutdown-Claiming r closing u = record {
  refusing = refl;
  total = ground (arith, waiting-keys r.sessions);
  distinct = Unique-keys r.sessions u;
  ended = λ k s found out. absurd (ground (arith, member-keys k r.sessions));
  held = λ k closed here. member-keys k r.sessions ∙ here;
}

module _ (id : Bytes) (rest : List Bytes) (count : ℕ) (r : SessionRegistry)
    (closing : Assoc (Unit {0})) where
  gone_lem :
      get id r.sessions ≡ none
      → Unique r.sessions
      → Claiming (id ∷ rest) count r closing
      → Claiming rest (0 + count) r closing
  gone_lem gone u c = record {
    refusing = c.refusing;
    total = ground (arith, c.total, waiting-pop id rest r.sessions u c.distinct.0);
    distinct = c.distinct.1;
    ended = λ k s found out. elim (Bool-cases (eq id k)) [
      | inl same ↦ absurd (ground (arith, eq→≡ id k))
      | inr differ ↦ c.ended k s found (ground arith)
    ];
    held = λ k closed here. elim (Bool-cases (eq id k)) [
      | inl same ↦ absurd (ground (arith, eq→≡ id k))
      | inr differ ↦ ground (arith, c.held k closed here)
    ];
  }

  claimed_lem :
      (r' : SessionRegistry) (b : Replaced id r r')
      → is_ended b.new ≡ true
      → Unique r.sessions
      → contains_key id closing ≡ false
      → Claiming (id ∷ rest) count r closing
      → Claiming rest (1 + count) r' closing
  claimed_lem r' b over u free c = record {
    refusing = b.accepting ∙ c.refusing;
    total = ground (
      arith,
      c.total,
      waiting-pop id rest r.sessions u c.distinct.0,
      b.found,
      Replaced-length id r r' b,
      Replaced-waiting id r r' b rest,
    );
    distinct = c.distinct.1;
    ended = λ k s found out. elim (Bool-cases (eq id k)) [
      | inl same ↦ let new : b.new ≡ s = ground (arith, Replaced-get id r r' b k) in rw (← new) over
      | inr differ ↦ c.ended k s (ground (arith, Replaced-get id r r' b k)) (ground arith)
    ];
    held = λ k closed here. elim (Bool-cases (eq id k)) [
      | inl same ↦ absurd (ground (arith, eq→≡ id k))
      | inr differ ↦
          ground (arith, c.held k closed (sym (Replaced-contains_key id r r' b k) ∙ here))
    ];
  }

  abbrev taken_out :
      (s : ManagedSession)
      → get id r.sessions ≡ some s
      → Replaced id r (set_session id (take_runtimes s).0 r)
  taken_out s found = record {
    old = s;
    new = (take_runtimes s).0;
    found = found;
    sessions = refl;
    accepting = refl;
    provisioning = refl;
    ended = λ h. take_runtimes-is_ended s;
  }

  -- What one turn of the loop leaves of the registry.
  pub record Turn (r' : SessionRegistry) (counted : ℕ) : Type 0 where
    pub claiming : Claiming rest (counted + count) r' closing
    pub unique : Unique r'.sessions
    pub same_length : length r'.sessions ≡ length r.sessions
    pub same_keys : (k : Bytes) → contains_key k r'.sessions ≡ contains_key k r.sessions
    pub accepting : r'.accepting_sessions ≡ r.accepting_sessions
    pub provisioning : r'.provisioning ≡ r.provisioning

  pub claim-Turn :
      Unique r.sessions
      → contains_key id closing ≡ false
      → Claiming (id ∷ rest) count r closing
      → Turn (claim id r).0 (claim id r).2
  unfolding claim
  claim-Turn u free c = elim (Option-cases (get id r.sessions)) [
    | inl gone ↦
        rw (claim, gone)
          (record {
            claiming = gone_lem gone u c;
            unique = u;
            same_length = refl;
            same_keys = λ k. refl;
            accepting = refl;
            provisioning = refl;
          })
    | inr (s, found) ↦
        let b = taken_out s found in
        rw (claim, found)
          (record {
            claiming =
                claimed_lem (set_session id (take_runtimes s).0 r) b (take_runtimes-is_ended s) u
                  free c;
            unique = Replaced-Unique id r (set_session id (take_runtimes s).0 r) b u;
            same_length = Replaced-length id r (set_session id (take_runtimes s).0 r) b;
            same_keys = Replaced-contains_key id r (set_session id (take_runtimes s).0 r) b;
            accepting = refl;
            provisioning = refl;
          })
  ]
