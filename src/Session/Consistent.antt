-- ===== src/Session/Consistent.antt =====
-- What holds between the steps of src/control/session.rs, of the part of `shutdown_all`.
use baffle.Prelude.{
  ℕ, ◌+◌, ◌≡◌, sym, ap, ◌∙◌, true, false, some, List, [], arith, inl, inr, Bool-cases,
  if◌then◌else◌,
}
use baffle.Prelude.Text.{Bytes, eq, length, eq→≡}
use baffle.Prelude.Assoc.{Assoc, get, insert, remove, contains_key, get-insert, get-remove}
use baffle.Prelude.Sizes.{
  member, Distinct, Unique, waiting, contains_key-insert, contains_key-remove, Unique-insert,
  length-insert, length-remove, waiting-insert, waiting-remove, remove_absent,
}
use baffle.Session.{SessionRegistry, ManagedSession, is_ended}
use baffle.Session.Step.{Phase, serving, claiming, cleared}
use baffle.Session.Updates.{Replaced, Begun}

-- While `shutdown_all` claims sessions, the registry has those claimed, which are ended, and those
-- listed; and a session that another call is ending is still listed, or gone.
pub record Claiming (pending : List Bytes) (count : ℕ) (r : SessionRegistry)
    (closing : Assoc (Unit {0})) : Type 0 where
  pub refusing : r.accepting_sessions ≡ false
  pub total : length r.sessions ≡ count + waiting pending r.sessions
  pub distinct : Distinct pending
  pub ended :
      (k : Bytes) (s : ManagedSession)
      → get k r.sessions ≡ some s
      → member k pending ≡ false
      → is_ended s ≡ true
  pub held :
      (k : Bytes)
      → contains_key k closing ≡ true
      → contains_key k r.sessions ≡ true
      → member k pending ≡ true

abbrev pub InPhase : Phase → SessionRegistry → Assoc (Unit {0}) → Type 0
InPhase serving r closing = Unit {0}
InPhase (claiming pending count) r closing = Claiming pending count r closing
InPhase cleared r closing = (r.accepting_sessions ≡ false) × (r.sessions ≡ [])

contains-found :
    {V : Type 0} (k : Bytes) (m : Assoc V) (v : V) → get k m ≡ some v → contains_key k m ≡ true
contains-found k m v h = ground arith

module _ (id : Bytes) (r r' : SessionRegistry) (u : Replaced id r r') where
  pub Replaced-contains_key : (k : Bytes) → contains_key k r'.sessions ≡ contains_key k r.sessions
  Replaced-contains_key k = rw u.sessions (
      ground (
        arith,
        contains_key-insert id k u.new r.sessions,
        contains-found id r.sessions u.old u.found,
        eq→≡ id k,
      ))

  pub Replaced-length : length r'.sessions ≡ length r.sessions
  Replaced-length = rw u.sessions (
      length-insert id u.new r.sessions
      ∙ rw (contains-found id r.sessions u.old u.found) (ground arith))

  pub Replaced-waiting :
      (pending : List Bytes) → waiting pending r'.sessions ≡ waiting pending r.sessions
  Replaced-waiting pending =
      rw u.sessions
        (waiting-insert pending id u.new r.sessions (contains-found id r.sessions u.old u.found))

  pub Replaced-Unique : Unique r.sessions → Unique r'.sessions
  Replaced-Unique v = rw u.sessions (Unique-insert id u.new r.sessions v)

  pub Replaced-get :
      (k : Bytes) → get k r'.sessions ≡ (if eq id k then some u.new else get k r.sessions)
  Replaced-get k = rw u.sessions (get-insert id k u.new r.sessions)

  Replaced-Claiming :
      (pending : List Bytes) (count : ℕ) (closing : Assoc (Unit {0}))
      → Claiming pending count r closing
      → Claiming pending count r' closing
  Replaced-Claiming pending count closing c = record {
    refusing = u.accepting ∙ c.refusing;
    total = Replaced-length ∙ c.total ∙ ap (λ n. count + n) (sym (Replaced-waiting pending));
    distinct = c.distinct;
    ended = λ k s found out. elim (Bool-cases (eq id k)) [
      | inl same ↦
          let new : u.new ≡ s = ground (arith, Replaced-get k) in
          let unlisted : member id pending ≡ false = rw (eq→≡ id k same) out in
          rw (← new) (u.ended (c.ended id u.old u.found unlisted))
      | inr differ ↦ c.ended k s (ground (arith, Replaced-get k)) out
    ];
    held = λ k closed here. c.held k closed (sym (Replaced-contains_key k) ∙ here);
  }

  replaced_nonempty : r.sessions ≡ [] → ⊥
  unfolding get
  replaced_nonempty e = ground (arith, u.found, ap (λ m. get id m) e)

  pub Replaced-InPhase :
      (phase : Phase) (closing : Assoc (Unit {0}))
      → InPhase phase r closing
      → InPhase phase r' closing
  Replaced-InPhase serving closing p = tt
  Replaced-InPhase (claiming pending count) closing p = Replaced-Claiming pending count closing p
  Replaced-InPhase cleared closing p = absurd (replaced_nonempty p.1)

module _ (id : Bytes) (r r' : SessionRegistry) (b : Begun id r r') where
  Begun-Claiming :
      (pending : List Bytes) (count : ℕ) (closing : Assoc (Unit {0}))
      → Claiming pending count r closing
      → Claiming pending count r' (insert id tt closing)
  Begun-Claiming pending count closing c =
      let after = Replaced-Claiming id r r' b.replaced pending count closing c in
      record {
        refusing = after.refusing;
        total = after.total;
        distinct = after.distinct;
        ended = after.ended;
        held = λ k closed here. elim (Bool-cases (eq id k)) [
          | inl same ↦ elim (Bool-cases (member id pending)) [
            | inl listed ↦ rw (← eq→≡ id k same) listed
            | inr out ↦
                let over = c.ended id b.replaced.old b.replaced.found out in
                absurd (ground (arith, over, b.live))
          ]
          | inr differ ↦ after.held k (ground (arith, contains_key-insert id k tt closing)) here
        ];
      }

  pub Begun-InPhase :
      (phase : Phase) (closing : Assoc (Unit {0}))
      → InPhase phase r closing
      → InPhase phase r' (insert id tt closing)
  Begun-InPhase serving closing p = tt
  Begun-InPhase (claiming pending count) closing p = Begun-Claiming pending count closing p
  Begun-InPhase cleared closing p = Replaced-InPhase id r r' b.replaced cleared closing p

-- A session that a call is ending is removed.
module _ (id : Bytes) (r : SessionRegistry) (closing : Assoc (Unit {0})) where
  abbrev pub removed : SessionRegistry
  removed = record r { sessions = remove id r.sessions }

  found-remove :
      (k : Bytes) (s : ManagedSession)
      → get k (remove id r.sessions) ≡ some s
      → get k r.sessions ≡ some s
  found-remove k s h = ground (arith, get-remove id k r.sessions)

  removed-Claiming :
      (pending : List Bytes) (count : ℕ)
      → Unique r.sessions
      → contains_key id closing ≡ true
      → Claiming pending count r closing
      → Claiming pending count removed (remove id closing)
  removed-Claiming pending count u closed c = record {
    refusing = c.refusing;
    total = elim (Bool-cases (contains_key id r.sessions)) [
      | inl here ↦ ground (
        arith,
        length-remove id r.sessions u,
        waiting-remove pending id r.sessions u (c.held id closed here),
        c.total,
      )
      | inr gone ↦ rw (remove_absent id r.sessions gone) c.total
    ];
    distinct = c.distinct;
    ended = λ k s found out. c.ended k s (found-remove k s found) out;
    held = λ k shut here.
        c.held k (ground (arith, contains_key-remove id k closing))
          (ground (arith, contains_key-remove id k r.sessions));
  }

  pub removed-InPhase :
      (phase : Phase)
      → Unique r.sessions
      → contains_key id closing ≡ true
      → InPhase phase r closing
      → InPhase phase removed (remove id closing)
  unfolding remove
  removed-InPhase serving u closed p = tt
  removed-InPhase (claiming pending count) u closed p = removed-Claiming pending count u closed p
  removed-InPhase cleared u closed p = (p.0, ap (λ m. remove id m) p.1)
