-- ===== src/Session/Reloads.antt =====
-- The listeners of every session in every run.
use baffle.Prelude.{
  ℕ, ◌+◌, ◌≡◌, ◌<◌, sym, ap, ◌∙◌, true, false, some, arith, inl, inr, Bool-cases, Option, [],
}
use baffle.Prelude.Text.{Bytes, eq, length, eq→≡}
use baffle.Prelude.Assoc.{Assoc, get, contains_key, insert, remove, get-insert, get-remove}
use baffle.Session.{SessionRegistry, ManagedSession, empty_registry}
use baffle.Session.Updates.{Replaced}
use baffle.Session.Consistent.{Replaced-contains_key, Replaced-get}
use baffle.Session.ReloadUpdates.{Kept, unchanged, replaced}
use baffle.Session.Listeners.{Sound, Shrinks}
use baffle.Prelude.Sizes.{contains_key-insert, contains_key-remove}

-- What holds of the listeners between two steps: each session's are sound; a reload that has
-- prepared a listener has room to retire the present one, and prepared the next generation; while
-- sessions are accepted, its session is there; and no call is ending that session.
pub record Listening (r : SessionRegistry) (closing : Assoc (Unit {0}))
    (reloading : Assoc (Option ℕ)) : Type 0 where
  pub sound : (k : Bytes) (s : ManagedSession) → get k r.sessions ≡ some s → Sound s
  pub room :
      (k : Bytes) (s : ManagedSession) (g : ℕ)
      → get k r.sessions ≡ some s
      → get k reloading ≡ some (some g)
      → (length s.retired_runtimes < 8) × (g ≡ s.listener_generation + 1)
  pub present :
      (k : Bytes) (g : ℕ)
      → get k reloading ≡ some (some g)
      → r.accepting_sessions ≡ true
      → contains_key k r.sessions ≡ true
  pub apart : (k : Bytes) → contains_key k closing ≡ true → contains_key k reloading ≡ false

pub empty-Listening : Listening empty_registry [] []
unfolding get
empty-Listening = record {
  sound = λ k s h. absurd (ground arith);
  room = λ k s g h. absurd (ground arith);
  present = λ k g h. absurd (ground arith);
  apart = λ k h. absurd (ground arith);
}

module _ (closing : Assoc (Unit {0})) (reloading : Assoc (Option ℕ)) where
  -- What a section that gives a session no further listener keeps.
  pub shrunk :
      (id : Bytes) (r r' : SessionRegistry) (u : Replaced id r r')
      → Shrinks u.old u.new
      → Listening r closing reloading
      → Listening r' closing reloading
  shrunk id r r' u h v = record {
    sound = λ k s found. elim (Bool-cases (eq id k)) [
      | inl same ↦
          let new : u.new ≡ s = ground (arith, Replaced-get id r r' u k) in
          rw (← new) (h.sound (v.sound id u.old u.found))
      | inr differ ↦ v.sound k s (ground (arith, Replaced-get id r r' u k))
    ];
    room = λ k s g found under. elim (Bool-cases (eq id k)) [
      | inl same ↦
          let new : u.new ≡ s = ground (arith, Replaced-get id r r' u k) in
          let (roomy, following) = v.room id u.old g u.found (rw (eq→≡ id k same) under) in
          rw (← new)
            (ground (arith, h.fewer, roomy), following ∙ ap (λ n. n + 1) (sym h.generation))
      | inr differ ↦ v.room k s g (ground (arith, Replaced-get id r r' u k)) under
    ];
    present = λ k g under accepting.
        Replaced-contains_key id r r' u k ∙ v.present k g under (sym u.accepting ∙ accepting);
    apart = v.apart;
  }

  pub Kept-Listening :
      {P : ManagedSession → ManagedSession → Type 0} (id : Bytes) (r r' : SessionRegistry)
      → ((s s' : ManagedSession) → P s s' → Shrinks s s')
      → Kept P id r r'
      → Listening r closing reloading
      → Listening r' closing reloading
  Kept-Listening id r r' h (unchanged e) v = rw e v
  Kept-Listening id r r' h (replaced u p) v = shrunk id r r' u (h u.old u.new p) v

  -- The sessions are the same, and none is accepted where none was.
  pub same_sessions :
      (r r' : SessionRegistry)
      → r'.sessions ≡ r.sessions
      → (r'.accepting_sessions ≡ true → r.accepting_sessions ≡ true)
      → Listening r closing reloading
      → Listening r' closing reloading
  same_sessions r r' e a v = record {
    sound = rw e v.sound;
    room = rw e v.room;
    present = λ k g under accepting. rw e (v.present k g under (a accepting));
    apart = v.apart;
  }

  -- A session is registered.
  pub inserted :
      (id : Bytes) (s' : ManagedSession) (r r' : SessionRegistry)
      → r'.sessions ≡ insert id s' r.sessions
      → r.accepting_sessions ≡ true
      → contains_key id r.sessions ≡ false
      → Sound s'
      → Listening r closing reloading
      → Listening r' closing reloading
  inserted id s' r r' e a absent fresh v = record {
    sound = λ k s found. elim (Bool-cases (eq id k)) [
      | inl same ↦
          let new : s' ≡ s = ground (arith, get-insert id k s' r.sessions, ap (λ m. get k m) e) in
          rw (← new) fresh
      | inr differ ↦
          v.sound k s (ground (arith, get-insert id k s' r.sessions, ap (λ m. get k m) e))
    ];
    room = λ k s g found under. elim (Bool-cases (eq id k)) [
      | inl same ↦
          let there = v.present id g (rw (eq→≡ id k same) under) a in
          absurd (ground (arith, there, absent))
      | inr differ ↦
          v.room k s g (ground (arith, get-insert id k s' r.sessions, ap (λ m. get k m) e)) under
    ];
    present = λ k g under accepting.
        rw e (contains_key-insert id k s' r.sessions ∙ rw (v.present k g under a) (ground arith));
    apart = v.apart;
  }

  -- A session that a call is ending is removed.
  pub removed_session :
      (id : Bytes) (r : SessionRegistry)
      → contains_key id closing ≡ true
      → Listening r closing reloading
      → Listening (record r { sessions = remove id r.sessions }) (remove id closing) reloading
  removed_session id r closed v = record {
    sound = λ k s found. v.sound k s (ground (arith, get-remove id k r.sessions));
    room = λ k s g found under. v.room k s g (ground (arith, get-remove id k r.sessions)) under;
    present = λ k g under accepting. elim (Bool-cases (eq id k)) [
      | inl same ↦ absurd (ground (arith, v.apart id closed, eq→≡ id k same, under))
      | inr differ ↦
          ground (arith, contains_key-remove id k r.sessions, v.present k g under accepting)
    ];
    apart = λ k h. v.apart k (ground (arith, contains_key-remove id k closing));
  }

  pub closed_begins :
      (id : Bytes) (r : SessionRegistry)
      → contains_key id reloading ≡ false
      → Listening r closing reloading
      → Listening r (insert id tt closing) reloading
  closed_begins id r unlocked v = record {
    sound = v.sound;
    room = v.room;
    present = v.present;
    apart = λ k h. elim (Bool-cases (eq id k)) [
      | inl same ↦ rw (← eq→≡ id k same) unlocked
      | inr differ ↦ v.apart k (ground (arith, contains_key-insert id k tt closing))
    ];
  }
