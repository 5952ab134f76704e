-- ===== src/Session/Listing.antt =====
-- `list` of src/control/session.rs, which refreshes every session.
use baffle.Prelude.{
  ℕ, ◌+◌, ◌≡◌, refl, sym, ap, ◌∙◌, Bool, true, Option, none, some, List, [], ◌∷◌, arith, ◌%◌,
}
use baffle.Prelude.Text.{Bytes, length}
use baffle.Prelude.Assoc.{Assoc, get, contains_key}
use baffle.Prelude.Sizes.{Unique, waiting}
use baffle.Session.{SessionRegistry, ManagedSession, ProxyRuntime, is_ended}
use baffle.Session.Reload.{refresh, refresh_all}
use baffle.Session.Step.{Daemon, Phase, listed}
use baffle.Session.Consistent.{InPhase}
use baffle.Session.Runs.{Consistent}

module _ (is_finished : ProxyRuntime → Bool) where
  -- The refreshed session, where there is one.
  abbrev pub refreshed : Option ManagedSession → Option ManagedSession
  refreshed none = none
  refreshed (some s) = some (refresh is_finished s)

  pub get-refresh_all :
      (k : Bytes) (m : Assoc ManagedSession)
      → get k (refresh_all is_finished m) ≡ refreshed (get k m)
  unfolding refresh_all get
  get-refresh_all k [] = refl
  get-refresh_all k ((id, s) ∷ rest) = ground (arith, get-refresh_all k rest)

  pub contains_key-refresh_all :
      (k : Bytes) (m : Assoc ManagedSession)
      → contains_key k (refresh_all is_finished m) ≡ contains_key k m
  contains_key-refresh_all k m = ground (arith, get-refresh_all k m)

  length-refresh_all : (m : Assoc ManagedSession) → length (refresh_all is_finished m) ≡ length m
  unfolding refresh_all
  length-refresh_all [] = refl
  length-refresh_all ((id, s) ∷ rest) = ground (arith, length-refresh_all rest)

  Unique-refresh_all : (m : Assoc ManagedSession) → Unique m → Unique (refresh_all is_finished m)
  unfolding refresh_all
  Unique-refresh_all [] u = tt
  Unique-refresh_all ((id, s) ∷ rest) (a, u) =
      (contains_key-refresh_all id rest ∙ a, Unique-refresh_all rest u)

  waiting-refresh_all :
      (pending : List Bytes) (m : Assoc ManagedSession)
      → waiting pending (refresh_all is_finished m) ≡ waiting pending m
  unfolding refresh_all
  waiting-refresh_all pending [] = refl
  waiting-refresh_all pending ((id, s) ∷ rest) = ground (arith, waiting-refresh_all pending rest)

  pub refresh-was :
      (s : ManagedSession) (o : Option ManagedSession)
      → refreshed o ≡ some s
      → (old : ManagedSession) × (o ≡ some old) × (s ≡ refresh is_finished old)
  refresh-was s none e = absurd (ground arith)
  refresh-was s (some old) e = (old, refl, ground arith)

  refresh_ended : (s : ManagedSession) → is_ended s ≡ true → is_ended (refresh is_finished s) ≡ true
  unfolding refresh
  refresh_ended s h = h

  module _ (r : SessionRegistry) where
    abbrev listed_registry : SessionRegistry
    listed_registry = record r { sessions = refresh_all is_finished r.sessions }

    listed-InPhase :
        (p : Phase) (closing : Assoc (Unit {0}))
        → InPhase p r closing
        → InPhase p listed_registry closing
    unfolding refresh_all
    listed-InPhase Phase.serving closing p = tt
    listed-InPhase (Phase.claiming pending count) closing p = record {
      refusing = p.refusing;
      total =
          length-refresh_all r.sessions
          ∙ p.total
          ∙ ap (λ n. count + n) (sym (waiting-refresh_all pending r.sessions));
      distinct = p.distinct;
      ended = λ k s found out.
          let (old, was, same) =
            refresh-was s (get k r.sessions) (sym (get-refresh_all k r.sessions) ∙ found) in
          rw same (refresh_ended old (p.ended k old was out));
      held = λ k closed here. p.held k closed (sym (contains_key-refresh_all k r.sessions) ∙ here);
    }
    listed-InPhase Phase.cleared closing p = (p.0, ap (refresh_all is_finished) p.1)

  pub list-Consistent :
      (max_sessions : ℕ) (d : Daemon)
      → Consistent max_sessions d
      → Consistent max_sessions (listed is_finished d)
  list-Consistent max_sessions d c =
      let same = length-refresh_all d.registry.sessions in
      record {
        gauge = c.gauge ∙ ap (λ n. (n + d.owed) % 18446744073709551616) (sym same);
        capacity = rw same c.capacity;
        unique = Unique-refresh_all d.registry.sessions c.unique;
        unique_reservations = c.unique_reservations;
        reserved = c.reserved;
        separate = λ k h. contains_key-refresh_all k d.registry.sessions ∙ c.separate k h;
        phase = listed-InPhase d.registry d.phase d.closing c.phase;
      }
