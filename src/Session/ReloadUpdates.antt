-- ===== src/Session/ReloadUpdates.antt =====
-- What each section of a reload does to the registry, for the proofs about runs.
use baffle.Prelude.{
  ℕ, ◌+◌, ◌≡◌, refl, Bool, true, not, ◌||◌, some, ok, arith, inl, inr, Bool-cases, Option-cases,
  leb, ◌<◌, ltb,
}
use baffle.Prelude.Text.{Bytes, length, eq_refl}
use baffle.Prelude.Assoc.{Assoc, get, get-insert}
use baffle.Policy.Types.{SessionConfig}
use baffle.Session.{
  SessionRegistry, ManagedSession, ProxyRuntime, is_ended, set_session, is_stopping,
}
use baffle.Session.Updates.{Replaced}
use baffle.Session.Reload.{
  refresh, retain, adopt, move_listener, check_reload, prepare_listener, replace_generation,
  install_listener, max_u64, max_retired_listeners,
}

-- A section of a reload leaves the registry as it is, or replaces the session by a version of it
-- for which `P` holds with the version before.
pub data Kept (P : ManagedSession → ManagedSession → Type 0) (id : Bytes) (r r' : SessionRegistry)
    : Type 0 where
  unchanged : r' ≡ r → Kept P id r r'
  replaced : (u : Replaced id r r') → P u.old u.new → Kept P id r r'

module _ {P : ManagedSession → ManagedSession → Type 0} (id : Bytes) (s s' : ManagedSession)
    (r : SessionRegistry) where
  kept_session :
      get id r.sessions ≡ some s
      → (is_ended s ≡ true → is_ended s' ≡ true)
      → P s s'
      → Kept P id r (set_session id s' r)
  kept_session found ended p =
      replaced
        (record {
          old = s;
          new = s';
          found = found;
          sessions = refl;
          accepting = refl;
          provisioning = refl;
          ended = ended;
        })
        p

-- The versions that the sections give.
abbrev pub Refreshed : (ProxyRuntime → Bool) → ManagedSession → ManagedSession → Type 0
Refreshed is_finished s s' = s' ≡ refresh is_finished s

abbrev pub Retained : (ProxyRuntime → Bool) → ManagedSession → ManagedSession → Type 0
Retained is_finished s s' = s' ≡ retain is_finished s

abbrev pub Adopted : SessionConfig → Assoc Bytes → ManagedSession → ManagedSession → Type 0
Adopted candidate secrets s s' = s' ≡ adopt candidate secrets s

pub record Moved (candidate : SessionConfig) (secrets : Assoc Bytes) (replacement : ProxyRuntime)
    (s s' : ManagedSession) : Type 0 where
  pub old : ProxyRuntime
  pub present : s.runtime ≡ some old
  pub new : s' ≡ move_listener candidate secrets replacement old s

module _ (id : Bytes) (r : SessionRegistry) where
  refresh_ended :
      (is_finished : ProxyRuntime → Bool) (s : ManagedSession)
      → is_ended s ≡ true
      → is_ended (refresh is_finished s) ≡ true
  unfolding refresh
  refresh_ended is_finished s h = h

  pub check_reload-Kept :
      (is_finished : ProxyRuntime → Bool)
      → Kept (Refreshed is_finished) id r (check_reload is_finished id r).0
  unfolding check_reload
  check_reload-Kept is_finished = elim (Option-cases (get id r.sessions)) [
    | inl missing ↦ rw (check_reload, missing) (unchanged refl)
    | inr (s, found) ↦
        let kept : Kept (Refreshed is_finished) id r (set_session id (refresh is_finished s) r) =
          kept_session id s (refresh is_finished s) r found (refresh_ended is_finished s) refl in
        elim (Bool-cases (is_stopping s.info.state || not r.accepting_sessions)) [
          | inl refused ↦ rw (check_reload, found, refused) kept
          | inr open_session ↦ elim (Option-cases s.config_source) [
            | inl inline ↦ rw (check_reload, found, open_session, inline) kept
            | inr (source, named) ↦ rw (check_reload, found, open_session, named) kept
          ]
        ]
  ]

  pub replace_generation-Kept :
      (accepted : Bool) (candidate : SessionConfig) (secrets : Assoc Bytes)
      → Kept (Adopted candidate secrets) id r (replace_generation accepted candidate secrets id r).0
  unfolding replace_generation adopt
  replace_generation-Kept accepted candidate secrets =
      elim (Bool-cases (not r.accepting_sessions)) [
        | inl refused ↦ rw (replace_generation, refused) (unchanged refl)
        | inr open_session ↦ elim (Option-cases (get id r.sessions)) [
          | inl missing ↦ rw (replace_generation, open_session, missing) (unchanged refl)
          | inr (s, found) ↦ elim (Option-cases s.runtime) [
            | inl ended ↦ rw (replace_generation, open_session, found, ended) (unchanged refl)
            | inr (runtime, present) ↦ elim (Bool-cases accepted) [
              | inr full ↦
                  rw (replace_generation, open_session, found, present, full) (unchanged refl)
              | inl fits ↦
                  rw (replace_generation, open_session, found, present, fits)
                    (kept_session id s (adopt candidate secrets s) r found (λ h. h) refl)
            ]
          ]
        ]
      ]

  pub install_listener-Kept :
      (candidate : SessionConfig) (secrets : Assoc Bytes) (replacement : ProxyRuntime)
      → Kept
          (Moved candidate secrets replacement)
          id
          r
          (install_listener candidate secrets replacement id r).0
  unfolding install_listener
  install_listener-Kept candidate secrets replacement =
      elim (Bool-cases (not r.accepting_sessions)) [
        | inl refused ↦ rw (install_listener, refused) (unchanged refl)
        | inr open_session ↦ elim (Option-cases (get id r.sessions)) [
          | inl missing ↦ rw (install_listener, open_session, missing) (unchanged refl)
          | inr (s, found) ↦ elim (Bool-cases (is_stopping s.info.state)) [
            | inl stopping ↦ rw (install_listener, open_session, found, stopping) (unchanged refl)
            | inr running ↦ elim (Option-cases s.runtime) [
              | inl ended ↦
                  rw (install_listener, open_session, found, running, ended) (unchanged refl)
              | inr (old, present) ↦
                  rw (install_listener, open_session, found, running, present)
                    (kept_session id s (move_listener candidate secrets replacement old s) r found
                      (λ h. absurd (ground arith))
                      (record { old = old; present = present; new = refl }))
            ]
          ]
        ]
      ]

  module _ (is_finished : ProxyRuntime → Bool) where
    retain_ended : (s : ManagedSession) → is_ended s ≡ true → is_ended (retain is_finished s) ≡ true
    unfolding retain
    retain_ended s h = h

    retain-listener_generation :
        (s : ManagedSession) → (retain is_finished s).listener_generation ≡ s.listener_generation
    unfolding retain
    retain-listener_generation s = refl

    kept-Retained :
        (s : ManagedSession)
        → get id r.sessions ≡ some s
        → Kept (Retained is_finished) id r (set_session id (retain is_finished s) r)
    kept-Retained s found = kept_session id s (retain is_finished s) r found (retain_ended s) refl

    pub prepare_listener-Kept :
        Kept (Retained is_finished) id r (prepare_listener is_finished id r).0
    unfolding prepare_listener
    prepare_listener-Kept = elim (Bool-cases (not r.accepting_sessions)) [
      | inl refused ↦ rw (prepare_listener, refused) (unchanged refl)
      | inr open_session ↦ elim (Option-cases (get id r.sessions)) [
        | inl missing ↦ rw (prepare_listener, open_session, missing) (unchanged refl)
        | inr (s, found) ↦ elim (Option-cases s.runtime) [
          | inl ended ↦ rw (prepare_listener, open_session, found, ended) (kept-Retained s found)
          | inr (runtime, present) ↦ elim (Bool-cases (leb max_u64 s.listener_generation)) [
            | inl last ↦
                rw (prepare_listener, open_session, found, present, last) (kept-Retained s found)
            | inr more ↦
                elim (Bool-cases
                  (ltb (length (retain is_finished s).retired_runtimes) max_retired_listeners)) [
                    | inl room ↦
                        rw (prepare_listener, open_session, found, present, more, room)
                          (kept-Retained s found)
                    | inr full ↦
                        rw (prepare_listener, open_session, found, present, more, full)
                          (kept-Retained s found)
                  ]
          ]
        ]
      ]
    ]

    -- A listener is prepared for a session that can retire its present one.
    pub record Prepared (generation : ℕ) : Type 0 where
      pub session : ManagedSession
      pub found : get id (prepare_listener is_finished id r).0.sessions ≡ some session
      pub room : length session.retired_runtimes < max_retired_listeners
      pub following : generation ≡ session.listener_generation + 1

    pub prepare_listener-Prepared :
        (generation : ℕ)
        → (prepare_listener is_finished id r).1 ≡ ok generation
        → Prepared generation
    unfolding prepare_listener
    prepare_listener-Prepared generation e = elim (Bool-cases (not r.accepting_sessions)) [
      | inl refused ↦ absurd (ground arith)
      | inr open_session ↦ elim (Option-cases (get id r.sessions)) [
        | inl missing ↦ absurd (ground arith)
        | inr (s, found) ↦ elim (Option-cases s.runtime) [
          | inl ended ↦ absurd (ground arith)
          | inr (runtime, present) ↦ elim (Bool-cases (leb max_u64 s.listener_generation)) [
            | inl last ↦ absurd (ground arith)
            | inr more ↦
                elim (Bool-cases
                  (ltb (length (retain is_finished s).retired_runtimes) max_retired_listeners)) [
                    | inl room ↦ record {
                      session = retain is_finished s;
                      found =
                          ground
                            (arith, get-insert id id (retain is_finished s) r.sessions, eq_refl id);
                      room = ground arith;
                      following = ground (arith, retain-listener_generation s);
                    }
                    | inr full ↦ absurd (ground arith)
                  ]
          ]
        ]
      ]
    ]
