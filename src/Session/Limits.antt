-- ===== src/Session/Limits.antt =====
-- The sections of src/control/session.rs and src/control/reload.rs, and the listeners.
use baffle.Prelude.{
  ℕ, ◌+◌, ◌≡◌, refl, sym, ap, ◌∙◌, Bool, false, not, Option, none, some, ok, arith, inl, inr,
  Option-cases, Result-cases, subst, fail_if-eq-ok, ok-injective, leb,
}
use baffle.Prelude.Text.{Bytes, length, all}
use baffle.Prelude.Assoc.{Assoc, get, insert, contains_key}
use baffle.Policy.Types.{SessionConfig}
use baffle.Session
use baffle.Session.{
  SessionRegistry, ManagedSession, ProxyRuntime, SessionError, new_session, claim, set_session,
  take_runtimes, at_capacity, shutting_down, internal, reserve,
}
use baffle.Session.Reload.{refresh_all, prepare_listener}
use baffle.Session.Step.{prepared_generation}
use baffle.Session.Updates.{take_runtimes-is_ended}
use baffle.Session.ReloadUpdates.{
  Kept, unchanged, replaced, Moved, prepare_listener-Kept, prepare_listener-Prepared,
}
use baffle.Session.Listing.{get-refresh_all, refresh-was, contains_key-refresh_all}
use baffle.Session.Listeners.{
  Sound, Shrinks, refresh-Shrinks, retain-Shrinks, take_runtimes-Shrinks,
}
use baffle.Session.Reloads.{Listening, Kept-Listening}
use baffle.Session.Generations.{unprepared, locked_free, prepared_one, moved}

pub new_session-Sound :
    (id : Bytes) (session : SessionConfig) (secrets : Assoc Bytes) (source : Option Bytes)
    (runtime : ProxyRuntime)
    → runtime.listener_generation ≡ 1
    → Sound (new_session id session secrets source runtime)
unfolding new_session all
new_session-Sound id session secrets source runtime first = record {
  limit = ground arith;
  current = λ r e. ground arith;
  gate = refl;
  retired = refl;
}

pub reserve_same :
    (max_sessions : ℕ) (id : Bytes) (r r' : SessionRegistry)
    → baffle.Session.reserve max_sessions id r ≡ ok r'
    → (r'.sessions ≡ r.sessions) × (r'.accepting_sessions ≡ r.accepting_sessions)
unfolding reserve
reserve_same max_sessions id r r' e =
    let (a, e1) = fail_if-eq-ok (not r.accepting_sessions) shutting_down _ e in
    let (room, e2) =
      fail_if-eq-ok (leb max_sessions (length r.sessions + length r.provisioning)) at_capacity _
        e1 in
    let (fresh, e3) = fail_if-eq-ok (contains_key id r.sessions) internal _ e2 in
    let (free, e4) = fail_if-eq-ok (contains_key id r.provisioning) internal _ e3 in
    rw (sym (ok-injective e4)) (refl, refl)

pub claim-Kept : (id : Bytes) (r : SessionRegistry) → Kept Shrinks id r (claim id r).0
unfolding claim
claim-Kept id r = elim (Option-cases (get id r.sessions)) [
  | inl gone ↦ rw (claim, gone) (unchanged refl)
  | inr (s, found) ↦
      rw (claim, found)
        (replaced
          (record {
            old = s;
            new = (take_runtimes s).0;
            found = found;
            sessions = refl;
            accepting = refl;
            provisioning = refl;
            ended = λ h. take_runtimes-is_ended s;
          })
          (take_runtimes-Shrinks s))
]

module _ (closing : Assoc (Unit {0})) (reloading : Assoc (Option ℕ)) where
  pub list-Listening :
      (is_finished : ProxyRuntime → Bool) (r : SessionRegistry)
      → Listening r closing reloading
      → Listening (record r { sessions = refresh_all is_finished r.sessions }) closing reloading
  list-Listening is_finished r v = record {
    sound = λ k s found.
        let (old, was, same) =
          refresh-was is_finished s (get k r.sessions)
            (sym (get-refresh_all is_finished k r.sessions) ∙ found) in
        rw same ((refresh-Shrinks is_finished old).sound (v.sound k old was));
    room = λ k s g found under.
        let (old, was, same) =
          refresh-was is_finished s (get k r.sessions)
            (sym (get-refresh_all is_finished k r.sessions) ∙ found) in
        let (roomy, following) = v.room k old g was under in
        let h = refresh-Shrinks is_finished old in
        rw same (ground (arith, h.fewer, roomy), following ∙ ap (λ n. n + 1) (sym h.generation));
    present = λ k g under accepting.
        contains_key-refresh_all is_finished k r.sessions ∙ v.present k g under accepting;
    apart = v.apart;
  }

  pub prepare-Listening :
      (is_finished : ProxyRuntime → Bool) (id : Bytes) (r : SessionRegistry)
      → contains_key id closing ≡ false
      → Listening r closing reloading
      → Listening
          (prepare_listener is_finished id r).0
          closing
          (insert id (prepared_generation (prepare_listener is_finished id r).1) reloading)
  prepare-Listening is_finished id r free v =
      let after =
        Kept-Listening closing reloading id r (prepare_listener is_finished id r).0
          (λ s s' e. subst (Shrinks s) (sym e) (retain-Shrinks is_finished s))
          (prepare_listener-Kept id r is_finished) v in
      elim (Result-cases (prepare_listener is_finished id r).1) [
        | inl (g, e) ↦
            subst
              (λ x.
                Listening (prepare_listener is_finished id r).0 closing
                  (insert id (prepared_generation x) reloading))
              (sym e)
              (prepared_one closing reloading is_finished id r g
                (prepare_listener-Prepared id r is_finished g e) free after)
        | inr (bad, e) ↦
            subst
              (λ x.
                Listening (prepare_listener is_finished id r).0 closing
                  (insert id (prepared_generation x) reloading))
              (sym e)
              (unprepared closing reloading id (prepare_listener is_finished id r).0 free after)
      ]

  pub install-Listening :
      (candidate : SessionConfig) (secrets : Assoc Bytes) (replacement : ProxyRuntime) (id : Bytes)
      (r r' : SessionRegistry)
      → Kept (Moved candidate secrets replacement) id r r'
      → get id reloading ≡ some (some replacement.listener_generation)
      → Listening r closing reloading
      → Listening r' closing (insert id none reloading)
  install-Listening candidate secrets replacement id r r' (unchanged e) under v = rw e (
      unprepared closing reloading id r
        (locked_free closing reloading id r (ground (arith, under)) v) v)
  install-Listening candidate secrets replacement id r r' (replaced u m) under v =
      moved closing reloading candidate secrets replacement id r r' u m under v
