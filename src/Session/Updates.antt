-- ===== src/Session/Updates.antt =====
-- What each section of src/control/session.rs does to the registry, for the proofs about runs.
use baffle.Prelude.{
  ℕ, suc, ◌+◌, ◌%◌, ◌≡◌, refl, true, false, some, List, arith, inl, inr, Option-cases, ap, sym, ◌∙◌,
}
use baffle.Prelude.Text.{Bytes}
use baffle.Prelude.Assoc.{get, insert}
use baffle.Session.{
  SessionRegistry, ManagedSession, ProxyRuntime, changed, begun, is_ended, set_session, begin_stop,
  begin_remove, begin_exit, take_runtimes, forget_listener,
}
use baffle.Session.Step.{
  Call, stop, remove_session, runtime_exit, begin_call, session_started, session_stopped,
}
use baffle.Session.Listeners.{take_runtimes-Shrinks, Shrinks, forget_listener-Shrinks}

-- `Replaced id r r'`: one session of the registry is replaced by another version of it, and is
-- ended then, if it was before.
pub record Replaced (id : Bytes) (r r' : SessionRegistry) : Type 0 where
  pub old : ManagedSession
  pub new : ManagedSession
  pub found : get id r.sessions ≡ some old
  pub sessions : r'.sessions ≡ insert id new r.sessions
  pub accepting : r'.accepting_sessions ≡ r.accepting_sessions
  pub provisioning : r'.provisioning ≡ r.provisioning
  pub ended : is_ended old ≡ true → is_ended new ≡ true

-- A call begins to end a session only if no call has ended it yet.
pub record Begun (id : Bytes) (r r' : SessionRegistry) : Type 0 where
  pub replaced : Replaced id r r'
  pub live : is_ended replaced.old ≡ false
  pub over : is_ended replaced.new ≡ true
  pub shrinks : Shrinks replaced.old replaced.new

pub take_runtimes-is_ended : (s : ManagedSession) → is_ended (take_runtimes s).0 ≡ true
unfolding take_runtimes
take_runtimes-is_ended s = refl

set_session-Begun :
    (id : Bytes) (s : ManagedSession) (r r' : SessionRegistry)
    → get id r.sessions ≡ some s
    → is_ended s ≡ false
    → set_session id (take_runtimes s).0 r ≡ r'
    → Begun id r r'
set_session-Begun id s r r' found live e = record {
  replaced = record {
    old = s;
    new = (take_runtimes s).0;
    found = found;
    sessions = ap (λ (x : SessionRegistry). x.sessions) (sym e);
    accepting = ap (λ (x : SessionRegistry). x.accepting_sessions) (sym e);
    provisioning = ap (λ (x : SessionRegistry). x.provisioning) (sym e);
    ended = λ h. take_runtimes-is_ended s;
  };
  live = live;
  over = take_runtimes-is_ended s;
  shrinks = take_runtimes-Shrinks s;
}

pub begin_call-Begun :
    (call : Call) (id : Bytes) (r r' : SessionRegistry) (runtimes : List ProxyRuntime)
    → begin_call call id r ≡ begun r' runtimes
    → Begun id r r'
unfolding begin_call begin_stop begin_remove begin_exit
begin_call-Begun stop id r r' runtimes e = elim (Option-cases (get id r.sessions)) [
  | inl missing ↦ absurd (ground arith)
  | inr (s, found) ↦ set_session-Begun id s r r' found (ground arith) (ground arith)
]
begin_call-Begun remove_session id r r' runtimes e = elim (Option-cases (get id r.sessions)) [
  | inl missing ↦ absurd (ground arith)
  | inr (s, found) ↦ set_session-Begun id s r r' found (ground arith) (ground arith)
]
begin_call-Begun (runtime_exit g) id r r' runtimes e = elim (Option-cases (get id r.sessions)) [
  | inl missing ↦ absurd (ground arith)
  | inr (s, found) ↦ set_session-Begun id s r r' found (ground arith) (ground arith)
]

forget_listener-is_ended :
    (g : ℕ) (s : ManagedSession) → is_ended (forget_listener g s) ≡ is_ended s
unfolding forget_listener
forget_listener-is_ended g s = refl

pub begin_call-changed :
    (call : Call) (id : Bytes) (r r' : SessionRegistry)
    → begin_call call id r ≡ changed r'
    → (u : Replaced id r r') × Shrinks u.old u.new
unfolding begin_call begin_stop begin_remove begin_exit
begin_call-changed stop id r r' e = elim (Option-cases (get id r.sessions)) [
  | inl missing ↦ absurd (ground arith)
  | inr (s, found) ↦ absurd (ground arith)
]
begin_call-changed remove_session id r r' e = elim (Option-cases (get id r.sessions)) [
  | inl missing ↦ absurd (ground arith)
  | inr (s, found) ↦ absurd (ground arith)
]
begin_call-changed (runtime_exit g) id r r' e = elim (Option-cases (get id r.sessions)) [
  | inl missing ↦ absurd (ground arith)
  | inr (s, found) ↦
      let same : set_session id (forget_listener g s) r ≡ r' = ground arith in
      (
        record {
          old = s;
          new = forget_listener g s;
          found = found;
          sessions = ap (λ (x : SessionRegistry). x.sessions) (sym same);
          accepting = ap (λ (x : SessionRegistry). x.accepting_sessions) (sym same);
          provisioning = ap (λ (x : SessionRegistry). x.provisioning) (sym same);
          ended = λ h. forget_listener-is_ended g s ∙ h;
        },
        forget_listener-Shrinks g s,
      )
]

-- The gauge wraps as a `u64`.
pub session_started-mod :
    (n : ℕ) → session_started (n % 18446744073709551616) ≡ (1 + n) % 18446744073709551616
unfolding session_started
session_started-mod n = omega arith

pub session_stopped-mod :
    (n : ℕ) → session_stopped (suc n % 18446744073709551616) ≡ n % 18446744073709551616
unfolding session_stopped
session_stopped-mod n = omega arith
