-- ===== src/Session/Listeners.antt =====
-- The listeners of a session: src/control/reload.rs with src/control/session.rs.
use baffle.Prelude.{ℕ, ◌+◌, ◌≡◌, ◌≤◌, ◌<◌, refl, Bool, true, some, List, [], ◌∷◌, ltb, arith, ◌++◌}
use baffle.Prelude.Text.{Bytes, length, all, length-append, all-append}
use baffle.Prelude.Assoc.{Assoc}
use baffle.Policy.Types.{SessionConfig}
use baffle.Session.{
  ManagedSession, ProxyRuntime, take_runtimes, forget_listener, without_generation,
}
use baffle.Session.Reload.{unfinished, refresh, retain, adopt, move_listener}

abbrev pub older : ℕ → List ProxyRuntime → Bool
older g runtimes = all (λ (r : ProxyRuntime). ltb r.listener_generation g) runtimes

-- The listener in use has the session's listener generation, at which the gate stands, and those
-- that are retired are at most eight and of earlier generations.
pub record Sound (s : ManagedSession) : Type 0 where
  pub limit : length s.retired_runtimes ≤ 8
  pub current :
      (r : ProxyRuntime) → s.runtime ≡ some r → r.listener_generation ≡ s.listener_generation
  pub gate : s.listener_gate ≡ s.listener_generation
  pub retired : older s.listener_generation s.retired_runtimes ≡ true

-- A version of a session with no further listener.
pub record Shrinks (s s' : ManagedSession) : Type 0 where
  pub fewer : length s'.retired_runtimes ≤ length s.retired_runtimes
  pub generation : s'.listener_generation ≡ s.listener_generation
  pub sound : Sound s → Sound s'

unfinished_lem :
    (is_finished : ProxyRuntime → Bool) (g : ℕ) (runtimes : List ProxyRuntime)
    → (length (unfinished is_finished runtimes) ≤ length runtimes)
      × (older g runtimes ≡ true → older g (unfinished is_finished runtimes) ≡ true)
unfolding unfinished all
unfinished_lem is_finished g [] = (ground arith, λ h. refl)
unfinished_lem is_finished g (r ∷ rest) =
    let (fewer, keeps) = unfinished_lem is_finished g rest in
    (ground (arith, fewer), λ h. ground (arith, keeps))

without_generation_lem :
    (f g : ℕ) (runtimes : List ProxyRuntime)
    → (length (without_generation f runtimes) ≤ length runtimes)
      × (older g runtimes ≡ true → older g (without_generation f runtimes) ≡ true)
unfolding all
without_generation_lem f g [] = (ground arith, λ h. refl)
without_generation_lem f g (r ∷ rest) =
    let (fewer, keeps) = without_generation_lem f g rest in
    (ground (arith, fewer), λ h. ground (arith, keeps))

pub refresh-Shrinks :
    (is_finished : ProxyRuntime → Bool) (s : ManagedSession) → Shrinks s (refresh is_finished s)
unfolding refresh
refresh-Shrinks is_finished s =
    let (fewer, keeps) = unfinished_lem is_finished s.listener_generation s.retired_runtimes in
    record {
      fewer = fewer;
      generation = refl;
      sound = λ v. record {
        limit = ground (arith, fewer, v.limit);
        current = v.current;
        gate = v.gate;
        retired = keeps v.retired;
      };
    }

pub retain-Shrinks :
    (is_finished : ProxyRuntime → Bool) (s : ManagedSession) → Shrinks s (retain is_finished s)
unfolding retain
retain-Shrinks is_finished s =
    let (fewer, keeps) = unfinished_lem is_finished s.listener_generation s.retired_runtimes in
    record {
      fewer = fewer;
      generation = refl;
      sound = λ v. record {
        limit = ground (arith, fewer, v.limit);
        current = v.current;
        gate = v.gate;
        retired = keeps v.retired;
      };
    }

pub forget_listener-Shrinks : (g : ℕ) (s : ManagedSession) → Shrinks s (forget_listener g s)
unfolding forget_listener
forget_listener-Shrinks g s =
    let (fewer, keeps) = without_generation_lem g s.listener_generation s.retired_runtimes in
    record {
      fewer = fewer;
      generation = refl;
      sound = λ v. record {
        limit = ground (arith, fewer, v.limit);
        current = v.current;
        gate = v.gate;
        retired = keeps v.retired;
      };
    }

pub adopt-Shrinks :
    (candidate : SessionConfig) (secrets : Assoc Bytes) (s : ManagedSession)
    → Shrinks s (adopt candidate secrets s)
unfolding adopt
adopt-Shrinks candidate secrets s = record {
  fewer = ground arith;
  generation = refl;
  sound = λ v. record { limit = v.limit; current = v.current; gate = v.gate; retired = v.retired };
}

pub take_runtimes-Shrinks : (s : ManagedSession) → Shrinks s (take_runtimes s).0
unfolding take_runtimes all
take_runtimes-Shrinks s = record {
  fewer = ground arith;
  generation = refl;
  sound = λ v. record {
    limit = ground arith;
    current = λ r e. absurd (ground arith);
    gate = v.gate;
    retired = refl;
  };
}

older_mono :
    (g h : ℕ) (runtimes : List ProxyRuntime)
    → g ≤ h
    → older g runtimes ≡ true
    → older h runtimes ≡ true
unfolding all
older_mono g h [] le o = refl
older_mono g h (r ∷ rest) le o = ground (arith, older_mono g h rest le)

-- The listener of the next generation takes the place of the present one.
pub move_listener-Sound :
    (candidate : SessionConfig) (secrets : Assoc Bytes) (replacement old : ProxyRuntime)
    (s : ManagedSession)
    → s.runtime ≡ some old
    → replacement.listener_generation ≡ s.listener_generation + 1
    → length s.retired_runtimes < 8
    → Sound s
    → Sound (move_listener candidate secrets replacement old s)
unfolding move_listener all
move_listener-Sound candidate secrets replacement old s present following room v =
    let before : ProxyRuntime → Bool =
      λ r. ltb r.listener_generation replacement.listener_generation in
    let longer : length (s.retired_runtimes ++ old ∷ []) ≡ length s.retired_runtimes + 1 =
      length-append {0} s.retired_runtimes (old ∷ []) in
    let both = all-append before s.retired_runtimes (old ∷ []) in
    record {
      limit = ground (arith, longer);
      current = λ r e. ground arith;
      gate = refl;
      retired = ground (
        arith,
        both,
        older_mono s.listener_generation replacement.listener_generation s.retired_runtimes
            (omega arith) v.retired,
        v.current old present,
      );
    }
