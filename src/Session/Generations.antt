-- ===== src/Session/Generations.antt =====
-- The stages of a reload, src/control/reload.rs, and the listeners.
use baffle.Prelude.{
  ℕ, ◌≡◌, sym, ◌∙◌, Bool, true, false, Option, none, some, arith, inl, inr, Bool-cases,
}
use baffle.Prelude.Text.{Bytes, eq, eq→≡}
use baffle.Prelude.Assoc.{Assoc, get, insert, remove, contains_key, get-insert, get-remove}
use baffle.Prelude.Sizes.{contains_key-insert, contains_key-remove}
use baffle.Policy.Types.{SessionConfig}
use baffle.Session.{SessionRegistry, ProxyRuntime}
use baffle.Session.Reload.{prepare_listener}
use baffle.Session.Updates.{Replaced}
use baffle.Session.ReloadUpdates.{Moved, Prepared}
use baffle.Session.Consistent.{Replaced-contains_key, Replaced-get}
use baffle.Session.Listeners.{Sound, move_listener-Sound}
use baffle.Session.Reloads.{Listening}

module _ (closing : Assoc (Unit {0})) (reloading : Assoc (Option ℕ)) where
  -- The stage of a reload is set to one at which no listener is prepared.
  pub unprepared :
      (id : Bytes) (r : SessionRegistry)
      → contains_key id closing ≡ false
      → Listening r closing reloading
      → Listening r closing (insert id none reloading)
  unprepared id r free v = record {
    sound = v.sound;
    room = λ k s g found under. v.room k s g found (ground (arith, get-insert id k none reloading));
    present = λ k g under. v.present k g (ground (arith, get-insert id k none reloading));
    apart = λ k h. elim (Bool-cases (eq id k)) [
      | inl same ↦ absurd (ground (arith, eq→≡ id k same))
      | inr differ ↦ ground (arith, contains_key-insert id k none reloading, v.apart k h)
    ];
  }

  pub locked_free :
      (id : Bytes) (r : SessionRegistry)
      → contains_key id reloading ≡ true
      → Listening r closing reloading
      → contains_key id closing ≡ false
  locked_free id r h v = elim (Bool-cases (contains_key id closing)) [
    | inl closed ↦ absurd (ground (arith, v.apart id closed))
    | inr free ↦ free
  ]

  pub reload_ends :
      (id : Bytes) (r : SessionRegistry)
      → Listening r closing reloading
      → Listening r closing (remove id reloading)
  reload_ends id r v = record {
    sound = v.sound;
    room = λ k s g found under. v.room k s g found (ground (arith, get-remove id k reloading));
    present = λ k g under. v.present k g (ground (arith, get-remove id k reloading));
    apart = λ k h. ground (arith, contains_key-remove id k reloading, v.apart k h);
  }

  -- A listener is prepared.
  pub prepared_one :
      (is_finished : ProxyRuntime → Bool) (id : Bytes) (r : SessionRegistry) (g : ℕ)
      → Prepared id r is_finished g
      → contains_key id closing ≡ false
      → Listening (prepare_listener is_finished id r).0 closing reloading
      → Listening (prepare_listener is_finished id r).0 closing (insert id (some g) reloading)
  prepared_one is_finished id r g p free v = record {
    sound = v.sound;
    room = λ k s h found under. elim (Bool-cases (eq id k)) [
      | inl same ↦
          let session : p.session ≡ s = ground (arith, p.found, eq→≡ id k same, found) in
          let generation : g ≡ h = ground (arith, get-insert id k (some g) reloading) in
          rw (← session) (rw (← generation) (p.room, p.following))
      | inr differ ↦ v.room k s h found (ground (arith, get-insert id k (some g) reloading))
    ];
    present = λ k h under accepting. elim (Bool-cases (eq id k)) [
      | inl same ↦ rw (← eq→≡ id k same) (ground (arith, p.found))
      | inr differ ↦ v.present k h (ground (arith, get-insert id k (some g) reloading)) accepting
    ];
    apart = λ k h. elim (Bool-cases (eq id k)) [
      | inl same ↦ absurd (ground (arith, eq→≡ id k same))
      | inr differ ↦ ground (arith, contains_key-insert id k (some g) reloading, v.apart k h)
    ];
  }

  -- The prepared listener is installed.
  pub moved :
      (candidate : SessionConfig) (secrets : Assoc Bytes) (replacement : ProxyRuntime) (id : Bytes)
      (r r' : SessionRegistry) (u : Replaced id r r')
      → Moved candidate secrets replacement u.old u.new
      → get id reloading ≡ some (some replacement.listener_generation)
      → Listening r closing reloading
      → Listening r' closing (insert id none reloading)
  moved candidate secrets replacement id r r' u m under v =
      let (roomy, following) = v.room id u.old replacement.listener_generation u.found under in
      let fresh : Sound u.new = rw m.new (
        move_listener-Sound candidate secrets replacement m.old u.old m.present following roomy
          (v.sound id u.old u.found)) in
      record {
        sound = λ k s found. elim (Bool-cases (eq id k)) [
          | inl same ↦
              let new : u.new ≡ s = ground (arith, Replaced-get id r r' u k) in rw (← new) fresh
          | inr differ ↦ v.sound k s (ground (arith, Replaced-get id r r' u k))
        ];
        room = λ k s g found h. elim (Bool-cases (eq id k)) [
          | inl same ↦ absurd (ground (arith, get-insert id k none reloading))
          | inr differ ↦
              v.room k s g (ground (arith, Replaced-get id r r' u k))
                (ground (arith, get-insert id k none reloading))
        ];
        present = λ k g h accepting.
            Replaced-contains_key id r r' u k
            ∙ v.present k g (ground (arith, get-insert id k none reloading))
                (sym u.accepting ∙ accepting);
        apart = λ k h. elim (Bool-cases (eq id k)) [
          | inl same ↦ absurd (ground (arith, v.apart k h, eq→≡ id k same, under))
          | inr differ ↦ ground (arith, contains_key-insert id k none reloading, v.apart k h)
        ];
      }
