-- ===== src/Http/Apply.antt =====
-- What `apply_header_credentials` leaves in each header.
use baffle.Prelude.{
  ◌≡◌, refl, sym, ap, ◌∙◌, inl, inr, Bool, true, false, Option, none, some, List, [], ◌∷◌,
  if◌then◌else◌, ok, arith, Result-cases, Bool-cases, ok-injective, subst,
}
use baffle.Prelude.Text.{Bytes, eq, eq→≡, eq_refl, any}
use baffle.Prelude.Assoc.{Assoc, get}
use baffle.Prelude.Apart.{Apart}
use baffle.Authorization.{CompiledCredential}
use baffle.Http.{HttpLibrary, collect_values, set_headers, apply_header_credentials}
use baffle.Http.Turn.{
  names, Turn, skipped, kept, set, enabled_names, new_value, wanted, collect_values-Turn,
  wanted-absent, enabled_names-off, enabled_names-on, wanted-off, wanted-on,
}

any-tail :
    (n m : Bytes) (ms : List Bytes)
    → any (λ x. eq n x) (m ∷ ms) ≡ false
    → any (λ x. eq n x) ms ≡ false
unfolding any
any-tail n m ms h = ground arith

any-cons :
    (n m : Bytes) (ms ks : List Bytes)
    → any (λ x. eq n x) (m ∷ ms) ≡ false
    → any (λ x. eq n x) ks ≡ false
    → any (λ x. eq n x) (m ∷ ks) ≡ false
unfolding any
any-cons n m ms ks h k = ground arith

if-absent :
    (hit : Bool) (new other : Option Bytes)
    → new ≡ none
    → (hit ≡ true → other ≡ none)
    → other ≡ (if hit then new else other)
if-absent true new other e h = h refl ∙ sym e
if-absent false new other e h = refl

abbrev pub replaced : Option Bytes → List Bytes → List Bytes
replaced none values = values
replaced (some value) values = value ∷ []

module _ (lib : HttpLibrary) where
  open lib use {
    Headers, header_name, header_value, get_all, remove, insert, get_all-remove, get_all-insert,
  }

  get-absent :
      (m : Bytes) (values : List (Bytes × Bytes))
      → any (λ n. eq m n) (names values) ≡ false
      → get m values ≡ none
  unfolding get any
  get-absent m [] h = refl
  get-absent m ((n, v) ∷ rest) h = ground (arith, get-absent m rest, eq→≡ n m, eq_refl m)

  get_all-set_headers :
      (headers : Headers) (values : List (Bytes × Bytes)) (m : Bytes)
      → Apart eq (names values)
      → get_all (set_headers lib headers values) m ≡ replaced (get m values) (get_all headers m)
  unfolding set_headers get
  get_all-set_headers headers [] m a = refl
  get_all-set_headers headers ((n, v) ∷ rest) m a =
      get_all-set_headers (insert (remove headers n) n v) rest m a.1 ∙ elim (Bool-cases (eq n m)) [
        | inl same ↦ rw (
          get-absent m rest (rw (← eq→≡ n m same) a.0),
          same,
          get_all-insert (remove headers n) n v m,
          same,
        )
        | inr differ ↦ rw (
          differ,
          get_all-insert (remove headers n) n v m,
          differ,
          get_all-remove headers n m,
          differ,
        )
      ]

  -- What the loop gives, if the names are distinct: at each name the value that is wanted.
  record Collected (headers : Headers) (secrets : Assoc Bytes)
      (credentials : List CompiledCredential) (values : List (Bytes × Bytes)) : Type 0 where
    apart : Apart eq (names values)
    absent :
        (n : Bytes)
        → any (λ m. eq n m) (enabled_names lib credentials) ≡ false
        → any (λ m. eq n m) (names values) ≡ false
    lookup : (m : Bytes) → get m values ≡ wanted lib headers secrets credentials m

  -- A turn keeps the description, in each of its forms.
  Turn-Collected :
      (headers : Headers) (secrets : Assoc Bytes) (c : CompiledCredential)
      (rest : List CompiledCredential) (values : List (Bytes × Bytes))
      → Turn lib headers secrets c (collect_values lib headers secrets rest) values
      → Apart eq (enabled_names lib (c ∷ rest))
      → ((v : List (Bytes × Bytes))
          → collect_values lib headers secrets rest ≡ ok v
          → Apart eq (enabled_names lib rest)
          → Collected headers secrets rest v)
      → Collected headers secrets (c ∷ rest) values
  Turn-Collected headers secrets c rest values (skipped off el) a ih =
      let same = enabled_names-off lib c rest off in
      let r = ih values el (subst (Apart eq) same a) in
      record {
        apart = r.apart;
        absent = λ n h. r.absent n (subst (λ ns. any (λ m. eq n m) ns ≡ false) same h);
        lookup = λ m. r.lookup m ∙ sym (wanted-off lib c rest headers secrets m off);
      }
  Turn-Collected headers secrets c rest values (kept name on en nv el) a ih =
      let same = enabled_names-on lib c rest name on en in
      let b = subst (Apart eq) same a in
      let r = ih values el b.1 in
      record {
        apart = r.apart;
        absent = λ n h. r.absent n (
            any-tail n name (enabled_names lib rest)
              (subst (λ ns. any (λ m. eq n m) ns ≡ false) same h));
        lookup = λ m.
            r.lookup m
            ∙ if-absent (eq name m) (new_value lib headers secrets c)
                (wanted lib headers secrets rest m) nv
                (λ hit. wanted-absent lib headers secrets rest m (rw (← eq→≡ name m hit) b.0))
            ∙ sym (wanted-on lib c rest headers secrets name m on en);
      }
  Turn-Collected headers secrets c rest values (set name value later on en nv el ev) a ih =
      let same = enabled_names-on lib c rest name on en in
      let b = subst (Apart eq) same a in
      let r = ih later el b.1 in
      rw ev (record {
        apart = (r.absent name b.0, r.apart);
        absent = λ n h.
            let h' = subst (λ ns. any (λ m. eq n m) ns ≡ false) same h in
            any-cons n name (enabled_names lib rest) (names later) h'
              (r.absent n (any-tail n name (enabled_names lib rest) h'));
        lookup = λ m.
            unfold get in
            ground (arith, r.lookup m, wanted-on lib c rest headers secrets name m on en);
      })

  collect_values-nil :
      (headers : Headers) (secrets : Assoc Bytes) (values : List (Bytes × Bytes))
      → collect_values lib headers secrets [] ≡ ok values
      → [] ≡ values
  unfolding collect_values
  collect_values-nil headers secrets values e = ok-injective e

  collect_values-Collected :
      (headers : Headers) (secrets : Assoc Bytes) (credentials : List CompiledCredential)
      (values : List (Bytes × Bytes))
      → collect_values lib headers secrets credentials ≡ ok values
      → Apart eq (enabled_names lib credentials)
      → Collected headers secrets credentials values
  collect_values-Collected headers secrets [] values e a =
      subst (Collected headers secrets []) (collect_values-nil headers secrets values e)
        (record { apart = tt; absent = λ n h. h; lookup = λ m. unfold get in refl })
  collect_values-Collected headers secrets (c ∷ rest) values e a =
      Turn-Collected headers secrets c rest values
        (collect_values-Turn lib headers secrets c rest values e) a
        (λ v q b. collect_values-Collected headers secrets rest v q b)

  -- If no two enabled credentials name the same header, a request that is not refused has in each
  -- header that an enabled credential names and gives a new value that one value, computed from the
  -- request as it came, and in every other header the values that it had.
  pub apply_header_credentials_lem :
      (headers changed : Headers) (credentials : List CompiledCredential) (secrets : Assoc Bytes)
      (m : Bytes)
      → apply_header_credentials lib headers credentials secrets ≡ ok changed
      → Apart eq (enabled_names lib credentials)
      → get_all changed m ≡ replaced (wanted lib headers secrets credentials m) (get_all headers m)
  unfolding apply_header_credentials
  apply_header_credentials_lem headers changed credentials secrets m e a =
      elim (Result-cases (collect_values lib headers secrets credentials)) [
        | inr (bad, ec) ↦ absurd (ground arith)
        | inl (values, ec) ↦
            let r = collect_values-Collected headers secrets credentials values ec a in
            let done : set_headers lib headers values ≡ changed = ground arith in
            rw (← done) (
              get_all-set_headers headers values m r.apart
              ∙ ap (λ o. replaced o (get_all headers m)) (r.lookup m))
      ]
