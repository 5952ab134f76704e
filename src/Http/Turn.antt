-- ===== src/Http/Turn.antt =====
-- One turn of the loop of `apply_header_credentials` over the credentials, and the value that a
-- header is to have.
use baffle.Prelude.{
  ◌≡◌, refl, ◌∙◌, inl, inr, true, false, Option, none, some, List, [], ◌∷◌, if◌then◌else◌, map,
  Result, ok, err, arith, Option-cases, Result-cases, Bool-cases,
}
use baffle.Prelude.Text.{Bytes, eq, eq→≡, eq_refl, any}
use baffle.Prelude.Assoc.{Assoc, get}
use baffle.Policy.Types.{is_disabled}
use baffle.Authorization.{CompiledCredential}
use baffle.Http.{HttpLibrary, credential_value, push_value, collect_values}

abbrev pub names : List (Bytes × Bytes) → List Bytes
names = map (λ (entry : Bytes × Bytes). entry.0)

module _ (lib : HttpLibrary) where
  open lib use {
    Headers, header_name, header_value, get_all, remove, insert, get_all-remove, get_all-insert,
  }

  -- The header names of the enabled credentials.
  abbrev pub enabled_names : List CompiledCredential → List Bytes
  enabled_names [] = []
  enabled_names (c ∷ rest) =
      if is_disabled c.mode then enabled_names rest else elim (header_name c.injection.header) [
        | none ↦ enabled_names rest
        | some name ↦ name ∷ enabled_names rest
      ]

  -- The new value of one credential, from the request as it came.
  abbrev pub new_value : Headers → Assoc Bytes → CompiledCredential → Option Bytes
  new_value headers secrets c = elim (get c.injection.secret secrets) [
    | none ↦ none
    | some secret ↦ elim (credential_value lib headers c secret) [
      | err e ↦ none
      | ok none ↦ none
      | ok (some text) ↦ header_value text
    ]
  ]

  -- The new value of a header: that of the enabled credential which names it.
  abbrev pub wanted : Headers → Assoc Bytes → List CompiledCredential → Bytes → Option Bytes
  wanted headers secrets [] m = none
  wanted headers secrets (c ∷ rest) m =
      if is_disabled c.mode
      then wanted headers secrets rest m
      else elim (header_name c.injection.header) [
        | none ↦ wanted headers secrets rest m
        | some name ↦
            if eq name m then new_value headers secrets c else wanted headers secrets rest m
      ]

  -- One turn of the loop over the credentials.
  pub data Turn (headers : Headers) (secrets : Assoc Bytes) (c : CompiledCredential)
      (later : Result (Unit {0}) (List (Bytes × Bytes))) (values : List (Bytes × Bytes))
      : Type 0 where
    skipped : is_disabled c.mode ≡ true → later ≡ ok values → Turn headers secrets c later values
    kept :
        (name : Bytes)
        → is_disabled c.mode ≡ false
        → header_name c.injection.header ≡ some name
        → new_value headers secrets c ≡ none
        → later ≡ ok values
        → Turn headers secrets c later values
    set :
        (name value : Bytes) (rest : List (Bytes × Bytes))
        → is_disabled c.mode ≡ false
        → header_name c.injection.header ≡ some name
        → new_value headers secrets c ≡ some value
        → later ≡ ok rest
        → values ≡ (name, value) ∷ rest
        → Turn headers secrets c later values

  push_value-Turn :
      (headers : Headers) (secrets : Assoc Bytes) (c : CompiledCredential) (name secret : Bytes)
      (value : Option Bytes) (later values : List (Bytes × Bytes))
      (result : Result (Unit {0}) (List (Bytes × Bytes)))
      → is_disabled c.mode ≡ false
      → header_name c.injection.header ≡ some name
      → get c.injection.secret secrets ≡ some secret
      → credential_value lib headers c secret ≡ ok value
      → result ≡ ok later
      → push_value lib name value later ≡ ok values
      → Turn headers secrets c result values
  push_value-Turn headers secrets c name secret none later values result en nm es ev el p =
      kept name en nm (ground arith) (el ∙ p)
  push_value-Turn headers secrets c name secret (some text) later values result en nm es ev el p =
      elim (Option-cases (header_value text)) [
        | inl bad ↦ absurd (ground arith)
        | inr (value, ht) ↦ set name value later en nm (ground arith) el (ground arith)
      ]

  pub collect_values-Turn :
      (headers : Headers) (secrets : Assoc Bytes) (c : CompiledCredential)
      (rest : List CompiledCredential) (values : List (Bytes × Bytes))
      → collect_values lib headers secrets (c ∷ rest) ≡ ok values
      → Turn headers secrets c (collect_values lib headers secrets rest) values
  unfolding collect_values
  collect_values-Turn headers secrets c rest values e = elim (Bool-cases (is_disabled c.mode)) [
    | inl off ↦ skipped off (ground arith)
    | inr enabled ↦ elim (Option-cases (header_name c.injection.header)) [
      | inl bad ↦ absurd (ground arith)
      | inr (name, en) ↦ elim (Option-cases (get c.injection.secret secrets)) [
        | inl bad ↦ absurd (ground arith)
        | inr (secret, es) ↦ elim (Result-cases (credential_value lib headers c secret)) [
          | inr (bad, ev) ↦ absurd (ground arith)
          | inl (value, ev) ↦ elim (Result-cases (collect_values lib headers secrets rest)) [
            | inr (bad, el) ↦ absurd (ground arith)
            | inl (later, el) ↦
                push_value-Turn headers secrets c name secret value later values
                  (collect_values lib headers secrets rest) enabled en es ev el (ground arith)
          ]
        ]
      ]
    ]
  ]

  pub wanted-absent :
      (headers : Headers) (secrets : Assoc Bytes) (credentials : List CompiledCredential)
      (m : Bytes)
      → any (λ n. eq m n) (enabled_names credentials) ≡ false
      → wanted headers secrets credentials m ≡ none
  unfolding any
  wanted-absent headers secrets [] m h = refl
  wanted-absent headers secrets (c ∷ rest) m h = elim (Bool-cases (is_disabled c.mode)) [
    | inl off ↦ ground (arith, wanted-absent headers secrets rest m)
    | inr enabled ↦ elim (Option-cases (header_name c.injection.header)) [
      | inl bad ↦ ground (arith, wanted-absent headers secrets rest m)
      | inr (name, en) ↦
          ground (arith, wanted-absent headers secrets rest m, eq→≡ name m, eq_refl m)
    ]
  ]

  module _ (c : CompiledCredential) (rest : List CompiledCredential) where
    pub enabled_names-off :
        is_disabled c.mode ≡ true → enabled_names (c ∷ rest) ≡ enabled_names rest
    enabled_names-off off = ground arith

    pub enabled_names-on :
        (name : Bytes)
        → is_disabled c.mode ≡ false
        → header_name c.injection.header ≡ some name
        → enabled_names (c ∷ rest) ≡ name ∷ enabled_names rest
    enabled_names-on name on en = ground arith

    pub wanted-off :
        (headers : Headers) (secrets : Assoc Bytes) (m : Bytes)
        → is_disabled c.mode ≡ true
        → wanted headers secrets (c ∷ rest) m ≡ wanted headers secrets rest m
    wanted-off headers secrets m off = ground arith

    pub wanted-on :
        (headers : Headers) (secrets : Assoc Bytes) (name m : Bytes)
        → is_disabled c.mode ≡ false
        → header_name c.injection.header ≡ some name
        → wanted headers secrets (c ∷ rest) m
          ≡ (if eq name m then new_value headers secrets c else wanted headers secrets rest m)
    wanted-on headers secrets name m on en = ground arith
