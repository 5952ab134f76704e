-- ===== src/Secrets/Entitled.antt =====
-- Which secrets a session of src/secrets.rs gets.
use baffle.Prelude.{
  ℕ, ◌≡◌, inl, inr, refl, sym, ap, ◌∙◌, true, false, not, none, some, List, [], ◌∷◌, ok, err, ◌>>=◌,
  ◌>>◌, ok_or, Bool-cases, bind-eq-ok, fail_if-eq-ok, ok-injective, arith, Bool, if◌then◌else◌,
  ◌&&◌, ◌||◌, subst, ||-eq-false,
}
use baffle.Prelude.Text.{eq→≡, Bytes, any, eq, is_empty, eq→≡}
use baffle.Prelude.Assoc.{Assoc, get, insert, get-insert}
use baffle.Prelude.Sizes.{member}
use baffle.Policy.Types.{
  HeaderInjection, HostRule, SessionConfig, effective_credential_mode, is_disabled,
}
use baffle.Secrets.{not_entitled, unavailable, validate_private_directory}
use baffle.Secrets.Resolve.{
  SecretFiles, add_requested, requested_of, read_secret, read_secrets, resolve, is_requested,
}

if_member :
    (test : Bool) (name : Bytes) (xs ys : List Bytes)
    → member name (if test then xs else ys) ≡ (if test then member name xs else member name ys)
if_member true name xs ys = refl
if_member false name xs ys = refl

-- One injection more, by whether its secret is the one asked for.
request_step :
    (disabled disabled' known known' same rest names : Bool)
    → (same ≡ true → (disabled ≡ disabled') × (known ≡ known'))
    → known' ≡ (rest && not disabled' || names)
    → (if disabled || known then known' else same || known')
      ≡ ((same || rest) && not disabled' || names)
request_step disabled disabled' known known' true rest names h e =
    let (d, k) = h refl in ground arith
request_step disabled disabled' known known' false rest names h e = ground arith

add_requested-member :
    (session : SessionConfig) (injections : List HeaderInjection) (names : List Bytes)
    (name : Bytes)
    → member name (add_requested session injections names) ≡ (
        any (λ injection. eq (HeaderInjection.secret injection) name) injections
          && not (is_disabled (effective_credential_mode session name))
        || member name names)
unfolding add_requested any
add_requested-member session [] names name = refl
add_requested-member session (injection ∷ rest) names name =
    let later = add_requested-member session rest names name in
    let others : List Bytes = add_requested session rest names in
    let disabled : Bytes → Bool =
      λ secret. is_disabled (effective_credential_mode session secret) in
    if_member (disabled injection.secret || member injection.secret others) name others
      (injection.secret ∷ others)
    ∙ request_step (disabled injection.secret) (disabled name) (member injection.secret others)
        (member name others) (eq injection.secret name)
        (any (λ injection. eq (HeaderInjection.secret injection) name) rest) (member name names)
        (λ same.
          let named : injection.secret ≡ name = eq→≡ injection.secret name same in
          (ap disabled named, ap (λ secret. member secret others) named))
        later

regroup_lem : (a b d m : Bool) → m ≡ (b && d) → (a && d || m) ≡ ((a || b) && d)
regroup_lem a b d m h = ground arith

requested_of-member :
    (session : SessionConfig) (rules : List HostRule) (name : Bytes)
    → member name (requested_of session rules) ≡ (
        any
          (λ rule.
            any
              (λ injection. eq (HeaderInjection.secret injection) name)
              (HostRule.injections rule))
          rules
        && not (is_disabled (effective_credential_mode session name)))
unfolding requested_of any
requested_of-member session [] name = refl
requested_of-member session (rule ∷ rules) name =
    let later = requested_of-member session rules name in
    let first = add_requested-member session rule.injections (requested_of session rules) name in
    first
    ∙ regroup_lem (any (λ injection. eq (HeaderInjection.secret injection) name) rule.injections)
        (any
          (λ rule.
            any (λ injection. eq (HeaderInjection.secret injection) name)
              (HostRule.injections rule))
          rules)
        (not (is_disabled (effective_credential_mode session name))) _ later

module _ (files : SecretFiles) (trusted_uid : ℕ) where
  read_secrets_lem :
      (names : List Bytes) (resolved out : Assoc Bytes) (name : Bytes)
      → read_secrets files trusted_uid names resolved ≡ ok out
      → (member name names ≡ true
          → (value : Bytes) × (read_secret files trusted_uid name ≡ ok value)
            × (get name out ≡ some value))
        × (member name names ≡ false → get name out ≡ get name resolved)
  unfolding read_secrets
  read_secrets_lem [] resolved out name e =
      (λ h. absurd (ground arith), λ h. ap (get name) (sym (ok-injective e)))
  read_secrets_lem (first ∷ rest) resolved out name e =
      let (value, ev, e1) = bind-eq-ok (read_secret files trusted_uid first) _ e in
      let (listed, unlisted) = read_secrets_lem rest (insert first value resolved) out name e1 in
      let inserted = get-insert first name value resolved in
      (
        λ h. elim (Bool-cases (member name rest)) [
          | inl later ↦ listed later
          | inr last ↦
              let same : first ≡ name = eq→≡ first name (ground arith) in
              let hit : eq first name ≡ true = ground arith in
              (
                value,
                subst (λ n. read_secret files trusted_uid n ≡ ok value) same ev,
                unlisted last ∙ inserted ∙ rw hit refl,
              )
        ],
        λ h.
            let (miss, last) = ||-eq-false (eq first name) (member name rest) h in
            unlisted last ∙ inserted ∙ rw miss refl,
      )

  resolved_lem :
      (names : List Bytes) (out : Assoc Bytes) (name : Bytes)
      → (if is_empty names
          then ok []
          else (ok_or (SecretFiles.directory_metadata files) unavailable >>= λ metadata.
              validate_private_directory metadata trusted_uid
              >> read_secrets files trusted_uid names []))
        ≡ ok out
      → (member name names ≡ true
          → (value : Bytes) × (read_secret files trusted_uid name ≡ ok value)
            × (get name out ≡ some value))
        × (member name names ≡ false → get name out ≡ none)
  unfolding get
  resolved_lem [] out name e =
      (λ h. absurd (ground arith), λ h. ap (get name) (sym (ok-injective e)))
  resolved_lem (first ∷ rest) out name e =
      let (metadata, em, e1) =
        bind-eq-ok (ok_or (SecretFiles.directory_metadata files) unavailable) _ e in
      let (u, ev, e2) = bind-eq-ok (validate_private_directory metadata trusted_uid) _ e1 in
      read_secrets_lem (first ∷ rest) [] out name e2

  module _ (allowed : List Bytes) (session : SessionConfig) where
    abbrev refused : Bytes → Bool
    refused name = not (member name allowed)

    any-member :
        (names : List Bytes) (name : Bytes)
        → member name names ≡ true
        → member name allowed ≡ false
        → any refused names ≡ true
    unfolding any
    any-member [] name h f = absurd (ground arith)
    any-member (first ∷ rest) name h f = elim (Bool-cases (eq first name)) [
      | inl same ↦
          let denied : member first allowed ≡ false = rw (eq→≡ first name same) f in ground arith
      | inr other ↦
          let later : any refused rest ≡ true = any-member rest name (ground arith) f in
          ground arith
    ]

    entitled_lem :
        (names : List Bytes) (name : Bytes)
        → any refused names ≡ false
        → member name names ≡ true
        → member name allowed ≡ true
    entitled_lem names name none_refused h = elim (Bool-cases (member name allowed)) [
      | inl there ↦ there
      | inr missing ↦ let some_refused = any-member names name h missing in absurd (ground arith)
    ]

    -- The secrets of a session that are not disabled are requested. If one of them is not allowed, the
    -- session is refused as not entitled, whatever the file system holds. If the secrets are resolved,
    -- each requested one is allowed and has the value of its file, and no other has a value.
    pub resolve_lem :
        (name : Bytes)
        → (is_requested session name ≡ true
            → member name allowed ≡ false
            → resolve files trusted_uid allowed session ≡ err not_entitled)
          × ((out : Assoc Bytes)
              → resolve files trusted_uid allowed session ≡ ok out
              → (is_requested session name ≡ true
                  → (member name allowed ≡ true)
                    × ((value : Bytes) × (read_secret files trusted_uid name ≡ ok value)
                        × (get name out ≡ some value)))
                × (is_requested session name ≡ false → get name out ≡ none))
    unfolding resolve
    resolve_lem name =
        let names : List Bytes = requested_of session session.rules in
        let asked = requested_of-member session session.rules name in
        (
          λ h f. rw (resolve, any-member names name (asked ∙ h) f) refl,
          λ out e.
              let (entitled, e1) = fail_if-eq-ok (any refused names) not_entitled _ e in
              let (listed, unlisted) = resolved_lem names out name e1 in
              (
                λ h. (entitled_lem names name entitled (asked ∙ h), listed (asked ∙ h)),
                λ h. unlisted (asked ∙ h),
              ),
        )
