-- ===== src/Authorization/Compile.antt =====
-- The rules of a session in its compiled policy.
use baffle.Prelude.{
  some-injective, ◌≡◌, refl, sym, ap, ap₂, ◌∙◌, ◌⊎◌, ◌↔◌, inl, inr, true, false, Option, none, some,
  List, [], ◌∷◌, ◌==◌, if◌then◌else◌, arith, Bool-cases, Option-cases, subst,
}
use baffle.Prelude.Text.{Bytes, eq, eq→≡, eq_refl, any}
use baffle.Prelude.Assoc.{Assoc, get, insert, get-insert}
use baffle.Prelude.Apart.{Apart}
use baffle.Credentials.{Crypto, derive_fake_credential}
use baffle.Policy.Types.{
  CredentialMode, HeaderInjection, HostRule, SessionConfig, effective_credential_mode,
  is_substitute,
}
use baffle.Policy.Rules.Valid.{hosts_of}
use baffle.Authorization.{
  Destination, CompiledRule, CompiledCredential, compile_rule, compile_credential,
  compile_credentials, collect_rules, compile, rule_for,
}
use baffle.Authorization.Forwards.{rule_for-found, found-rule_for}
use baffle.Authorization.Listed.{
  find_rule, nothing_found, Listed, Listed-find_rule, find_rule-Listed, find_rule,
}

-- A fake value where a mode is to substitute.
fake_cases :
    (mode : CredentialMode) (fake : Bytes)
    → ((mode ≡ CredentialMode.substitute)
        × ((if is_substitute mode then some fake else none) ≡ some fake))
      ⊎ ((is_substitute mode ≡ false) × ((if is_substitute mode then some fake else none) ≡ none))
fake_cases CredentialMode.substitute fake = inl (refl, refl)
fake_cases CredentialMode.inject fake = inr (refl, refl)
fake_cases CredentialMode.disabled fake = inr (refl, refl)

fake_unique :
    (mode : CredentialMode) (fake : Bytes) (value : Option Bytes)
    → ((mode ≡ CredentialMode.substitute) × (value ≡ some fake))
      ⊎ ((is_substitute mode ≡ false) × (value ≡ none))
    → (if is_substitute mode then some fake else none) ≡ value
fake_unique mode fake value (inl (is, same)) = rw is (sym same)
fake_unique mode fake value (inr (other, same)) = rw other (sym same)

module _ (crypto : Crypto) (seed : Bytes) (session : SessionConfig) where
  abbrev compiled : Option HostRule → Option CompiledRule → Option CompiledRule
  compiled none earlier = earlier
  compiled (some rule) earlier = some (compile_rule crypto seed session rule)

  find_rule-none :
      (host : Bytes) (rules : List HostRule)
      → any (λ h. eq host h) (hosts_of rules) ≡ false
      → find_rule host rules ≡ none
  unfolding find_rule any
  find_rule-none host [] h = refl
  find_rule-none host (rule ∷ rest) h =
      ground (arith, find_rule-none host rest, eq→≡ rule.host host, eq_refl host)

  get-collect_rules :
      (host : Bytes) (m : Assoc CompiledRule) (rules : List HostRule)
      → Apart eq (hosts_of rules)
      → get host (collect_rules crypto seed session m rules)
        ≡ compiled (find_rule host rules) (get host m)
  unfolding collect_rules find_rule
  get-collect_rules host m [] a = refl
  get-collect_rules host m (rule ∷ rest) a =
      rw
        (get-collect_rules host (insert rule.host (compile_rule crypto seed session rule) m) rest
          a.1)
        (elim (Bool-cases (eq rule.host host)) [
          | inl same ↦ rw (
            same,
            find_rule-none host rest (rw (← eq→≡ rule.host host same) a.0),
            get-insert rule.host host (compile_rule crypto seed session rule) m,
            same,
          )
          | inr differ ↦
              rw (
                differ,
                get-insert rule.host host (compile_rule crypto seed session rule) m,
                differ,
              )
        ])

  get-compile :
      (host : Bytes)
      → Apart eq (hosts_of session.rules)
      → get host (compile crypto seed session).rules ≡ compiled (find_rule host session.rules) none
  unfolding compile
  get-compile host a =
      get-collect_rules host [] session.rules a
      ∙ ap (compiled (find_rule host session.rules)) (unfold get in refl)

  -- A compiled credential: the injection with its secret's effective mode, and the fake value of the
  -- secret where, and only where, that mode is to substitute.
  abbrev pub IsCredential : HeaderInjection → CompiledCredential → Type 0
  IsCredential injection credential =
      (credential.injection ≡ injection)
      × (credential.mode ≡ effective_credential_mode session injection.secret)
      × (((credential.mode ≡ CredentialMode.substitute)
            × (credential.fake_value ≡ some (derive_fake_credential crypto seed injection.secret)))
          ⊎ ((is_substitute credential.mode ≡ false) × (credential.fake_value ≡ none)))

  abbrev pub AreCredentials : List HeaderInjection → List CompiledCredential → Type 0
  AreCredentials [] [] = Unit {0}
  AreCredentials [] (credential ∷ credentials) = ⊥
  AreCredentials (injection ∷ injections) [] = ⊥
  AreCredentials (injection ∷ injections) (credential ∷ credentials) =
      IsCredential injection credential × AreCredentials injections credentials

  -- A compiled rule, field by field.
  abbrev pub IsCompiled : HostRule → CompiledRule → Type 0
  IsCompiled rule result =
      (result.mode ≡ rule.mode)
      × (result.ports ≡ rule.ports)
      × (result.paths ≡ rule.paths)
      × AreCredentials rule.injections result.credentials

  compile_credential-IsCredential :
      (injection : HeaderInjection)
      → IsCredential injection (compile_credential crypto seed session injection)
  unfolding compile_credential
  compile_credential-IsCredential injection =
      (refl, refl, fake_cases (effective_credential_mode session injection.secret) _)

  IsCredential-compile_credential :
      (injection : HeaderInjection) (credential : CompiledCredential)
      → IsCredential injection credential
      → compile_credential crypto seed session injection ≡ credential
  unfolding compile_credential
  IsCredential-compile_credential injection credential (same, mode, fake) =
      let value = fake_unique credential.mode _ credential.fake_value fake in
      λ i. record {
        injection = sym same i;
        mode = sym mode i;
        fake_value =
            (ap
                  (λ m.
                    if is_substitute m
                    then some (derive_fake_credential crypto seed injection.secret)
                    else none)
                  (sym mode)
                ∙ value)
              i;
      }

  compile_credentials-AreCredentials :
      (injections : List HeaderInjection)
      → AreCredentials injections (compile_credentials crypto seed session injections)
  compile_credentials-AreCredentials [] = tt
  compile_credentials-AreCredentials (injection ∷ rest) =
      (compile_credential-IsCredential injection, compile_credentials-AreCredentials rest)

  AreCredentials-compile_credentials :
      (injections : List HeaderInjection) (credentials : List CompiledCredential)
      → AreCredentials injections credentials
      → compile_credentials crypto seed session injections ≡ credentials
  AreCredentials-compile_credentials [] [] h = refl
  AreCredentials-compile_credentials [] (c ∷ credentials) h = absurd h
  AreCredentials-compile_credentials (injection ∷ rest) [] h = absurd h
  AreCredentials-compile_credentials (injection ∷ rest) (c ∷ credentials) h =
      ap₂ ◌∷◌ (IsCredential-compile_credential injection c h.0)
        (AreCredentials-compile_credentials rest credentials h.1)

  compile_rule-IsCompiled :
      (rule : HostRule) → IsCompiled rule (compile_rule crypto seed session rule)
  unfolding compile_rule
  compile_rule-IsCompiled rule =
      (refl, refl, refl, compile_credentials-AreCredentials rule.injections)

  IsCompiled-compile_rule :
      (rule : HostRule) (result : CompiledRule)
      → IsCompiled rule result
      → compile_rule crypto seed session rule ≡ result
  unfolding compile_rule
  IsCompiled-compile_rule rule result (mode, ports, paths, credentials) =
      let same =
        AreCredentials-compile_credentials rule.injections result.credentials credentials in
      λ i. record {
        mode = sym mode i;
        ports = sym ports i;
        paths = sym paths i;
        credentials = same i;
      }

  -- If no two rules of the session have the same host, the compiled policy finds a rule for a
  -- destination exactly if the session lists a rule for its host and port, and what it finds has that
  -- rule's mode, ports and paths, and for each of its injections a credential with that injection, the
  -- effective mode of its secret, and the fake value of the secret only where that is substituted.
  pub compile_iff :
      (d : Destination) (result : CompiledRule)
      → Apart eq (hosts_of session.rules)
      → (rule_for (compile crypto seed session) d ≡ some result) ↔ (
          (rule : HostRule) × Listed rule session.rules
          × (rule.host ≡ d.host)
          × (any (λ p. p == d.port) rule.ports ≡ true)
          × IsCompiled rule result)
  compile_iff d result a = (
    λ e.
        let (entry, listed) = rule_for-found (compile crypto seed session) d result e in
        elim (Option-cases (find_rule d.host session.rules)) [
          | inl absent ↦ absurd (
              nothing_found (sym (get-compile d.host a ∙ ap (λ o. compiled o none) absent) ∙ entry))
          | inr (rule, found) ↦
              let same : compile_rule crypto seed session rule ≡ result =
                some-injective
                  (sym (get-compile d.host a ∙ ap (λ o. compiled o none) found) ∙ entry) in
              let known : IsCompiled rule result =
                subst (IsCompiled rule) same (compile_rule-IsCompiled rule) in
              let (there, named) = find_rule-Listed d.host session.rules rule found in
              (
                rule,
                there,
                eq→≡ rule.host d.host named,
                subst (λ ports. any (λ p. p == d.port) ports ≡ true) known.1 listed,
                known,
              )
        ],
    λ (rule, there, named, listed, known).
        let found =
          Listed-find_rule d.host session.rules rule a there
            (subst (λ h. eq rule.host h ≡ true) named (eq_refl rule.host)) in
        found-rule_for (compile crypto seed session) d result
          (get-compile d.host a
            ∙ ap (λ o. compiled o none) found
            ∙ ap some (IsCompiled-compile_rule rule result known))
          (subst (λ ports. any (λ p. p == d.port) ports ≡ true) (sym known.1) listed),
  )
