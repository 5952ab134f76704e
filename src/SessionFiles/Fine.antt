-- ===== src/SessionFiles/Fine.antt =====
-- What every composition of session files (src/control/file_config.rs) keeps, and that merging a file
-- keeps it.
use baffle.Prelude.{
  ◌+◌, ◌≤◌, ◌≡◌, refl, sym, ap, ◌∙◌, true, false, Option, none, some, List, [], ◌∷◌, ◌++◌, Result,
  ok, bind-eq-ok, fail_if-eq-ok, ok-injective, Bool, ◌||◌, subst,
}
use baffle.Prelude.Text.{Bytes, any, eq, length}
use baffle.Prelude.Assoc.{Assoc, get, insert}
use baffle.Prelude.Apart.{Apart, Apart-snoc}
use baffle.Prelude.Sizes.{member, Distinct}
use baffle.Policy.Types.{CredentialMode, UnmatchedHostPolicy, HostRule, SessionConfig, deny}
use baffle.Policy.Names.{validate_session_config_name}
use baffle.Policy.Rules.Valid.{AllValid, hosts_of, IsValidRule}
use baffle.SessionFiles.Merge.{
  Stop, Composition, unwrap_or, set_unmatched, set_credential_default, merge_modes, merge_rules,
  finish_root, merge_policy, conflicts, same_unmatched, same_mode,
}

-- Every name passes the check of session file names.
abbrev pub AllNamed : List Bytes → Type 0
AllNamed [] = Unit {0}
AllNamed (name ∷ names) = (validate_session_config_name name ≡ ok tt) × AllNamed names

-- The rules are valid and for distinct hosts, the files read are at most 128 different ones, counting
-- those that are being read, and all have accepted names.
pub record Fine (stack loaded hosts : List Bytes) (rules : List HostRule) : Type 0 where
  pub same_hosts : hosts ≡ hosts_of rules
  pub apart : Apart eq hosts
  pub valid : AllValid rules
  pub named : AllNamed loaded
  pub distinct : Distinct loaded
  pub bound : length stack + length loaded ≤ 128

abbrev pub FineAt : Composition → Type 0
FineAt c = Fine c.stack c.loaded c.hosts c.rules

-- A step that ended keeps it, and the stack.
abbrev pub Kept : Composition → Composition → Type 0
Kept c c' = FineAt c' × (c'.stack ≡ c.stack)

pub kept_same :
    (c d c' : Composition) → Kept c d → ◌≡◌ {A = Result Stop Composition} (ok d) (ok c') → Kept c c'
kept_same c d c' kept e = subst (Kept c) (ok-injective e) kept

pub Kept-trans : (c d e : Composition) → Kept c d → Kept d e → Kept c e
Kept-trans c d e (fine, same) (fine', same') = (fine', same' ∙ same)

set_unmatched-Kept :
    (name : Bytes) (is_root explicit : Bool) (unmatched : UnmatchedHostPolicy) (c c' : Composition)
    → set_unmatched name is_root explicit unmatched c ≡ ok c'
    → FineAt c
    → Kept c c'
unfolding set_unmatched
set_unmatched-Kept name is_root false unmatched c c' e fine = kept_same c c c' (fine, refl) e
set_unmatched-Kept name true true unmatched c c' e fine =
    let (_, e1) = fail_if-eq-ok (conflicts same_unmatched c.root_unmatched unmatched) _ _ e in
    kept_same c (record c { root_unmatched = some unmatched }) c' (fine, refl) e1
set_unmatched-Kept name false true unmatched c c' e fine =
    let (_, e1) = fail_if-eq-ok (conflicts same_unmatched c.imported_unmatched unmatched) _ _ e in
    kept_same c (record c { imported_unmatched = some unmatched }) c' (fine, refl) e1

set_credential_default-Kept :
    (name : Bytes) (is_root : Bool) (mode : Option CredentialMode) (c c' : Composition)
    → set_credential_default name is_root mode c ≡ ok c'
    → FineAt c
    → Kept c c'
unfolding set_credential_default
set_credential_default-Kept name is_root none c c' e fine = kept_same c c c' (fine, refl) e
set_credential_default-Kept name true (some mode) c c' e fine =
    let (_, e1) = fail_if-eq-ok (conflicts same_mode c.root_credential_default mode) _ _ e in
    kept_same c (record c { root_credential_default = some mode }) c' (fine, refl) e1
set_credential_default-Kept name false (some mode) c c' e fine =
    let (_, e1) = fail_if-eq-ok (conflicts same_mode c.imported_credential_default mode) _ _ e in
    kept_same c (record c { imported_credential_default = some mode }) c' (fine, refl) e1

merge_modes-Kept :
    (modes : Assoc CredentialMode) (c c' : Composition)
    → merge_modes modes c ≡ ok c'
    → FineAt c
    → Kept c c'
unfolding merge_modes
merge_modes-Kept [] c c' e fine = kept_same c c c' (fine, refl) e
merge_modes-Kept ((secret, mode) ∷ rest) c c' e fine =
    let (_, e1) = fail_if-eq-ok (conflicts same_mode (get secret c.credential_modes) mode) _ _ e in
    merge_modes-Kept rest (record c { credential_modes = insert secret mode c.credential_modes }) c'
      e1 fine

finish_root-Kept :
    (is_root : Bool) (policy : SessionConfig) (c c' : Composition)
    → finish_root is_root policy c ≡ ok c'
    → FineAt c
    → Kept c c'
unfolding finish_root
finish_root-Kept false policy c c' e fine = kept_same c c c' (fine, refl) e
finish_root-Kept true policy c c' e fine =
    let (_, e1) =
      fail_if-eq-ok
        (conflicts same_unmatched c.imported_unmatched (unwrap_or deny c.root_unmatched)) _ _ e in
    let (_, e2) =
      fail_if-eq-ok
        (conflicts same_mode c.imported_credential_default
          (unwrap_or CredentialMode.inject c.root_credential_default))
        _ _ e1 in
    kept_same c _ c' (fine, refl) e2

-- The rules.

member-any : (k : Bytes) (ps : List Bytes) → member k ps ≡ any (λ p. eq p k) ps
unfolding any
member-any k [] = refl
member-any k (p ∷ ps) = ap (λ b. eq p k || b) (member-any k ps)

AllValid-snoc :
    (rules : List HostRule) (rule : HostRule)
    → AllValid rules
    → IsValidRule rule
    → AllValid (rules ++ rule ∷ [])
AllValid-snoc [] rule h v = (v, tt)
AllValid-snoc (r ∷ rules) rule h v = (h.0, AllValid-snoc rules rule h.1 v)

hosts_of-snoc :
    (rules : List HostRule) (rule : HostRule)
    → hosts_of (rules ++ rule ∷ []) ≡ hosts_of rules ++ rule.host ∷ []
hosts_of-snoc [] rule = refl
hosts_of-snoc (r ∷ rules) rule = ap (◌∷◌ r.host) (hosts_of-snoc rules rule)

merge_rules-Kept :
    (rules : List HostRule) (c c' : Composition)
    → merge_rules rules c ≡ ok c'
    → AllValid rules
    → FineAt c
    → Kept c c'
unfolding merge_rules
merge_rules-Kept [] c c' e valid fine = kept_same c c c' (fine, refl) e
merge_rules-Kept (rule ∷ rest) c c' e valid fine =
    let (fresh, e1) = fail_if-eq-ok (member rule.host c.hosts) _ _ e in
    let next : Composition = record c {
      hosts = c.hosts ++ rule.host ∷ [];
      rules = c.rules ++ rule ∷ [];
    } in
    let fine_next : FineAt next = record {
      same_hosts =
          ap (λ hosts. hosts ++ rule.host ∷ []) fine.same_hosts ∙ sym (hosts_of-snoc c.rules rule);
      apart =
          Apart-snoc eq c.hosts rule.host fine.apart (sym (member-any rule.host c.hosts) ∙ fresh);
      valid = AllValid-snoc c.rules rule fine.valid valid.0;
      named = fine.named;
      distinct = fine.distinct;
      bound = fine.bound;
    } in
    merge_rules-Kept rest next c' e1 valid.1 fine_next

pub merge_policy-Kept :
    (name : Bytes) (is_root explicit : Bool) (policy : SessionConfig) (c c' : Composition)
    → merge_policy name is_root explicit policy c ≡ ok c'
    → AllValid policy.rules
    → FineAt c
    → Kept c c'
unfolding merge_policy
merge_policy-Kept name is_root explicit policy c c' e valid fine =
    let (c1, e1, r1) = bind-eq-ok (set_unmatched name is_root explicit policy.unmatched c) _ e in
    let (c2, e2, r2) =
      bind-eq-ok (set_credential_default name is_root policy.default_credential_mode c1) _ r1 in
    let (c3, e3, r3) = bind-eq-ok (merge_modes policy.credential_modes c2) _ r2 in
    let (c4, e4, r4) = bind-eq-ok (merge_rules policy.rules c3) _ r3 in
    let k1 = set_unmatched-Kept name is_root explicit policy.unmatched c c1 e1 fine in
    let k2 =
      set_credential_default-Kept name is_root policy.default_credential_mode c1 c2 e2 k1.0 in
    let k3 = merge_modes-Kept policy.credential_modes c2 c3 e3 k2.0 in
    let k4 = merge_rules-Kept policy.rules c3 c4 e4 valid k3.0 in
    let k5 = finish_root-Kept is_root policy c4 c' r4 k4.0 in
    (k5.0, k5.1 ∙ k4.1 ∙ k3.1 ∙ k2.1 ∙ k1.1)
