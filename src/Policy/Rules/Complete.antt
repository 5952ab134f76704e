-- ===== src/Policy/Rules/Complete.antt =====
-- That the checks of a rule (crates/baffle-client/src/policy.rs) refuse no valid rule.
use mathlib.Core.List.{append_assoc, append-nil}
use baffle.Prelude.{
  ℕ, suc, ◌≡◌, refl, sym, ap, ◌∙◌, ◌↔◌, Bool, false, ◌&&◌, Option, none, some, List, [], ◌∷◌, ◌++◌,
  ◌==◌, ok, arith, subst,
}
use baffle.Prelude.Text.{Bytes, eq, any, to_ascii_lowercase, any-append}
use baffle.Prelude.Apart.{Apart}
use baffle.Policy.Types.{InjectionFormat, HeaderInjection, HostRule, is_tunnel}
use baffle.Policy.Pattern.{paths_overlap}
use baffle.Policy.Rules.{check_ports, check_paths, check_injections, check_username, validate_rule}
use baffle.Policy.Rules.Entries.{AreCanonical, AreGoodInjections, HasUsername}
use baffle.Policy.Rules.Valid.{IsValidRule, same_port, header_names, validate_rule-IsValidRule}

Apart-middle :
    {A : Type 0} (r : A → A → Bool) (xs : List A) (x : A) (ys : List A)
    → Apart r (xs ++ (x ∷ ys))
    → any (λ e. r e x) xs ≡ false
unfolding any
Apart-middle r [] x ys h = refl
Apart-middle r (e ∷ xs) x ys h =
    ground (arith, any-append (λ y. r e y) xs (x ∷ ys), h.0, Apart-middle r xs x ys h.1)

ungroup {ℓ} :
    {A : Type 0} (P : List A → Type ℓ) (xs : List A) (x : A) (ys : List A)
    → P (xs ++ (x ∷ ys))
    → P ((xs ++ x ∷ []) ++ ys)
ungroup P xs x ys h = subst P (sym (append_assoc xs (x ∷ []) ys)) h

check_ports_complete :
    (seen ports : List ℕ)
    → Apart same_port (seen ++ ports)
    → any (λ p. p == 0) ports ≡ false
    → check_ports seen ports ≡ ok tt
unfolding check_ports any
check_ports_complete seen [] apart positive = refl
check_ports_complete seen (port ∷ rest) apart positive =
    let nonzero : (port == 0) ≡ false = ground arith in
    rw (check_ports, nonzero, Apart-middle same_port seen port rest apart)
      (check_ports_complete (seen ++ port ∷ []) rest
        (ungroup (Apart same_port) seen port rest apart) (ground arith))

check_paths_complete :
    (index : ℕ) (paths rest : List Bytes)
    → Apart paths_overlap (paths ++ rest)
    → AreCanonical rest
    → check_paths index paths rest ≡ ok (paths ++ rest)
unfolding check_paths
check_paths_complete index paths [] apart canonical = rw append-nil refl
check_paths_complete index paths (path ∷ rest) apart canonical =
    rw (check_paths, canonical.0, Apart-middle paths_overlap paths path rest apart)
      (check_paths_complete (suc index) (paths ++ path ∷ []) rest
          (ungroup (Apart paths_overlap) paths path rest apart) canonical.1
        ∙ ap ok (append_assoc paths (path ∷ []) rest))

check_username_complete :
    (index : ℕ) (format : InjectionFormat) (username : Option Bytes)
    → HasUsername format username
    → check_username index format username ≡ ok tt
unfolding check_username
check_username_complete index InjectionFormat.basic_password none h = absurd h
check_username_complete index InjectionFormat.basic_password (some username) h =
    rw (check_username, h) refl
check_username_complete index InjectionFormat.raw none h = refl
check_username_complete index InjectionFormat.raw (some username) h = absurd h
check_username_complete index InjectionFormat.bearer none h = refl
check_username_complete index InjectionFormat.bearer (some username) h = absurd h

check_injections_complete :
    (index : ℕ) (headers : List Bytes) (injections : List HeaderInjection)
    → Apart eq (headers ++ header_names injections)
    → AreGoodInjections injections
    → check_injections index headers injections ≡ ok injections
unfolding check_injections
check_injections_complete index headers [] apart good = refl
check_injections_complete index headers (injection ∷ rest) apart good =
    let name = to_ascii_lowercase injection.header in
    let later =
      check_injections_complete (suc index) (headers ++ name ∷ []) rest
        (ungroup (Apart eq) headers name (header_names rest) apart) good.1 in
    rw
      (
        check_injections,
        good.0.0,
        Apart-middle eq headers name (header_names rest) apart,
        good.0.1,
        check_username_complete index injection.format injection.username good.0.2,
        later,
      )
      refl

validate_rule_complete :
    (rule : HostRule) (features : Bool)
    → IsValidRule rule
    → (is_tunnel rule.mode && features) ≡ false
    → validate_rule rule features ≡ ok rule
unfolding validate_rule
validate_rule_complete rule features v plain =
    rw
      (
        validate_rule,
        v.some_port,
        check_ports_complete [] rule.ports v.good_ports.0 v.good_ports.1,
        plain,
        check_paths_complete 0 [] rule.paths v.separate_paths v.canonical_paths,
        check_injections_complete 0 [] rule.injections v.separate_headers v.good_injections,
      )
      refl

plain_lem :
    (rule : HostRule) (features : Bool)
    → validate_rule rule features ≡ ok rule
    → (is_tunnel rule.mode && features) ≡ false
unfolding validate_rule
plain_lem rule features e = ground arith

-- If a rule without interception features has neither paths nor injections, the validation of rules
-- accepts a rule as it is exactly if it is no tunnel rule with interception features and is valid:
-- it has ports, distinct and not 0; no paths and injections as a tunnel; canonical path patterns
-- that do not overlap; and injections into distinct headers that may be set, of secrets with valid
-- identifiers, and with a valid user name exactly for basic authentication.
pub validate_rule_iff :
    (rule : HostRule) (features : Bool)
    → (features ≡ false → (rule.paths ≡ []) × (rule.injections ≡ []))
    → (validate_rule rule features ≡ ok rule)
      ↔ (IsValidRule rule × ((is_tunnel rule.mode && features) ≡ false))
validate_rule_iff rule features bare = (
  λ e. ((validate_rule-IsValidRule rule features bare e).0, plain_lem rule features e),
  λ v. validate_rule_complete rule features v.0 v.1,
)
