-- ===== src/Policy/Rules/Valid.antt =====
-- What a validated rule and a validated list of rules promise.
use baffle.Prelude.{
  ap, ℕ, suc, ◌≤◌, ◌≡◌, refl, sym, ◌∙◌, Bool, true, false, ◌&&◌, List, [], ◌∷◌, ◌++◌, ◌==◌, ok,
  map_err, arith, subst, bind-eq-ok, fail_if-eq-ok, map_err-eq-ok, map, ok-injective,
}
use mathlib.Core.List.{append_assoc, append-nil}
use baffle.Prelude.Text.{Bytes, eq, any, is_empty, to_ascii_lowercase, any-append}
use baffle.Prelude.Apart.{Apart, Apart-snoc, Apart-count, count}
use baffle.Policy.Types.{RuleMode, HeaderInjection, HostRule, is_tunnel}
use baffle.Policy.Pattern.{validate_path, paths_overlap, matches_path_pattern}
use baffle.Policy.Pattern.Overlap.{paths_overlap_iff}
use baffle.Policy.Dns.{ParsedHost, normalize_dns_name}
use baffle.Policy.Names.{validate_header, validate_secret_id}
use baffle.Policy.Rules.Entries.{
  AreCanonical, AreGoodInjections, check_paths-AreCanonical, check_injections-AreGood,
}
use baffle.Policy.Rules.{
  ports_empty, port_zero, port_duplicate, path_overlap, tunnel_features, path_invalid, RawNamedRule,
  check_ports, check_paths, check_injections, validate_rule, check_rules, to_rule, has_features,
  validate_named_rules, header_invalid, header_duplicate, secret_invalid, check_username,
  host_invalid, host_duplicate, rule_invalid,
}

abbrev pub same_port : ℕ → ℕ → Bool
same_port a b = a == b

abbrev pub header_names : List HeaderInjection → List Bytes
header_names = map (λ injection. to_ascii_lowercase injection.header)

abbrev pub hosts_of : List HostRule → List Bytes
hosts_of = map (λ rule. rule.host)

regroup {ℓ} :
    {A : Type 0} (P : List A → Type ℓ) (xs : List A) (x : A) (ys : List A)
    → P ((xs ++ x ∷ []) ++ ys)
    → P (xs ++ (x ∷ ys))
regroup P xs x ys h = subst P (append_assoc xs (x ∷ []) ys) h

-- Distinct ports, none of them 0.
abbrev pub GoodPorts : List ℕ → Type 0
GoodPorts ports = Apart same_port ports × (any (λ p. p == 0) ports ≡ false)

check_ports-GoodPorts :
    (seen ports : List ℕ)
    → check_ports seen ports ≡ ok tt
    → GoodPorts seen
    → GoodPorts (seen ++ ports)
unfolding check_ports
check_ports-GoodPorts seen [] e good = rw append-nil good
check_ports-GoodPorts seen (port ∷ rest) e good =
    let (nz, e1) = fail_if-eq-ok (port == 0) port_zero _ e in
    let (fresh, e2) = fail_if-eq-ok (any (λ p. p == port) seen) port_duplicate _ e1 in
    regroup GoodPorts seen port rest (
      check_ports-GoodPorts (seen ++ port ∷ []) rest e2 (
        Apart-snoc same_port seen port good.0 fresh,
        unfold any in ground (arith, any-append (λ (p : ℕ). p == 0) seen (port ∷ [])),
      ))

check_paths-Apart :
    (index : ℕ) (paths raw : List Bytes) {out : List Bytes}
    → check_paths index paths raw ≡ ok out
    → Apart paths_overlap paths
    → Apart paths_overlap out
unfolding check_paths
check_paths-Apart index paths [] e a = subst (Apart paths_overlap) (ok-injective e) a
check_paths-Apart index paths (raw ∷ rest) e a =
    let (path, ep, e1) = bind-eq-ok (map_err (path_invalid index) (validate_path raw)) _ e in
    let (fresh, e2) = fail_if-eq-ok (any (λ x. paths_overlap x path) paths) path_overlap _ e1 in
    check_paths-Apart (suc index) (paths ++ path ∷ []) rest e2
      (Apart-snoc paths_overlap paths path a fresh)

check_paths-nil : (index : ℕ) {out : List Bytes} → check_paths index [] [] ≡ ok out → out ≡ []
unfolding check_paths
check_paths-nil index e = sym (ok-injective e)

check_injections-nil :
    (index : ℕ) (headers : List Bytes) {out : List HeaderInjection}
    → check_injections index headers [] ≡ ok out
    → out ≡ []
unfolding check_injections
check_injections-nil index headers e = sym (ok-injective e)

check_injections-Apart :
    (index : ℕ) (headers : List Bytes) (raw out : List HeaderInjection)
    → check_injections index headers raw ≡ ok out
    → Apart eq headers
    → Apart eq (headers ++ header_names out)
unfolding check_injections
check_injections-Apart index headers [] out e a = rw (sym (ok-injective e)) (rw append-nil a)
check_injections-Apart index headers (injection ∷ rest) out e a =
    let (header, eh, e1) =
      bind-eq-ok (map_err (header_invalid index) (validate_header injection.header)) _ e in
    let (fresh, e2) =
      fail_if-eq-ok (any (λ h. eq h (to_ascii_lowercase header)) headers) (header_duplicate index) _
        e1 in
    let (_, es, e3) =
      bind-eq-ok (map_err (secret_invalid index) (validate_secret_id injection.secret)) _ e2 in
    let (_, eu, e4) = bind-eq-ok (check_username index injection.format injection.username) _ e3 in
    let name = to_ascii_lowercase header in
    let (checked, er, e5) =
      bind-eq-ok (check_injections (suc index) (headers ++ name ∷ []) rest) _ e4 in
    rw (sym (ok-injective e5)) (
      regroup (Apart eq) headers name (header_names checked) (
        check_injections-Apart (suc index) (headers ++ name ∷ []) rest checked er
          (Apart-snoc eq headers name a fresh)))

-- What `validate_rule` promises of a rule.
pub record IsValidRule (rule : HostRule) : Type 0 where
  pub some_port : is_empty rule.ports ≡ false
  pub good_ports : GoodPorts rule.ports
  pub opaque_tunnel : is_tunnel rule.mode ≡ true → (rule.paths ≡ []) × (rule.injections ≡ [])
  pub separate_paths : Apart paths_overlap rule.paths
  pub separate_headers : Apart eq (header_names rule.injections)
  pub canonical_paths : AreCanonical rule.paths
  pub good_injections : AreGoodInjections rule.injections

-- At most one path pattern of a validated rule matches a path.
pub IsValidRule-count :
    (rule : HostRule) (path : Bytes)
    → IsValidRule rule
    → count (λ pattern. matches_path_pattern pattern path) rule.paths ≤ 1
IsValidRule-count rule path v =
    Apart-count paths_overlap (λ pattern. matches_path_pattern pattern path)
      (λ left right hl hr. (paths_overlap_iff left right).1 (path, hl, hr)) rule.paths
      v.separate_paths

-- A rule from the raw form: in tunnel mode without features there are no paths and no injections.
abbrev Featureless : HostRule → Bool → Type 0
Featureless rule features = features ≡ false → (rule.paths ≡ []) × (rule.injections ≡ [])

to_rule-Featureless :
    (host : Bytes) (raw : RawNamedRule) → Featureless (to_rule host raw) (has_features raw)
unfolding to_rule
to_rule-Featureless host raw h = ground arith

tunnel-features :
    (mode : RuleMode) (features : Bool)
    → is_tunnel mode ≡ true
    → (is_tunnel mode && features) ≡ false
    → features ≡ false
tunnel-features mode features t h = ground arith

host-to_rule : (host : Bytes) (raw : RawNamedRule) → (to_rule host raw).host ≡ host
unfolding to_rule
host-to_rule host raw = refl

pub validate_rule-IsValidRule :
    (rule : HostRule) (features : Bool) {out : HostRule}
    → Featureless rule features
    → validate_rule rule features ≡ ok out
    → IsValidRule out × (out.host ≡ rule.host)
unfolding validate_rule
validate_rule-IsValidRule rule features {out} bare e =
    let (np, e1) = fail_if-eq-ok (is_empty rule.ports) ports_empty _ e in
    let (_, ep, e2) = bind-eq-ok (check_ports [] rule.ports) _ e1 in
    let (nt, e3) = fail_if-eq-ok (is_tunnel rule.mode && features) tunnel_features _ e2 in
    let (paths, eq_paths, e4) = bind-eq-ok (check_paths 0 [] rule.paths) _ e3 in
    let (injections, eq_injections, e5) = bind-eq-ok (check_injections 0 [] rule.injections) _ e4 in
    rw (sym (ok-injective e5)) (
      record {
        some_port = np;
        good_ports = check_ports-GoodPorts [] rule.ports ep (tt, unfold any in refl);
        opaque_tunnel = λ t.
            let bare_rule = bare (tunnel-features rule.mode features t nt) in
            (
              check_paths-nil 0
                  (subst (λ raw. check_paths 0 [] raw ≡ ok paths) bare_rule.0 eq_paths),
              check_injections-nil 0 [] (
                  subst (λ raw. check_injections 0 [] raw ≡ ok injections) bare_rule.1
                    eq_injections),
            );
        separate_paths = check_paths-Apart 0 [] rule.paths eq_paths tt;
        separate_headers = check_injections-Apart 0 [] rule.injections injections eq_injections tt;
        canonical_paths = check_paths-AreCanonical 0 [] rule.paths eq_paths tt;
        good_injections = check_injections-AreGood 0 [] rule.injections injections eq_injections;
      },
      refl,
    )

-- Every rule of a list.
abbrev pub AllValid : List HostRule → Type 0
AllValid [] = Unit {0}
AllValid (rule ∷ rules) = IsValidRule rule × AllValid rules

module _ (parse_host : Bytes → ParsedHost) where
  -- Each host is the normal form of some name.
  abbrev pub AreNormalized : List HostRule → Type 0
  AreNormalized [] = Unit {0}
  AreNormalized (rule ∷ rules) =
      ((raw : Bytes) × (normalize_dns_name parse_host raw ≡ ok rule.host)) × AreNormalized rules

  check_rules-AllValid :
      (index : ℕ) (hosts : List Bytes) (raw : List (Bytes × RawNamedRule)) (out : List HostRule)
      → check_rules parse_host index hosts raw ≡ ok out
      → Apart eq hosts
      → AllValid out × Apart eq (hosts ++ hosts_of out) × AreNormalized out
  unfolding check_rules
  check_rules-AllValid index hosts [] out e a = rw (sym (ok-injective e)) (tt, rw append-nil a, tt)
  check_rules-AllValid index hosts ((raw_host, raw) ∷ rest) out e a =
      let (host, eh, e1) =
        bind-eq-ok (map_err (host_invalid index) (normalize_dns_name parse_host raw_host)) _ e in
      let (fresh, e2) = fail_if-eq-ok (any (λ h. eq h host) hosts) (host_duplicate index) _ e1 in
      let (rule, er, e3) =
        bind-eq-ok
          (map_err (rule_invalid index) (validate_rule (to_rule host raw) (has_features raw))) _
          e2 in
      let (rules, es, e4) =
        bind-eq-ok (check_rules parse_host (suc index) (hosts ++ host ∷ []) rest) _ e3 in
      let (valid, same) =
        validate_rule-IsValidRule (to_rule host raw) (has_features raw)
          (to_rule-Featureless host raw) (map_err-eq-ok (rule_invalid index) _ er) in
      let (others, apart, normal) =
        check_rules-AllValid (suc index) (hosts ++ host ∷ []) rest rules es
          (Apart-snoc eq hosts host a fresh) in
      rw (sym (ok-injective e4)) (
        (valid, others),
        rw (same ∙ host-to_rule host raw) (regroup (Apart eq) hosts host (hosts_of rules) apart),
        (
          (
            raw_host,
            map_err-eq-ok (host_invalid index) _ eh ∙ ap ok (sym (same ∙ host-to_rule host raw)),
          ),
          normal,
        ),
      )

  -- Every rule of an accepted list is valid, its host is the normal form of some name, and no two
  -- rules have the same host.
  pub validate_named_rules-AllValid :
      (raw : List (Bytes × RawNamedRule)) (rules : List HostRule)
      → validate_named_rules parse_host raw ≡ ok rules
      → AllValid rules × Apart eq (hosts_of rules) × AreNormalized rules
  unfolding validate_named_rules
  validate_named_rules-AllValid raw rules e = check_rules-AllValid 0 [] raw rules e tt
