-- ===== src/Authorization/Listed.antt =====
-- The rules that a session lists, by their hosts.
use baffle.Prelude.{
  some-injective, ◌≡◌, sym, ap, ◌∙◌, ◌⊎◌, inl, inr, true, Option, none, some, List, [], ◌∷◌,
  if◌then◌else◌, arith, Bool-cases, subst,
}
use baffle.Prelude.Text.{Bytes, eq, eq→≡, eq_refl, any}
use baffle.Prelude.Apart.{Apart}
use baffle.Policy.Types.{HostRule}
use baffle.Policy.Rules.Valid.{hosts_of}

-- The rule of a host, as the session lists it.
unfoldable pub find_rule : Bytes → List HostRule → Option HostRule
find_rule host [] = none
find_rule host (rule ∷ rest) = if eq rule.host host then some rule else find_rule host rest

pub nothing_found {ℓ} : {A : Type ℓ} {a : A} → none ≡ some a → ⊥
nothing_found e = ground arith

-- The session lists the rule.
abbrev pub Listed : HostRule → List HostRule → Type 0
Listed rule [] = ⊥
Listed rule (other ∷ rest) = (other ≡ rule) ⊎ Listed rule rest

Listed-host :
    (rule : HostRule) (host : Bytes) (rules : List HostRule)
    → Listed rule rules
    → eq host rule.host ≡ true
    → any (λ h. eq host h) (hosts_of rules) ≡ true
unfolding any
Listed-host rule host [] there same = absurd there
Listed-host rule host (other ∷ rest) (inl is) same =
    ground (arith, subst (λ (r : HostRule). eq host r.host ≡ true) (sym is) same)
Listed-host rule host (other ∷ rest) (inr later) same =
    ground (arith, Listed-host rule host rest later same)

pub Listed-find_rule :
    (host : Bytes) (rules : List HostRule) (rule : HostRule)
    → Apart eq (hosts_of rules)
    → Listed rule rules
    → eq rule.host host ≡ true
    → find_rule host rules ≡ some rule
unfolding find_rule
Listed-find_rule host [] rule a there same = absurd there
Listed-find_rule host (other ∷ rest) rule a (inl is) same =
    let hit : eq other.host host ≡ true =
      subst (λ (r : HostRule). eq r.host host ≡ true) (sym is) same in
    rw (find_rule, hit) (ap some is)
Listed-find_rule host (other ∷ rest) rule a (inr later) same =
    elim (Bool-cases (eq other.host host)) [
      | inl hit ↦
          let equal : other.host ≡ rule.host =
            eq→≡ other.host host hit ∙ sym (eq→≡ rule.host host same) in
          let seen =
            Listed-host rule other.host rest later
              (subst (λ h. eq other.host h ≡ true) equal (eq_refl other.host)) in
          absurd (ground (arith, seen, a.0))
      | inr miss ↦ rw (find_rule, miss) (Listed-find_rule host rest rule a.1 later same)
    ]

pub find_rule-Listed :
    (host : Bytes) (rules : List HostRule) (rule : HostRule)
    → find_rule host rules ≡ some rule
    → Listed rule rules × (eq rule.host host ≡ true)
unfolding find_rule
find_rule-Listed host [] rule e = absurd (ground arith)
find_rule-Listed host (other ∷ rest) rule e = elim (Bool-cases (eq other.host host)) [
  | inl hit ↦
      let same : other ≡ rule = some-injective (rw (find_rule, hit) at e) in
      (inl same, subst (λ (r : HostRule). eq r.host host ≡ true) same hit)
  | inr miss ↦
      let (there, named) = find_rule-Listed host rest rule (rw (find_rule, miss) at e) in
      (inr there, named)
]
