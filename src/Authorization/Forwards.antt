-- ===== src/Authorization/Forwards.antt =====
-- The tests of `authorize_intercepted_request`, each read as what it shows: the path, the rule and
-- the destination that a request names.
use baffle.Prelude.{
  ◌≡◌, ◌≢◌, sym, ap, ◌∙◌, subst, ◌⊎◌, inl, inr, true, false, ◌&&◌, Option, none, some, [], ok,
  arith, Option-cases, Bool-cases, Result-cases,
}
use baffle.Prelude.Text.{Bytes, is_empty}
use baffle.Prelude.Assoc.{get}
use baffle.Policy.Path.{canonicalize_request_path}
use baffle.Authorization.{
  Destination, same_destination, CompiledRule, SessionPolicy, has_port, rule_for, matches_any,
  canonical_authorized_path, differs, is_none, is_unbound,
}
use baffle.Authorization.Authority.{same_destination→≡, not-eq-false}

-- The path that is forwarded: none where the rule has no patterns, and else the canonical path,
-- which matches a pattern.
abbrev pub Forwards : CompiledRule → Bytes → Option Bytes → Type 0
Forwards rule path forwarded =
    ((rule.paths ≡ []) × (forwarded ≡ none))
    ⊎ ((canonical : Bytes) × (rule.paths ≢ [])
        × (canonicalize_request_path path ≡ ok canonical)
        × (matches_any rule.paths canonical ≡ true)
        × (forwarded ≡ some canonical))

pub canonical_authorized_path-Forwards :
    (rule : CompiledRule) (path : Bytes) (forwarded : Option Bytes)
    → canonical_authorized_path rule path ≡ ok forwarded
    → Forwards rule path forwarded
unfolding canonical_authorized_path
canonical_authorized_path-Forwards rule path forwarded e = elim (Bool-cases (is_empty rule.paths)) [
  | inl bare ↦ inl (ground arith, ground arith)
  | inr patterns ↦ elim (Result-cases (canonicalize_request_path path)) [
    | inr (bad, ep) ↦ absurd (ground arith)
    | inl (canonical, ep) ↦ inr (canonical, ground arith, ep, ground arith, ground arith)
  ]
]

pub Forwards-canonical_authorized_path :
    (rule : CompiledRule) (path : Bytes) (forwarded : Option Bytes)
    → Forwards rule path forwarded
    → canonical_authorized_path rule path ≡ ok forwarded
unfolding canonical_authorized_path
Forwards-canonical_authorized_path rule path forwarded (inl (bare, same)) = rw (bare, same)
Forwards-canonical_authorized_path rule path forwarded (inr (c, some_path, ep, hit, same)) =
    ground arith

pub rule_for-found :
    (policy : SessionPolicy) (d : Destination) (rule : CompiledRule)
    → rule_for policy d ≡ some rule
    → (get d.host policy.rules ≡ some rule) × (has_port rule.ports d.port ≡ true)
unfolding rule_for
rule_for-found policy d rule e = elim (Option-cases (get d.host policy.rules)) [
  | inl absent ↦ absurd (ground arith)
  | inr (other, found) ↦ elim (Bool-cases (has_port other.ports d.port)) [
    | inr closed ↦ absurd (ground arith)
    | inl listed ↦
        let same : other ≡ rule = ground arith in
        (
          found ∙ ap some same,
          subst (λ (r : CompiledRule). has_port r.ports d.port ≡ true) same listed,
        )
  ]
]

pub found-rule_for :
    (policy : SessionPolicy) (d : Destination) (rule : CompiledRule)
    → get d.host policy.rules ≡ some rule
    → has_port rule.ports d.port ≡ true
    → rule_for policy d ≡ some rule
unfolding rule_for
found-rule_for policy d rule found listed = ground arith

pub bound_parts :
    (uri host : Option Destination) (d : Destination)
    → is_unbound uri host d ≡ false
    → (differs uri d ≡ false) × (differs host d ≡ false) × ((is_none uri && is_none host) ≡ false)
unfolding is_unbound
bound_parts uri host d h = ground arith

pub parts_bound :
    (uri host : Option Destination) (d : Destination)
    → differs uri d ≡ false
    → differs host d ≡ false
    → (is_none uri && is_none host) ≡ false
    → is_unbound uri host d ≡ false
unfolding is_unbound
parts_bound uri host d u h n = ground arith

pub differs-some :
    (c d : Destination) (given : Option Destination)
    → some c ≡ given
    → differs given d ≡ false
    → (c ≡ d) × (is_none given ≡ false)
differs-some c d given e same = (
  same_destination→≡ c d
      (not-eq-false (same_destination c d) (subst (λ o. differs o d ≡ false) (sym e) same)),
  ap is_none (sym e),
)
