-- ===== src/Policy/Rules/Entries.antt =====
-- What `validate_rule` (crates/baffle-client/src/policy.rs) promises of each path and each injection.
use baffle.Prelude.{
  ℕ, suc, ◌≡◌, not, ◌||◌, Option, none, some, List, [], ◌∷◌, ◌++◌, ok, map_err, arith, subst,
  bind-eq-ok, fail_if-eq-ok, map_err-eq-ok, ok-injective,
}
use baffle.Prelude.Text.{Bytes, eq, any, all, is_empty, to_ascii_lowercase}
use baffle.Policy.Types.{InjectionFormat, HeaderInjection}
use baffle.Policy.Pattern.{validate_path, paths_overlap}
use baffle.Policy.Pattern.Fixed.{validate_path_idempotent}
use baffle.Policy.Names.{
  validate_header, validate_secret_id, validate_basic_username, is_header_byte, prohibited,
  header_name, prohibited_header,
}
use baffle.Policy.Rules.{
  path_overlap, path_invalid, check_paths, check_injections, check_username, header_invalid,
  header_duplicate, secret_invalid, username_invalid,
}

-- Patterns in canonical form.
abbrev pub AreCanonical : List Bytes → Type 0
AreCanonical [] = Unit {0}
AreCanonical (path ∷ paths) = (validate_path path ≡ ok path) × AreCanonical paths

-- A user name is there exactly for basic authentication, and then it is valid.
abbrev pub HasUsername : InjectionFormat → Option Bytes → Type 0
HasUsername InjectionFormat.basic_password none = ⊥
HasUsername InjectionFormat.basic_password (some username) =
    validate_basic_username username ≡ ok tt
HasUsername _ none = Unit {0}
HasUsername _ (some username) = ⊥

-- An injection into a header that may be set, of a secret with a valid identifier.
abbrev pub IsGoodInjection : HeaderInjection → Type 0
IsGoodInjection injection =
    (validate_header injection.header ≡ ok injection.header)
    × (validate_secret_id injection.secret ≡ ok tt)
    × HasUsername injection.format injection.username

abbrev pub AreGoodInjections : List HeaderInjection → Type 0
AreGoodInjections [] = Unit {0}
AreGoodInjections (injection ∷ injections) =
    IsGoodInjection injection × AreGoodInjections injections

AreCanonical-snoc :
    (paths : List Bytes) (path : Bytes)
    → AreCanonical paths
    → validate_path path ≡ ok path
    → AreCanonical (paths ++ path ∷ [])
AreCanonical-snoc [] path h e = (e, tt)
AreCanonical-snoc (first ∷ paths) path h e = (h.0, AreCanonical-snoc paths path h.1 e)

pub check_paths-AreCanonical :
    (index : ℕ) (paths raw : List Bytes) {out : List Bytes}
    → check_paths index paths raw ≡ ok out
    → AreCanonical paths
    → AreCanonical out
unfolding check_paths
check_paths-AreCanonical index paths [] e a = subst AreCanonical (ok-injective e) a
check_paths-AreCanonical index paths (raw ∷ rest) e a =
    let (path, ep, e1) = bind-eq-ok (map_err (path_invalid index) (validate_path raw)) _ e in
    let (fresh, e2) = fail_if-eq-ok (any (λ x. paths_overlap x path) paths) path_overlap _ e1 in
    let fixed = validate_path_idempotent raw path (map_err-eq-ok (path_invalid index) _ ep) in
    check_paths-AreCanonical (suc index) (paths ++ path ∷ []) rest e2
      (AreCanonical-snoc paths path a fixed)

validate_header_same : (input header : Bytes) → validate_header input ≡ ok header → input ≡ header
unfolding validate_header
validate_header_same input header e =
    let (shape, e1) =
      fail_if-eq-ok (is_empty input || not (all is_header_byte input)) header_name _ e in
    let (allowed, e2) =
      fail_if-eq-ok (any (λ name. eq name (to_ascii_lowercase input)) prohibited) prohibited_header
        _ e1 in
    ok-injective e2

validate_header_fixed :
    (input header : Bytes) → validate_header input ≡ ok header → validate_header header ≡ ok header
validate_header_fixed input header e =
    subst (λ h. validate_header h ≡ ok header) (validate_header_same input header e) e

check_username-HasUsername :
    (index : ℕ) (format : InjectionFormat) (username : Option Bytes) (u : Unit {0})
    → check_username index format username ≡ ok u
    → HasUsername format username
unfolding check_username
check_username-HasUsername index InjectionFormat.basic_password none u e = absurd (ground arith)
check_username-HasUsername index InjectionFormat.basic_password (some username) u e =
    map_err-eq-ok (username_invalid index) (validate_basic_username username) e
check_username-HasUsername index InjectionFormat.raw none u e = tt
check_username-HasUsername index InjectionFormat.raw (some username) u e = absurd (ground arith)
check_username-HasUsername index InjectionFormat.bearer none u e = tt
check_username-HasUsername index InjectionFormat.bearer (some username) u e = absurd (ground arith)

pub check_injections-AreGood :
    (index : ℕ) (headers : List Bytes) (raw out : List HeaderInjection)
    → check_injections index headers raw ≡ ok out
    → AreGoodInjections out
unfolding check_injections
check_injections-AreGood index headers [] out e = subst AreGoodInjections (ok-injective e) tt
check_injections-AreGood index headers (injection ∷ rest) out e =
    let (header, eh, e1) =
      bind-eq-ok (map_err (header_invalid index) (validate_header injection.header)) _ e in
    let (fresh, e2) =
      fail_if-eq-ok (any (λ h. eq h (to_ascii_lowercase header)) headers) (header_duplicate index) _
        e1 in
    let (_, es, e3) =
      bind-eq-ok (map_err (secret_invalid index) (validate_secret_id injection.secret)) _ e2 in
    let (u, eu, e4) = bind-eq-ok (check_username index injection.format injection.username) _ e3 in
    let (checked, er, e5) =
      bind-eq-ok (check_injections (suc index) (headers ++ to_ascii_lowercase header ∷ []) rest) _
        e4 in
    subst AreGoodInjections (ok-injective e5) (
      (
        validate_header_fixed injection.header header (map_err-eq-ok (header_invalid index) _ eh),
        map_err-eq-ok (secret_invalid index) _ es,
        check_username-HasUsername index injection.format injection.username u eu,
      ),
      check_injections-AreGood (suc index) (headers ++ to_ascii_lowercase header ∷ []) rest checked
          er,
    )
