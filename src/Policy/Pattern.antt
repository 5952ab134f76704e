-- ===== src/Policy/Pattern.antt =====
-- crates/baffle-client/src/policy.rs: the path patterns of a rule, and `matches_path_pattern` of
-- src/policy.rs, by which a request is held to them.
pub mod Overlap
pub mod Fixed
use baffle.Prelude.{
  ℕ, Bool, true, false, not, ◌||◌, Option, none, some, List, [], ◌∷◌, ◌++◌, if◌then◌else◌, Result,
  ok, err, ◌>>=◌, ◌>>◌, fail_if,
}
use baffle.Prelude.Text.{Bytes, bytes, eq, any, is_empty, contains, starts_with, strip_suffix}
use baffle.Policy.Path.{
  PathError, not_absolute, misplaced_recursion, has_forbidden, canonicalize_path,
}

-- The path in front of a final `/**`, with its slash, or the whole text.
unfoldable pub recursive_parts : Bytes → Bytes × Bool
recursive_parts input = elim (strip_suffix input (bytes "/**")) [
  | none ↦ (input, false)
  | some prefix ↦ ((if is_empty prefix then bytes "/" else prefix ++ bytes "/"), true)
]

unfoldable pub validate_path : Bytes → Result PathError Bytes
validate_path input = do
  fail_if (not (starts_with input (bytes "/")) || has_forbidden input) not_absolute
  let parts = recursive_parts input
  fail_if (contains parts.0 b'*') misplaced_recursion
  canonical ← canonicalize_path parts.0
  ok (if parts.1 then canonical ++ bytes "**" else canonical)

unfoldable pub path_pattern_parts : Bytes → Bytes × Bool
path_pattern_parts pattern = elim (strip_suffix pattern (bytes "**")) [
  | none ↦ (pattern, false)
  | some path ↦ (path, true)
]

abbrev overlap : Bytes × Bool → Bytes × Bool → Bool
overlap (left, false) (right, false) = eq left right
overlap (left, true) (right, false) = starts_with right left
overlap (left, false) (right, true) = starts_with left right
overlap (left, true) (right, true) = starts_with left right || starts_with right left

unfoldable pub paths_overlap : Bytes → Bytes → Bool
paths_overlap left right = overlap (path_pattern_parts left) (path_pattern_parts right)

-- src/policy.rs
unfoldable pub matches_path_pattern : Bytes → Bytes → Bool
matches_path_pattern pattern path = elim (strip_suffix pattern (bytes "**")) [
  | none ↦ eq pattern path
  | some prefix ↦ starts_with path prefix
]
