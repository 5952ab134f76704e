-- ===== src/Policy/Pattern/Overlap.antt =====
-- When two patterns have a path in common.
use baffle.Prelude.{◌≡◌, ◌↔◌, inl, inr, Bool, true, false, arith, Bool-cases}
use baffle.Prelude.Text.{
  Bytes, eq, starts_with, eq_refl, eq→≡, starts_with_self, starts_with-linear,
}
use baffle.Policy.Pattern.{path_pattern_parts, paths_overlap, matches_path_pattern, overlap}

-- A pattern taken apart, and the paths that its parts match.
abbrev matches_parts : Bytes × Bool → Bytes → Bool
matches_parts (text, false) path = eq text path
matches_parts (text, true) path = starts_with path text

matches-parts :
    (pattern path : Bytes)
    → matches_path_pattern pattern path ≡ matches_parts (path_pattern_parts pattern) path
unfolding matches_path_pattern path_pattern_parts
matches-parts pattern path = ground arith

-- A path that both match, where they overlap: the longer of the two texts.
common :
    (l r : Bytes × Bool)
    → overlap l r ≡ true
    → (p : Bytes) × (matches_parts l p ≡ true) × (matches_parts r p ≡ true)
common (l, false) (r, false) h = (l, eq_refl l, ground (arith, eq→≡ l r, eq_refl l))
common (l, true) (r, false) h = (r, h, eq_refl r)
common (l, false) (r, true) h = (l, eq_refl l, h)
common (l, true) (r, true) h = elim (Bool-cases (starts_with l r)) [
  | inl longer ↦ (l, starts_with_self l, longer)
  | inr other ↦ (r, ground arith, starts_with_self r)
]

overlap_of_common :
    (l r : Bytes × Bool) (p : Bytes)
    → matches_parts l p ≡ true
    → matches_parts r p ≡ true
    → overlap l r ≡ true
overlap_of_common (l, false) (r, false) p hl hr = ground (arith, eq→≡ l p, eq→≡ r p, eq_refl p)
overlap_of_common (l, true) (r, false) p hl hr = ground (arith, eq→≡ r p)
overlap_of_common (l, false) (r, true) p hl hr = ground (arith, eq→≡ l p)
overlap_of_common (l, true) (r, true) p hl hr = ground (arith, starts_with-linear p l r)

-- Two patterns overlap exactly if some path is matched by both.
pub paths_overlap_iff :
    (left right : Bytes)
    → (paths_overlap left right ≡ true) ↔ (
        (path : Bytes) × (matches_path_pattern left path ≡ true)
        × (matches_path_pattern right path ≡ true))
unfolding paths_overlap
paths_overlap_iff left right = (
  λ h.
      let (p, hl, hr) = common (path_pattern_parts left) (path_pattern_parts right) h in
      (p, rw (matches-parts left p) hl, rw (matches-parts right p) hr),
  λ found.
      overlap_of_common (path_pattern_parts left) (path_pattern_parts right) found.0
        (rw (← matches-parts left found.0) found.1) (rw (← matches-parts right found.0) found.2),
)
