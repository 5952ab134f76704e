-- ===== src/SessionFiles/Loaded.antt =====
-- The stack and the loaded files of a composition (src/control/file_config.rs), step by step.
use baffle.Prelude.{
  suc, ◌+◌, ◌≤◌, ◌≡◌, inl, inr, refl, ◌∙◌, true, false, List, [], ◌∷◌, Result, ok, ok_or, map_err,
  Bool-cases, bind-eq-ok, fail_if-eq-ok, ok-injective, arith, leb, map_err-eq-ok, subst,
}
use baffle.Prelude.Text.{eq_refl, Bytes, eq_refl, length, split}
use baffle.Prelude.Sizes.{member, Distinct}
use baffle.Policy.Names.{validate_session_config_name}
use baffle.SessionFiles.Imports.{resolve_import_name, is_bad_import, walk, parent_components, join}
use baffle.SessionFiles.Merge.{Stop, failed, Composition, empty_composition}
use baffle.SessionFiles.Fine.{FineAt, Kept, kept_same, AllNamed}
use baffle.SessionFiles.Compose.{add, compose_imports, max_session_import_files}

pub resolve_import_name-named :
    (importing text name : Bytes)
    → resolve_import_name importing text ≡ ok name
    → validate_session_config_name name ≡ ok tt
unfolding resolve_import_name
resolve_import_name-named importing text name e =
    let (_, e1) = fail_if-eq-ok (is_bad_import text) _ _ e in
    let (components, ec, e2) =
      bind-eq-ok (ok_or (walk (parent_components importing) (split b'/' text)) _) _ e1 in
    let (u, ev, e3) =
      bind-eq-ok (map_err _ (validate_session_config_name (join components))) _ e2 in
    subst (λ n. validate_session_config_name n ≡ ok tt) (ok-injective e3) (map_err-eq-ok _ _ ev)

-- An import is composed so that it keeps what a composition keeps.
abbrev pub Keeps : (Bytes → Composition → Result Stop Composition) → Type 0
Keeps compose =
    (name : Bytes) (c c' : Composition)
    → validate_session_config_name name ≡ ok tt
    → compose name c ≡ ok c'
    → FineAt c
    → Kept c c'

pub compose_imports-Kept :
    (compose : Bytes → Composition → Result Stop Composition) (name : Bytes) (texts : List Bytes)
    (c c' : Composition)
    → Keeps compose
    → compose_imports compose name texts c ≡ ok c'
    → FineAt c
    → Kept c c'
unfolding compose_imports
compose_imports-Kept compose name [] c c' keeps e fine = kept_same c c c' (fine, refl) e
compose_imports-Kept compose name (text ∷ rest) c c' keeps e fine =
    let (imported, ei, e1) = bind-eq-ok (map_err failed (resolve_import_name name text)) _ e in
    let (d, ed, e2) = bind-eq-ok (compose imported c) _ e1 in
    let named = resolve_import_name-named name text imported (map_err-eq-ok failed _ ei) in
    let (fine_d, same_d) = keeps imported c d named ed fine in
    let (fine_c, same_c) = compose_imports-Kept compose name rest d c' keeps e2 fine_d in
    (fine_c, same_c ∙ same_d)

pub add-AllNamed :
    (name : Bytes) (names : List Bytes)
    → validate_session_config_name name ≡ ok tt
    → AllNamed names
    → AllNamed (add name names)
add-AllNamed name names v h = elim (Bool-cases (member name names)) [
  | inl there ↦ rw there h
  | inr fresh ↦ rw fresh (v, h)
]

pub add-Distinct : (name : Bytes) (names : List Bytes) → Distinct names → Distinct (add name names)
add-Distinct name names h = elim (Bool-cases (member name names)) [
  | inl there ↦ rw there h
  | inr fresh ↦ rw fresh (fresh, h)
]

pub member-add : (name : Bytes) (names : List Bytes) → member name (add name names) ≡ true
member-add name names = elim (Bool-cases (member name names)) [
  | inl there ↦ rw there there
  | inr fresh ↦ rw (fresh, eq_refl name) refl
]

pub empty_fine : FineAt empty_composition
empty_fine = record {
  same_hosts = refl;
  apart = tt;
  valid = tt;
  named = tt;
  distinct = tt;
  bound = omega arith;
}

-- Room for one more file.
pub pushed-Fine :
    (name : Bytes) (c : Composition)
    → FineAt c
    → leb max_session_import_files (length c.stack + length c.loaded) ≡ false
    → FineAt (record c { stack = name ∷ c.stack })
pushed-Fine name c fine few =
    let small : suc (length c.stack) + length c.loaded ≤ 128 = ground arith in
    record {
      same_hosts = fine.same_hosts;
      apart = fine.apart;
      valid = fine.valid;
      named = fine.named;
      distinct = fine.distinct;
      bound = small;
    }

pub loaded_lem :
    (name : Bytes) (c c' : Composition)
    → member name c.loaded ≡ true
    → ◌≡◌ {A = Result Stop Composition} (ok c) (ok c')
    → FineAt c
    → Kept c c' × (member name c'.loaded ≡ true)
loaded_lem name c c' there e fine =
    subst (λ d. Kept c d × (member name (Composition.loaded d) ≡ true)) (ok-injective e)
      ((fine, refl), there)

pub length-add : (name : Bytes) (names : List Bytes) → length (add name names) ≤ suc (length names)
length-add name names = ground arith
