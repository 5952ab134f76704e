-- ===== src/SessionFiles/Imports.antt =====
-- src/control/file_config.rs, `resolve_import_name`.
use baffle.Prelude.{
  true, false, Option, none, some, List, [], ◌∷◌, ◌++◌, Result, ok, ◌>>=◌, ◌>>◌, fail_if, ok_or,
  map_err, Bool, ltb, ◌==◌, ◌||◌,
}
use baffle.Prelude.Text.{Bytes, bytes, eq, any, length, is_empty, starts_with, split}
use baffle.Policy.Names.{validate_session_config_name, has_control}
use baffle.SessionFiles.Errors.{SessionConfigFileError, invalid_detail, import_path}

-- `components.pop()`, for what stays.
abbrev pub pop_component : List Bytes → Option (List Bytes)
pop_component [] = none
pop_component (component ∷ []) = some []
pop_component (component ∷ next ∷ rest) = elim (pop_component (next ∷ rest)) [
  | none ↦ none
  | some kept ↦ some (component ∷ kept)
]

-- The components before the last.
unfoldable pub parent_components : Bytes → List Bytes
parent_components name = elim (pop_component (split b'/' name)) [ none ↦ [] | some kept ↦ kept ]

-- `components.join("/")`.
unfoldable pub join : List Bytes → Bytes
join [] = []
join (component ∷ []) = component
join (component ∷ next ∷ rest) = component ++ (b'/' ∷ join (next ∷ rest))

unfoldable pub is_bad_import : Bytes → Bool
is_bad_import text =
    is_empty text
    || ltb 1024 (length text)
    || starts_with text (bytes "/")
    || any (λ c. c == 92 || c == b':') text
    || has_control text

-- The loop over the components of the import.
unfoldable pub walk : List Bytes → List Bytes → Option (List Bytes)
walk components [] = some components
walk components (component ∷ rest) = elim (is_empty component) [
  | true ↦ none
  | false ↦ elim (eq component (bytes ".")) [
    | true ↦ walk components rest
    | false ↦ elim (eq component (bytes "..")) [
      | false ↦ walk (components ++ component ∷ []) rest
      | true ↦ elim (pop_component components) [ none ↦ none | some kept ↦ walk kept rest ]
    ]
  ]
]

unfoldable pub resolve_import_name : Bytes → Bytes → Result SessionConfigFileError Bytes
resolve_import_name importing_name text = do
  let invalid = invalid_detail (import_path importing_name)
  fail_if (is_bad_import text) invalid
  components ← ok_or (walk (parent_components importing_name) (split b'/' text)) invalid
  map_err (λ _. invalid) (validate_session_config_name (join components))
  ok (join components)
