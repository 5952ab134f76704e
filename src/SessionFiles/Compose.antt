-- ===== src/SessionFiles/Compose.antt =====
-- src/control/file_config.rs: the composition of a session policy from a file and its imports. The
-- `toml` crate and the reading of a file (Access.antt) are parameters.
use baffle.Prelude.{
  ℕ, zero, suc, ◌+◌, true, false, not, Option, none, some, List, [], ◌∷◌, Result, ok, err, ◌>>=◌,
  ◌>>◌, fail_if, ok_or, map_err, Bool, leb, if◌then◌else◌, ◌&&◌, ◌||◌,
}
use baffle.Prelude.Text.{Bytes, bytes, length}
use baffle.Prelude.Assoc.{get, remove, contains_key}
use baffle.Prelude.Sizes.{member}
use baffle.Policy.Types.{SessionConfig, deny}
use baffle.Policy.Dns.{ParsedHost}
use baffle.Policy.Document.{RawSessionConfig, from_toml}
use baffle.SessionFiles.Errors.{
  SessionConfigFileError, invalid_detail, import_cycle, import_depth, import_files, import_syntax,
  not_table, root_fields, import_not_string, imports_not_array, undecodable, document_invalid,
  root_not_loaded, Detail,
}
use baffle.SessionFiles.Imports.{resolve_import_name}
use baffle.SessionFiles.Merge.{
  Toml, Stop, failed, exhausted, Composition, empty_composition, unwrap_or, merge_policy,
}

abbrev pub max_session_import_depth : ℕ
max_session_import_depth = 32

abbrev pub max_session_import_files : ℕ
max_session_import_files = 128

abbrev pub stop : Detail → Stop
stop detail = failed (invalid_detail detail)

-- `stack.pop()` and `loaded.insert(name)`.
abbrev pub pop_stack : List Bytes → List Bytes
pop_stack [] = []
pop_stack (name ∷ stack) = stack

abbrev pub add : Bytes → List Bytes → List Bytes
add name names = if member name names then names else name ∷ names

-- The loop over the imports, with the composition of one of them.
unfoldable pub compose_imports :
    (Bytes → Composition → Result Stop Composition)
    → Bytes
    → List Bytes
    → Composition
    → Result Stop Composition
compose_imports compose name [] c = ok c
compose_imports compose name (text ∷ rest) c = do
  imported_name ← map_err failed (resolve_import_name name text)
  c ← compose imported_name c
  compose_imports compose name rest c

module _ (toml : Toml) where
  open toml use {Value, from_str, as_table, as_array, as_str, to_string}

  unfoldable pub import_texts : Bytes → List Value → Result Stop (List Bytes)
  import_texts name [] = ok []
  import_texts name (value ∷ rest) = do
    text ← ok_or (as_str value) (stop (import_not_string name))
    texts ← import_texts name rest
    ok (text ∷ texts)

  unfoldable pub parse_imports : Bytes → Option Value → Result Stop (List Bytes)
  parse_imports name none = ok []
  parse_imports name (some value) = do
    values ← ok_or (as_array value) (stop (imports_not_array name))
    import_texts name values

  module _ (parse_host : Bytes → ParsedHost) (deserialize : Bytes → Option RawSessionConfig)
      (read_snapshot : Bytes → Result SessionConfigFileError Bytes) where
    -- `compose_file_contents`, with the composition of an imported file.
    unfoldable pub compose_file_contents :
        (Bytes → Composition → Result Stop Composition)
        → Bytes
        → Bool
        → Composition
        → Result Stop Composition
    compose_file_contents compose name is_root c = do
      text ← map_err failed (read_snapshot name)
      document ← ok_or (from_str text) (stop (import_syntax name))
      table ← ok_or (as_table document) (stop (not_table name))
      fail_if
          (not is_root
            && (contains_key (bytes "persistent") table
                || contains_key (bytes "socket_name") table))
          (stop (root_fields name))
      texts ← parse_imports name (get (bytes "imports") table)
      let kept = remove (bytes "imports") table
      c ← compose_imports compose name texts c
      policy_text ← ok_or (to_string kept) (stop (undecodable name))
      policy ←
          map_err (λ e. stop (document_invalid name e))
            (from_toml parse_host deserialize policy_text)
      merge_policy name is_root (contains_key (bytes "unmatched") kept) policy c

    -- `compose_file` of a file that is not loaded, with the composition of an imported file.
    unfoldable pub load_file :
        (Bytes → Composition → Result Stop Composition)
        → Bytes
        → Bool
        → Composition
        → Result Stop Composition
    load_file compose name is_root c = do
      fail_if (leb max_session_import_depth (length c.stack)) (stop import_depth)
      fail_if (leb max_session_import_files (length c.stack + length c.loaded)) (stop import_files)
      c ← compose_file_contents compose name is_root (record c { stack = name ∷ c.stack })
      ok (record c { stack = pop_stack c.stack; loaded = add name c.loaded })

    -- `compose_file`, with the depth that is left to the model.
    unfoldable pub compose_file : ℕ → Bytes → Bool → Composition → Result Stop Composition
    compose_file zero name is_root c = err exhausted
    compose_file (suc rounds) name is_root c = do
      fail_if (member name c.stack) (stop (import_cycle name))
      elim (member name c.loaded) [
        | true ↦ ok c
        | false ↦ load_file (λ import c. compose_file rounds import false c) name is_root c
      ]

    unfoldable pub compose_root : Bytes → Result Stop Composition
    compose_root name = compose_file 33 name true empty_composition

    unfoldable pub session_of : Composition → Result Stop SessionConfig
    session_of c = do
      root ← ok_or c.root (stop root_not_loaded)
      ok (record {
        persistent = root.persistent;
        socket_name = root.socket_name;
        unmatched = unwrap_or deny c.root_unmatched;
        default_credential_mode = c.root_credential_default;
        credential_modes = c.credential_modes;
        rules = c.rules;
      })

    unfoldable pub read_session : Bytes → Result Stop SessionConfig
    read_session name = do c ← compose_root name; session_of c
