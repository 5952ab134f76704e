-- ===== src/SessionFiles/Rounds.antt =====
-- That composing session files (src/control/file_config.rs) ends: the imports are never deeper than the
-- rounds of the model.
use baffle.Prelude.{
  ℕ, zero, suc, ◌+◌, ◌≤◌, ◌≡◌, ◌⊎◌, inl, inr, ap, true, false, Option, none, some, List, [], ◌∷◌,
  Result, ok, err, ok_or, map_err, Bool-cases, Result-cases, arith, Bool, leb, map_err-eq-ok,
}
use baffle.Prelude.Text.{Bytes, bytes, length}
use baffle.Prelude.Assoc.{get, remove, contains_key}
use baffle.Prelude.Sizes.{member}
use baffle.Policy.Types.{SessionConfig}
use baffle.Policy.Names.{validate_session_config_name}
use baffle.Policy.Dns.{ParsedHost}
use baffle.Policy.Document.{RawSessionConfig, from_toml}
use baffle.SessionFiles.Errors.{
  SessionConfigFileError, invalid_detail, import_cycle, import_depth, import_files, import_syntax,
  not_table, import_not_string, imports_not_array, undecodable, document_invalid, root_not_loaded,
}
use baffle.SessionFiles.Imports.{resolve_import_name}
use baffle.SessionFiles.Merge.{Toml, Stop, failed, exhausted, Composition, empty_composition}
use baffle.SessionFiles.Fine.{FineAt}
use baffle.SessionFiles.Composed.{compose_file-Kept}
use baffle.SessionFiles.Loaded.{pushed-Fine, Keeps, resolve_import_name-named, empty_fine}
use baffle.SessionFiles.Compose.{
  stop, compose_imports, import_texts, parse_imports, compose_file_contents, load_file,
  compose_file, compose_root, session_of, read_session, max_session_import_depth,
  max_session_import_files,
}
use baffle.SessionFiles.MergeEnds.{
  Ends, ok-Ends, Ends-bind, fail_if-Ends, fail_if-Ends_else, ok_or-Ends, map_err-Ends,
  merge_policy-Ends,
}

-- Of a depth, an import that is not deeper ends.
abbrev EndsAt : ℕ → (Bytes → Composition → Result Stop Composition) → Type 0
EndsAt rounds compose =
    (name : Bytes) (c : Composition)
    → validate_session_config_name name ≡ ok tt
    → FineAt c
    → length c.stack ≤ 32
    → 33 ≤ rounds + length c.stack
    → Ends (compose name c)

compose_imports-Ends :
    (rounds : ℕ) (compose : Bytes → Composition → Result Stop Composition) (name : Bytes)
    (texts : List Bytes) (c : Composition)
    → Keeps compose
    → EndsAt rounds compose
    → FineAt c
    → length c.stack ≤ 32
    → 33 ≤ rounds + length c.stack
    → Ends (compose_imports compose name texts c)
unfolding compose_imports
compose_imports-Ends rounds compose name [] c keeps ends fine low deep = ok-Ends c
compose_imports-Ends rounds compose name (text ∷ rest) c keeps ends fine low deep =
    Ends-bind (map_err failed (resolve_import_name name text)) _
      (map_err-Ends (resolve_import_name name text) (λ e. e))
      λ imported ei.
        let named = resolve_import_name-named name text imported (map_err-eq-ok failed _ ei) in
        Ends-bind (compose imported c) _ (ends imported c named fine low deep) λ d ed.
          let (fine_d, same_d) = keeps imported c d named ed fine in
          compose_imports-Ends rounds compose name rest d keeps ends fine_d
            (omega (arith, low, ap length same_d)) (omega (arith, deep, ap length same_d))

module _ (toml : Toml) where
  import_texts-Ends :
      (name : Bytes) (values : List (Toml.Value toml)) → Ends (import_texts toml name values)
  unfolding import_texts
  import_texts-Ends name [] = ok-Ends []
  import_texts-Ends name (value ∷ rest) =
      Ends-bind (ok_or (Toml.as_str toml value) (stop (import_not_string name))) _ (ok_or-Ends _ _)
        λ text e.
          Ends-bind (import_texts toml name rest) _ (import_texts-Ends name rest)
            λ texts e1. ok-Ends _

  parse_imports-Ends :
      (name : Bytes) (value : Option (Toml.Value toml)) → Ends (parse_imports toml name value)
  unfolding parse_imports
  parse_imports-Ends name none = ok-Ends []
  parse_imports-Ends name (some value) =
      Ends-bind (ok_or (Toml.as_array toml value) (stop (imports_not_array name))) _
        (ok_or-Ends _ _) λ values e. import_texts-Ends name values

  module _ (parse_host : Bytes → ParsedHost) (deserialize : Bytes → Option RawSessionConfig)
      (read_snapshot : Bytes → Result SessionConfigFileError Bytes) where
    contents-Ends :
        (rounds : ℕ) (compose : Bytes → Composition → Result Stop Composition) (name : Bytes)
        (is_root : Bool) (c : Composition)
        → Keeps compose
        → EndsAt rounds compose
        → FineAt c
        → length c.stack ≤ 32
        → 33 ≤ rounds + length c.stack
        → Ends
            (compose_file_contents toml parse_host deserialize read_snapshot compose name is_root c)
    unfolding compose_file_contents
    contents-Ends rounds compose name is_root c keeps ends fine low deep =
        Ends-bind (map_err failed (read_snapshot name)) _
          (map_err-Ends (read_snapshot name) (λ e. e))
          λ text e0.
            Ends-bind (ok_or (Toml.from_str toml text) (stop (import_syntax name))) _
              (ok_or-Ends _ _)
              λ document e1.
                Ends-bind (ok_or (Toml.as_table toml document) (stop (not_table name))) _
                  (ok_or-Ends _ _)
                  λ table e2. fail_if-Ends _ _ _ (
                    Ends-bind (parse_imports toml name (get (bytes "imports") table)) _
                      (parse_imports-Ends name (get (bytes "imports") table))
                      λ texts e3.
                        Ends-bind (compose_imports compose name texts c) _
                          (compose_imports-Ends rounds compose name texts c keeps ends fine low
                            deep)
                          λ d e4.
                            Ends-bind
                              (ok_or (Toml.to_string toml (remove (bytes "imports") table))
                                (stop (undecodable name)))
                              _ (ok_or-Ends _ _)
                              λ policy_text e5.
                                Ends-bind
                                  (map_err (λ e. stop (document_invalid name e))
                                    (from_toml parse_host deserialize policy_text))
                                  _
                                  (map_err-Ends (from_toml parse_host deserialize policy_text)
                                    (λ e. invalid_detail (document_invalid name e)))
                                  λ policy e6.
                                    merge_policy-Ends name is_root
                                      (contains_key (bytes "unmatched")
                                        (remove (bytes "imports") table))
                                      policy d)

    load_file-Ends :
        (rounds : ℕ) (compose : Bytes → Composition → Result Stop Composition) (name : Bytes)
        (is_root : Bool) (c : Composition)
        → Keeps compose
        → EndsAt rounds compose
        → FineAt c
        → 33 ≤ suc rounds + length c.stack
        → Ends (load_file toml parse_host deserialize read_snapshot compose name is_root c)
    unfolding load_file
    load_file-Ends rounds compose name is_root c keeps ends fine deep =
        let pushed : Composition = record c { stack = name ∷ c.stack } in
        fail_if-Ends_else (leb max_session_import_depth (length c.stack))
          (invalid_detail import_depth) _
          λ shallow.
            fail_if-Ends_else (leb max_session_import_files (length c.stack + length c.loaded))
              (invalid_detail import_files) _
              λ few.
                let low : suc (length c.stack) ≤ 32 = ground arith in
                Ends-bind
                  (compose_file_contents toml parse_host deserialize read_snapshot compose name
                    is_root pushed)
                  _
                  (contents-Ends rounds compose name is_root pushed keeps ends
                    (pushed-Fine name c fine few) low (omega (arith, deep)))
                  λ d e. ok-Ends _

    compose_file-Ends :
        (rounds : ℕ) (name : Bytes) (is_root : Bool) (c : Composition)
        → validate_session_config_name name ≡ ok tt
        → FineAt c
        → length c.stack ≤ 32
        → 33 ≤ rounds + length c.stack
        → Ends (compose_file toml parse_host deserialize read_snapshot rounds name is_root c)
    unfolding compose_file
    compose_file-Ends zero name is_root c v fine low deep = absurd (omega (arith, low, deep))
    compose_file-Ends (suc rounds) name is_root c v fine low deep =
        fail_if-Ends_else (member name c.stack) (invalid_detail (import_cycle name)) _ λ new.
          elim (Bool-cases (member name c.loaded)) [
            | inl there ↦ rw there (ok-Ends c)
            | inr fresh ↦ rw fresh (
                load_file-Ends rounds
                  (λ import c.
                    compose_file toml parse_host deserialize read_snapshot rounds import false c)
                  name is_root c
                  (λ import d d' w ed fine_d.
                    (compose_file-Kept toml parse_host deserialize read_snapshot rounds import false
                      d d' w ed fine_d).0)
                  (λ import d w fine_d low_d deep_d.
                    compose_file-Ends rounds import false d w fine_d low_d deep_d)
                  fine deep)
          ]

    read_session_lem :
        (name : Bytes)
        → validate_session_config_name name ≡ ok tt
        → Ends (read_session toml parse_host deserialize read_snapshot name)
    unfolding read_session compose_root session_of
    read_session_lem name v =
        Ends-bind (compose_root toml parse_host deserialize read_snapshot name) _
          (compose_file-Ends 33 name true empty_composition v empty_fine (omega arith)
            (omega arith))
          λ c e.
            Ends-bind (ok_or c.root (stop root_not_loaded)) _ (ok_or-Ends _ _) λ root er. ok-Ends _

    -- Reading a session of a file with an accepted name ends, whatever the files import, and cycles
    -- of imports included: it gives a session or an error of the code, and the rounds of the model
    -- never run out.
    pub read_session-Ends :
        (name : Bytes)
        → validate_session_config_name name ≡ ok tt
        → ((session : SessionConfig) × (read_session toml parse_host deserialize read_snapshot name
              ≡ ok session))
          ⊎ ((e : SessionConfigFileError) × (read_session toml parse_host deserialize read_snapshot
                  name
                ≡ err (failed e)))
    read_session-Ends name v =
        elim (Result-cases (read_session toml parse_host deserialize read_snapshot name)) [
          | inl (session, e) ↦ inl (session, e)
          | inr (failed x, e) ↦ inr (x, e)
          | inr (exhausted, e) ↦ absurd (read_session_lem name v e)
        ]
