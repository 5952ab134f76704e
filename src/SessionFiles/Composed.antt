-- ===== src/SessionFiles/Composed.antt =====
-- What a composed session policy of src/control/file_config.rs promises.
use baffle.Prelude.{
  ℕ, zero, suc, ◌+◌, ◌≤◌, ◌≡◌, inl, inr, sym, ap, ◌∙◌, true, false, not, Option, ◌∷◌, Result, ok,
  ok_or, map_err, Bool-cases, bind-eq-ok, fail_if-eq-ok, ok-injective, arith, Bool, leb, ◌&&◌, ◌||◌,
  map_err-eq-ok, subst,
}
use baffle.Prelude.Text.{Bytes, bytes, eq, length}
use baffle.Prelude.Assoc.{Assoc, get, remove, contains_key}
use baffle.Prelude.Apart.{Apart}
use baffle.Prelude.Sizes.{member, Distinct}
use baffle.Policy.Types.{SessionConfig}
use baffle.Policy.Names.{validate_session_config_name}
use baffle.Policy.Dns.{ParsedHost}
use baffle.Policy.Document.{RawSessionConfig, from_toml, from_toml-AllValid}
use baffle.Policy.Rules.Valid.{AllValid, hosts_of}
use baffle.SessionFiles.Errors.{
  SessionConfigFileError, import_syntax, not_table, undecodable, document_invalid, root_not_loaded,
}
use baffle.SessionFiles.Merge.{Toml, Stop, failed, Composition, empty_composition}
use baffle.SessionFiles.Fine.{FineAt, Kept, AllNamed, merge_policy-Kept}
use baffle.SessionFiles.Compose.{
  stop, add, pop_stack, compose_imports, parse_imports, compose_file_contents, load_file,
  compose_file, compose_root, session_of, read_session, max_session_import_depth,
  max_session_import_files,
}
use baffle.SessionFiles.Loaded.{
  Keeps, compose_imports-Kept, add-AllNamed, add-Distinct, member-add, empty_fine, pushed-Fine,
  loaded_lem, length-add,
}

module _ (toml : Toml) (parse_host : Bytes → ParsedHost)
    (deserialize : Bytes → Option RawSessionConfig)
    (read_snapshot : Bytes → Result SessionConfigFileError Bytes) where
  decoded-AllValid :
      (name policy_text : Bytes) (policy : SessionConfig)
      → map_err (λ e. stop (document_invalid name e)) (from_toml parse_host deserialize policy_text)
        ≡ ok policy
      → AllValid policy.rules
  decoded-AllValid name policy_text policy e =
      (from_toml-AllValid parse_host deserialize policy_text policy (
        map_err-eq-ok (λ e. stop (document_invalid name e))
          (from_toml parse_host deserialize policy_text) e)).0

  contents-Kept :
      (compose : Bytes → Composition → Result Stop Composition) (name : Bytes) (is_root : Bool)
      (c c' : Composition)
      → Keeps compose
      → compose_file_contents toml parse_host deserialize read_snapshot compose name is_root c
        ≡ ok c'
      → FineAt c
      → Kept c c'
  unfolding compose_file_contents
  contents-Kept compose name is_root c c' keeps e fine =
      let (text, e0, r0) = bind-eq-ok (map_err failed (read_snapshot name)) _ e in
      let (document, e1, r1) =
        bind-eq-ok (ok_or (Toml.from_str toml text) (stop (import_syntax name))) _ r0 in
      let (table, e2, r2) =
        bind-eq-ok (ok_or (Toml.as_table toml document) (stop (not_table name))) _ r1 in
      let (_, r3) =
        fail_if-eq-ok
          (not is_root
            && (contains_key (bytes "persistent") table
                || contains_key (bytes "socket_name") table))
          _ _ r2 in
      let (texts, e4, r4) =
        bind-eq-ok (parse_imports toml name (get (bytes "imports") table)) _ r3 in
      let (d, e5, r5) = bind-eq-ok (compose_imports compose name texts c) _ r4 in
      let kept : Assoc (Toml.Value toml) = remove (bytes "imports") table in
      let (policy_text, e6, r6) =
        bind-eq-ok (ok_or (Toml.to_string toml kept) (stop (undecodable name))) _ r5 in
      let (policy, e7, r7) =
        bind-eq-ok
          (map_err (λ e. stop (document_invalid name e))
            (from_toml parse_host deserialize policy_text))
          _ r6 in
      let valid = decoded-AllValid name policy_text policy e7 in
      let (fine_d, same_d) = compose_imports-Kept compose name texts c d keeps e5 fine in
      let (fine_c, same_c) =
        merge_policy-Kept name is_root (contains_key (bytes "unmatched") kept) policy d c' r7 valid
          fine_d in
      (fine_c, same_c ∙ same_d)

  load_file-Kept :
      (compose : Bytes → Composition → Result Stop Composition) (name : Bytes) (is_root : Bool)
      (c c' : Composition)
      → Keeps compose
      → validate_session_config_name name ≡ ok tt
      → load_file toml parse_host deserialize read_snapshot compose name is_root c ≡ ok c'
      → FineAt c
      → Kept c c' × (member name c'.loaded ≡ true)
  unfolding load_file
  load_file-Kept compose name is_root c c' keeps v e fine =
      let pushed : Composition = record c { stack = name ∷ c.stack } in
      let (_, e1) = fail_if-eq-ok (leb max_session_import_depth (length c.stack)) _ _ e in
      let (few, e2) =
        fail_if-eq-ok (leb max_session_import_files (length c.stack + length c.loaded)) _ _ e1 in
      let (d, ed, e3) =
        bind-eq-ok
          (compose_file_contents toml parse_host deserialize read_snapshot compose name is_root
            pushed)
          _ e2 in
      let (fine_d, same_d) =
        contents-Kept compose name is_root pushed d keeps ed (pushed-Fine name c fine few) in
      let popped : pop_stack d.stack ≡ c.stack = ap pop_stack same_d in
      let last : Composition = record d { stack = pop_stack d.stack; loaded = add name d.loaded } in
      let fine_last : FineAt last = record {
        same_hosts = fine_d.same_hosts;
        apart = fine_d.apart;
        valid = fine_d.valid;
        named = add-AllNamed name d.loaded v fine_d.named;
        distinct = add-Distinct name d.loaded fine_d.distinct;
        bound =
            omega
              (arith, fine_d.bound, ap length same_d, ap length popped, length-add name d.loaded);
      } in
      subst (λ c'. Kept c c' × (member name (Composition.loaded c') ≡ true)) (ok-injective e3)
        ((fine_last, popped), member-add name d.loaded)

  -- A file that was composed keeps the composition fine and is loaded afterwards.
  pub compose_file-Kept :
      (rounds : ℕ) (name : Bytes) (is_root : Bool) (c c' : Composition)
      → validate_session_config_name name ≡ ok tt
      → compose_file toml parse_host deserialize read_snapshot rounds name is_root c ≡ ok c'
      → FineAt c
      → Kept c c' × (member name c'.loaded ≡ true)
  unfolding compose_file
  compose_file-Kept zero name is_root c c' v e fine = absurd (ground arith)
  compose_file-Kept (suc rounds) name is_root c c' v e fine =
      let (_, e1) = fail_if-eq-ok (member name c.stack) _ _ e in
      elim (Bool-cases (member name c.loaded)) [
        | inl there ↦ loaded_lem name c c' there (rw there at e1) fine
        | inr fresh ↦
            load_file-Kept
              (λ import c.
                compose_file toml parse_host deserialize read_snapshot rounds import false c)
              name is_root c c'
              (λ import d d' w ed fine_d.
                (compose_file-Kept rounds import false d d' w ed fine_d).0)
              v (rw fresh at e1) fine
      ]

  -- What `read_session` of a file with an accepted name gives is fine as a whole: the rules are valid
  -- and for distinct hosts, and the settings are those of a composition that read at most 128
  -- different files, all with accepted names and the named one among them.
  pub read_session-FineAt :
      (name : Bytes) (session : SessionConfig)
      → validate_session_config_name name ≡ ok tt
      → read_session toml parse_host deserialize read_snapshot name ≡ ok session
      → AllValid session.rules
        × Apart eq (hosts_of session.rules)
        × ((c : Composition) × (compose_root toml parse_host deserialize read_snapshot name ≡ ok c)
            × (session.rules ≡ c.rules)
            × AllNamed c.loaded
            × Distinct c.loaded
            × (length c.loaded ≤ 128)
            × (member name c.loaded ≡ true))
  unfolding read_session compose_root session_of
  read_session-FineAt name session v e =
      let (c, ec, e1) =
        bind-eq-ok (compose_root toml parse_host deserialize read_snapshot name) _ e in
      let ((fine, same), there) =
        compose_file-Kept 33 name true empty_composition c v ec empty_fine in
      let (root, er, e2) = bind-eq-ok (ok_or c.root (stop root_not_loaded)) _ e1 in
      let rules : session.rules ≡ c.rules = sym (ap SessionConfig.rules (ok-injective e2)) in
      (
        subst AllValid (sym rules) fine.valid,
        subst (λ rules. Apart eq (hosts_of rules)) (sym rules)
            (subst (Apart eq) fine.same_hosts fine.apart),
        (c, ec, rules, fine.named, fine.distinct, omega (arith, fine.bound), there),
      )
