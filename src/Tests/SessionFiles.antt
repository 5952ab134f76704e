-- ===== src/Tests/SessionFiles.antt =====
-- Session files at concrete inputs.
use baffle.Prelude.{
  ℕ, ◌+◌, ◌≤◌, ◌≡◌, ◌⊎◌, refl, true, Option, none, some, List, [], ◌∷◌, ◌++◌, Result, ok, err,
  if◌then◌else◌, map,
}
use baffle.Prelude.Text.{Bytes, bytes, length, eq, split}
use baffle.Prelude.Assoc.{get}
use baffle.Prelude.Apart.{Apart}
use baffle.Prelude.Sizes.{member, Distinct}
use baffle.Policy.Types.{SessionConfig}
use baffle.Policy.Names.{validate_session_config_name}
use baffle.Policy.Rules.Valid.{AllValid, hosts_of}
use baffle.Policy.Document.{RawSessionConfig}
use baffle.Secrets.{Metadata}
use baffle.SessionFiles.Errors.{SessionConfigFileError, unavailable_file}
use baffle.SessionFiles.Merge.{Toml, Composition, failed}
use baffle.SessionFiles.Compose.{compose_root, read_session}
use baffle.SessionFiles.Fine.{AllNamed}
use baffle.SessionFiles.Composed.{read_session-FineAt}
use baffle.SessionFiles.Rounds.{read_session-Ends}
use baffle.SessionFiles.Access.{Files, read_snapshot}
use baffle.SessionFiles.Trusted.{Reaches, Contains, read_snapshot-Reaches}
use baffle.Tests.Values.{parse_host, raw_session, session}

-- A file is its rules, if any, and then its imports, between semicolons.
abbrev rules_of : List Bytes → List Bytes
rules_of [] = []
rules_of (rules ∷ imports) = rules ∷ []

abbrev imports_of : List Bytes → List Bytes
imports_of [] = []
imports_of (rules ∷ imports) = imports

abbrev text_of : List Bytes → Option Bytes
text_of (text ∷ []) = some text
text_of _ = none

abbrev rules_text : Option (List Bytes) → Option Bytes
rules_text none = none
rules_text (some value) = text_of value

abbrev toml : Toml
toml = record {
  Value = List Bytes;
  from_str = λ text. some (split b';' text);
  as_table = λ value. some (
      (bytes "imports", imports_of value)
      ∷ (bytes "rules", rules_of value)
      ∷ (bytes "unmatched", [])
      ∷ []);
  as_array = λ value. some (map (λ text. text ∷ []) value);
  as_str = text_of;
  to_string = λ table. rules_text (get (bytes "rules") table);
}

abbrev deserialize : Bytes → Option RawSessionConfig
deserialize text =
    if eq text (bytes "api") then some raw_session else some (record raw_session { rules = none })

abbrev read : Bytes → Result SessionConfigFileError Bytes
read name =
    if eq name (bytes "app.toml")
    then ok (bytes "api;lib/base.toml;./lib/base.toml")
    else if eq name (bytes "lib/base.toml")
    then ok (bytes "none")
    else err (unavailable_file name)

abbrev app : Bytes
app = bytes "app.toml"

app_named : validate_session_config_name app ≡ ok tt
unfolding validate_session_config_name baffle.Prelude.Text.strip_suffix eq baffle.Prelude.Text.any
    split
app_named = refl

composed : read_session toml parse_host deserialize read app ≡ ok session
unfolding read_session compose_root baffle.SessionFiles.Compose.compose_file
    baffle.SessionFiles.Compose.load_file baffle.SessionFiles.Compose.compose_file_contents eq
    baffle.SessionFiles.Compose.parse_imports get baffle.SessionFiles.Compose.import_texts split
    baffle.SessionFiles.Compose.compose_imports baffle.SessionFiles.Imports.resolve_import_name
    baffle.SessionFiles.Imports.is_bad_import baffle.Prelude.Text.starts_with
    baffle.Prelude.Text.any baffle.Policy.Names.has_control baffle.SessionFiles.Imports.walk
    validate_session_config_name baffle.Policy.Dns.is_bad_host baffle.Policy.Dns.is_bad_label
    baffle.Policy.Dns.is_label_byte baffle.Policy.Dns.normalize_dns_name
    baffle.Policy.Dns.without_final_dot baffle.Policy.Document.check_overrides
    baffle.Policy.Document.check_version baffle.Policy.Document.from_toml
    baffle.Policy.Document.named_rules baffle.Policy.Document.parse_unmatched
    baffle.Policy.Document.transpose_socket baffle.Policy.Document.validate_credentials
    baffle.Policy.Document.validate_session_document baffle.Policy.Ip.is_ip_addr
    baffle.Policy.Names.is_bad_component baffle.Policy.Names.is_header_byte
    baffle.Policy.Names.validate_basic_username baffle.Policy.Names.validate_header
    baffle.Policy.Names.validate_secret_id baffle.Policy.Names.validate_socket_name
    baffle.Policy.Path.canonical_bytes baffle.Policy.Path.canonical_escape
    baffle.Policy.Path.canonical_plain baffle.Policy.Path.canonicalize_path
    baffle.Policy.Path.has_forbidden baffle.Policy.Path.hex_value baffle.Policy.Path.is_ambiguous
    baffle.Policy.Path.is_dot_segment baffle.Policy.Path.is_path_character
    baffle.Policy.Path.is_path_punctuation baffle.Policy.Path.is_unreserved
    baffle.Policy.Path.push_escape baffle.Policy.Pattern.path_pattern_parts
    baffle.Policy.Pattern.paths_overlap baffle.Policy.Pattern.recursive_parts
    baffle.Policy.Pattern.validate_path baffle.Policy.Rules.check_injections
    baffle.Policy.Rules.check_paths baffle.Policy.Rules.check_ports baffle.Policy.Rules.check_rules
    baffle.Policy.Rules.check_username baffle.Policy.Rules.has_features baffle.Policy.Rules.to_rule
    baffle.Policy.Rules.validate_named_rules baffle.Policy.Rules.validate_rule
    baffle.Prelude.Assoc.insert baffle.Prelude.Assoc.remove baffle.Prelude.Text.all
    baffle.Prelude.Text.contains_text baffle.Prelude.Text.strip_suffix
    baffle.SessionFiles.Compose.session_of baffle.SessionFiles.Imports.join
    baffle.SessionFiles.Imports.parent_components baffle.SessionFiles.Merge.finish_root
    baffle.SessionFiles.Merge.merge_modes baffle.SessionFiles.Merge.merge_policy
    baffle.SessionFiles.Merge.merge_rules baffle.SessionFiles.Merge.set_credential_default
    baffle.SessionFiles.Merge.set_unmatched
composed = refl

read_session-Ends_example :
    ((found : SessionConfig) × (read_session toml parse_host deserialize read app ≡ ok found))
    ⊎ ((e : SessionConfigFileError) × (read_session toml parse_host deserialize read app
          ≡ err (failed e)))
read_session-Ends_example = read_session-Ends toml parse_host deserialize read app app_named

abbrev limit : ℕ
limit = 128

read_session-FineAt_example :
    AllValid session.rules
    × Apart eq (hosts_of session.rules)
    × ((c : Composition) × (compose_root toml parse_host deserialize read app ≡ ok c)
        × (session.rules ≡ c.rules)
        × AllNamed c.loaded
        × Distinct c.loaded
        × (length c.loaded ≤ limit)
        × (member app c.loaded ≡ true))
read_session-FineAt_example =
    read_session-FineAt toml parse_host deserialize read app session app_named composed

abbrev metadata : Metadata
metadata = record { is_dir = true; is_file = true; uid = 0; mode = 420 + 73; len = 3 }

abbrev files : Files
files = record {
  Directory = Bytes;
  File = Bytes;
  open_directory = λ d name. ok (d ++ name);
  open_file = λ d name. ok (d ++ name);
  directory_metadata = λ d. ok metadata;
  file_metadata = λ f. ok metadata;
  read_to_end = λ f n. ok (bytes "api");
  is_utf8 = λ t. true;
}

abbrev trusted : ℕ
trusted = 1000

snapshot : read_snapshot files trusted (ok []) (bytes "lib/base.toml") ≡ ok (bytes "api")
unfolding read_snapshot baffle.SessionFiles.Access.descend split
    baffle.SessionFiles.Access.enter_directory baffle.SessionFiles.Access.c_string
    baffle.Prelude.Text.any baffle.SessionFiles.Access.validate_config_directory_metadata
    baffle.SessionFiles.Access.trusted_owner baffle.SessionFiles.Access.is_traversable
    baffle.SessionFiles.Access.read_file baffle.SessionFiles.Access.is_bad_file
snapshot = refl

read_snapshot-Reaches_example :
    (file : Bytes) × Reaches files trusted [] (split b'/' (bytes "lib/base.toml")) file
    × Contains files trusted file (bytes "api")
read_snapshot-Reaches_example =
    read_snapshot-Reaches files trusted [] (bytes "lib/base.toml") (bytes "api") snapshot
