-- ===== src/Tests/Secrets.antt =====
-- The value of a secret file.
use baffle.Prelude.{ℕ, some, none, true, err, ◌≡◌, refl, ◌⊎◌, false, [], ◌∷◌, ◌++◌, ok}
use baffle.Prelude.Text.{
  Bytes, bytes, any, is_empty, is_ascii, is_ascii_control, strip_suffix, eq, all,
}
use baffle.Tests.Values.{session}
use baffle.Prelude.Assoc.{Assoc, get}
use baffle.Prelude.Sizes.{member}
use baffle.Secrets.Resolve.{SecretFiles, resolve, read_secret, is_requested}
use baffle.Secrets.Entitled.{resolve_lem}
use baffle.Secrets.{Metadata, not_entitled, secret_value, secret_value_lem, without_line_ending}

abbrev content : Bytes
content = bytes "s3cret" ++ (13 ∷ 10 ∷ [])

content_accepted : secret_value is_ascii content ≡ ok (bytes "s3cret")
unfolding secret_value without_line_ending strip_suffix eq any all
content_accepted = refl

secret_value_lem_example :
    ((ending : Bytes) × (content ≡ bytes "s3cret" ++ ending)
      × ((ending ≡ []) ⊎ (ending ≡ 10 ∷ []) ⊎ (ending ≡ 13 ∷ 10 ∷ [])))
    × (is_empty (bytes "s3cret") ≡ false)
    × (any is_ascii_control (bytes "s3cret") ≡ false)
secret_value_lem_example = secret_value_lem is_ascii content (bytes "s3cret") content_accepted

abbrev private_file : Metadata
private_file = record { is_dir = false; is_file = true; uid = 7; mode = 384; len = 8 }

abbrev private_directory : Metadata
private_directory = record { is_dir = true; is_file = false; uid = 7; mode = 448; len = 0 }

abbrev inode : ℕ
inode = 11

abbrev files : SecretFiles
files = record {
  File = Bytes;
  directory_metadata = some private_directory;
  path_metadata = λ name. some (private_file, inode, inode);
  open_path = λ name. some name;
  file_metadata = λ file. some (private_file, inode, inode);
  read_to_end = λ file limit. some content;
  is_utf8 = is_ascii;
}

abbrev owner : ℕ
owner = 7

abbrev token : Bytes
token = bytes "token"

resolve_lem_example :
    (is_requested session token ≡ true
      → member token (token ∷ []) ≡ false
      → resolve files owner (token ∷ []) session ≡ err not_entitled)
    × ((out : Assoc Bytes)
        → resolve files owner (token ∷ []) session ≡ ok out
        → (is_requested session token ≡ true
            → (member token (token ∷ []) ≡ true)
              × ((value : Bytes) × (read_secret files owner token ≡ ok value)
                  × (get token out ≡ some value)))
          × (is_requested session token ≡ false → get token out ≡ none))
resolve_lem_example = resolve_lem files owner (token ∷ []) session token

resolved : resolve files owner (token ∷ []) session ≡ ok ((token, bytes "s3cret") ∷ [])
unfolding resolve any baffle.Secrets.Resolve.requested_of baffle.Secrets.Resolve.add_requested
    baffle.Policy.Types.effective_credential_mode get eq baffle.Secrets.validate_private_directory
    baffle.Secrets.Resolve.read_secrets read_secret baffle.Secrets.validate_secret_file secret_value
    all without_line_ending strip_suffix baffle.Prelude.Assoc.insert
resolved = refl
