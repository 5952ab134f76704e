-- ===== src/Secrets.antt =====
-- src/secrets.rs: what a secret file must look like, and the value that its content stands for.
-- Metadata are what the file system answers; the test for UTF-8 is a parameter.
pub mod Resolve
pub mod Entitled
use baffle.Prelude.{
  ℕ, ◌/◌, ◌%◌, ◌≡◌, refl, ◌⊎◌, inl, inr, Bool, false, not, ◌||◌, none, some, [], ◌∷◌, ◌++◌, ◌==◌,
  ltb, Result, ok, ◌>>◌, fail_if, arith, fail_if-eq-ok, ok-injective, Option-cases, sym,
}
use mathlib.Core.List.{append-nil}
use baffle.Prelude.Text.{
  Bytes, any, length, is_empty, strip_suffix, strip_suffix-split, is_ascii_control,
}

pub data SecretStoreError : Type 0 where
  not_entitled unavailable : SecretStoreError

pub record Metadata : Type 0 where
  pub is_dir : Bool
  pub is_file : Bool
  pub uid : ℕ
  pub mode : ℕ
  pub len : ℕ

abbrev pub max_secret_bytes : ℕ
max_secret_bytes = 65536

-- `mode & 0o077`, `mode & 0o7000` and single bits of the mode.
abbrev pub shared_bits : ℕ → ℕ
shared_bits mode = mode % 64

abbrev pub special_bits : ℕ → ℕ
special_bits mode = mode / 512 % 8

abbrev pub bit : ℕ → ℕ → Bool
bit weight mode = mode / weight % 2 == 1

unfoldable pub validate_private_directory : Metadata → ℕ → Result SecretStoreError (Unit {0})
validate_private_directory metadata trusted_uid = do
  fail_if
      (not metadata.is_dir
        || not (metadata.uid == trusted_uid)
        || not (shared_bits metadata.mode == 0)
        || not (bit 256 metadata.mode)
        || not (bit 64 metadata.mode)
        || not (special_bits metadata.mode == 0))
      unavailable
  ok tt

unfoldable pub validate_secret_file : Metadata → ℕ → Result SecretStoreError (Unit {0})
validate_secret_file metadata trusted_uid = do
  fail_if
      (not metadata.is_file
        || not (metadata.uid == trusted_uid)
        || ltb max_secret_bytes metadata.len
        || not (shared_bits metadata.mode == 0)
        || not (bit 256 metadata.mode)
        || (bit 64 metadata.mode || bit 8 metadata.mode || bit 1 metadata.mode)
        || not (special_bits metadata.mode == 0))
      unavailable
  ok tt

-- One final line ending is removed.
unfoldable pub without_line_ending : Bytes → Bytes
without_line_ending content = elim (strip_suffix content (13 ∷ 10 ∷ [])) [
  | some value ↦ value
  | none ↦ elim (strip_suffix content (10 ∷ [])) [ some value ↦ value | none ↦ content ]
]

module _ (is_utf8 : Bytes → Bool) where
  -- The end of `read_secret`: from the bytes that were read, at most one more than the limit.
  unfoldable pub secret_value : Bytes → Result SecretStoreError Bytes
  secret_value content = do
    fail_if (ltb max_secret_bytes (length content)) unavailable
    let value = without_line_ending content
    fail_if (not (is_utf8 value)) unavailable
    fail_if (is_empty value || any is_ascii_control value) unavailable
    ok value

line_ending :
    (content : Bytes)
    → (ending : Bytes) × (content ≡ without_line_ending content ++ ending)
      × ((ending ≡ []) ⊎ (ending ≡ 10 ∷ []) ⊎ (ending ≡ 13 ∷ 10 ∷ []))
unfolding without_line_ending
line_ending content = elim (Option-cases (strip_suffix content (13 ∷ 10 ∷ []))) [
  | inr (value, found) ↦
      rw (without_line_ending, found)
        (13 ∷ 10 ∷ [], strip_suffix-split content (13 ∷ 10 ∷ []) found, inr (inr refl))
  | inl plain ↦ elim (Option-cases (strip_suffix content (10 ∷ []))) [
    | inr (value, found) ↦
        rw (without_line_ending, plain, found)
          (10 ∷ [], strip_suffix-split content (10 ∷ []) found, inr (inl refl))
    | inl bare ↦ rw (without_line_ending, plain, bare) ([], sym (append-nil content), inl refl)
  ]
]

module _ (is_utf8 : Bytes → Bool) where
  -- The value of an accepted secret file is its content up to one final line ending; it is not
  -- empty and has no ASCII control character, so none that would end a header line.
  pub secret_value_lem :
      (content value : Bytes)
      → secret_value is_utf8 content ≡ ok value
      → ((ending : Bytes) × (content ≡ value ++ ending)
          × ((ending ≡ []) ⊎ (ending ≡ 10 ∷ []) ⊎ (ending ≡ 13 ∷ 10 ∷ [])))
        × (is_empty value ≡ false)
        × (any is_ascii_control value ≡ false)
  unfolding secret_value
  secret_value_lem content value e =
      let (short, e1) = fail_if-eq-ok (ltb max_secret_bytes (length content)) unavailable _ e in
      let (text, e2) =
        fail_if-eq-ok (not (is_utf8 (without_line_ending content))) unavailable _ e1 in
      let (clean, e3) =
        fail_if-eq-ok
          (is_empty (without_line_ending content)
            || any is_ascii_control (without_line_ending content))
          unavailable _ e2 in
      rw (sym (ok-injective e3)) (line_ending content, ground arith, ground arith)
