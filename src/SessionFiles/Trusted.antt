-- ===== src/SessionFiles/Trusted.antt =====
-- What a session file that src/control/file_config.rs read is known to be.
use baffle.Prelude.{
  ℕ, ◌+◌, ◌≤◌, ◌≡◌, sym, true, false, not, List, [], ◌∷◌, ok, map_err, bind-eq-ok, fail_if-eq-ok,
  ok-injective, arith, Bool, ltb, ◌==◌, ◌&&◌, ◌||◌, subst, map_err-eq-ok,
}
use baffle.Prelude.Text.{Bytes, any, length, split}
use baffle.Secrets.{Metadata, bit, special_bits}
use baffle.SessionFiles.Access.{
  Files, max_session_config_bytes, trusted_owner, validate_config_directory_metadata, is_bad_file,
  c_string, enter_directory, read_file, descend, read_snapshot,
}

-- Nobody but the trusted user and root can change what has such metadata.
abbrev pub IsGuarded : Metadata → ℕ → Type 0
IsGuarded metadata trusted_uid =
    (trusted_owner metadata.uid trusted_uid ≡ true)
    × (bit 16 metadata.mode ≡ false)
    × (bit 2 metadata.mode ≡ false)

guarded_lem :
    (owner writable other sticky : Bool)
    → ((writable || other) && not (false && sticky)) ≡ false
    → (writable ≡ false) × (other ≡ false)
guarded_lem owner writable other sticky h = ground arith

owner_lem : (dir owned : Bool) → (not dir || not owned) ≡ false → (dir ≡ true) × (owned ≡ true)
owner_lem dir owned h = ground arith

-- A directory below the store's own that was entered.
directory-IsGuarded :
    (metadata : Metadata) (trusted_uid : ℕ) {u : Unit {0}}
    → validate_config_directory_metadata metadata trusted_uid false ≡ ok u
    → (metadata.is_dir ≡ true) × IsGuarded metadata trusted_uid
unfolding validate_config_directory_metadata
directory-IsGuarded metadata trusted_uid e =
    let (owned, e1) =
      fail_if-eq-ok (not metadata.is_dir || not (trusted_owner metadata.uid trusted_uid)) _ _ e in
    let (unwritable, e2) =
      fail_if-eq-ok
        ((bit 16 metadata.mode || bit 2 metadata.mode) && not (false && bit 512 metadata.mode)) _ _
        e1 in
    let (dir, owner) = owner_lem metadata.is_dir (trusted_owner metadata.uid trusted_uid) owned in
    let (group, other) =
      guarded_lem true (bit 16 metadata.mode) (bit 2 metadata.mode) (bit 512 metadata.mode)
        unwritable in
    (dir, (owner, group, other))

file_lem :
    (file owner special group other readable : Bool)
    → (not file || not owner || (not special || group || other) || not readable) ≡ false
    → (file ≡ true) × (owner ≡ true) × (group ≡ false) × (other ≡ false)
file_lem file owner special group other readable h = ground arith

file-IsGuarded :
    (metadata : Metadata) (trusted_uid : ℕ)
    → is_bad_file metadata trusted_uid ≡ false
    → (metadata.is_file ≡ true) × IsGuarded metadata trusted_uid
unfolding is_bad_file
file-IsGuarded metadata trusted_uid h =
    let (file, owner, group, other) =
      file_lem metadata.is_file (trusted_owner metadata.uid trusted_uid)
        (special_bits metadata.mode == 0) (bit 16 metadata.mode) (bit 2 metadata.mode)
        (bit 256 metadata.mode || bit 32 metadata.mode || bit 4 metadata.mode) h in
    (file, (owner, group, other))

module _ (files : Files) (trusted_uid : ℕ) where
  open files use {
    Directory, File, open_directory, open_file, directory_metadata, file_metadata, read_to_end,
    is_utf8,
  }

  -- The path leads from a directory to a file, through directories that are guarded.
  unfoldable pub Reaches : Directory → List Bytes → File → Type 0
  Reaches directory [] file = ⊥
  Reaches directory (component ∷ []) file = open_file directory component ≡ ok file
  Reaches directory (component ∷ next ∷ rest) file =
      (inner : Directory) × (metadata : Metadata) × (open_directory directory component ≡ ok inner)
      × (directory_metadata inner ≡ ok metadata)
      × IsGuarded metadata trusted_uid
      × Reaches inner (next ∷ rest) file

  -- The text is that of a guarded regular file, whole, of at most 256 KiB and in UTF-8.
  abbrev pub Contains : File → Bytes → Type 0
  Contains file text =
      (metadata : Metadata) × (file_metadata file ≡ ok metadata)
      × (metadata.is_file ≡ true)
      × IsGuarded metadata trusted_uid
      × (read_to_end file (max_session_config_bytes + 1) ≡ ok text)
      × (length text ≤ max_session_config_bytes)
      × (is_utf8 text ≡ true)

  c_string-ok : (name component out : Bytes) → c_string name component ≡ ok out → component ≡ out
  unfolding c_string
  c_string-ok name component out e =
      ok-injective (fail_if-eq-ok (any (λ c. c == 0) component) _ _ e).1

  read_file-Contains :
      (name : Bytes) (directory : Directory) (component text : Bytes)
      → read_file files trusted_uid name directory component ≡ ok text
      → (file : File) × (open_file directory component ≡ ok file) × Contains file text
  unfolding read_file
  read_file-Contains name directory component text e =
      let (checked, e0, r0) = bind-eq-ok (c_string name component) _ e in
      let (file, e1, r1) = bind-eq-ok (map_err _ (open_file directory checked)) _ r0 in
      let (metadata, e2, r2) = bind-eq-ok (map_err _ (file_metadata file)) _ r1 in
      let (good, r3) = fail_if-eq-ok (is_bad_file metadata trusted_uid) _ _ r2 in
      let (_, r4) = fail_if-eq-ok (ltb max_session_config_bytes metadata.len) _ _ r3 in
      let (read, e5, r5) =
        bind-eq-ok (map_err _ (read_to_end file (max_session_config_bytes + 1))) _ r4 in
      let (small, r6) = fail_if-eq-ok (ltb max_session_config_bytes (length read)) _ _ r5 in
      let (utf8, r7) = fail_if-eq-ok (not (is_utf8 read)) _ _ r6 in
      let (regular, guarded) = file-IsGuarded metadata trusted_uid good in
      let opened : open_file directory component ≡ ok file =
        subst (λ c. open_file directory c ≡ ok file) (sym (c_string-ok name component checked e0))
          (map_err-eq-ok _ _ e1) in
      (
        file,
        opened,
        subst (Contains file) (ok-injective r7) (
          metadata,
          map_err-eq-ok _ _ e2,
          regular,
          guarded,
          map_err-eq-ok _ _ e5,
          ground arith,
          ground arith,
        ),
      )

  enter_directory-IsGuarded :
      (name : Bytes) (directory : Directory) (component : Bytes) (inner : Directory)
      → enter_directory files trusted_uid name directory component ≡ ok inner
      → (metadata : Metadata) × (open_directory directory component ≡ ok inner)
        × (directory_metadata inner ≡ ok metadata)
        × IsGuarded metadata trusted_uid
  unfolding enter_directory
  enter_directory-IsGuarded name directory component inner e =
      let (checked, e0, r0) = bind-eq-ok (c_string name component) _ e in
      let (entered, e1, r1) = bind-eq-ok (map_err _ (open_directory directory checked)) _ r0 in
      let (metadata, e2, r2) = bind-eq-ok (map_err _ (directory_metadata entered)) _ r1 in
      let (u, e3, r3) =
        bind-eq-ok (map_err _ (validate_config_directory_metadata metadata trusted_uid false)) _
          r2 in
      let (dir, guarded) = directory-IsGuarded metadata trusted_uid (map_err-eq-ok _ _ e3) in
      let opened : open_directory directory component ≡ ok entered =
        subst (λ c. open_directory directory c ≡ ok entered)
          (sym (c_string-ok name component checked e0)) (map_err-eq-ok _ _ e1) in
      subst
        (λ d.
          (metadata : Metadata) × (open_directory directory component ≡ ok d)
          × (directory_metadata d ≡ ok metadata)
          × IsGuarded metadata trusted_uid)
        (ok-injective r3) (metadata, opened, map_err-eq-ok _ _ e2, guarded)

  descend-Reaches :
      (name : Bytes) (directory : Directory) (components : List Bytes) (text : Bytes)
      → descend files trusted_uid name directory components ≡ ok text
      → (file : File) × Reaches directory components file × Contains file text
  unfolding descend Reaches
  descend-Reaches name directory [] text e = absurd (ground arith)
  descend-Reaches name directory (component ∷ []) text e =
      read_file-Contains name directory component text e
  descend-Reaches name directory (component ∷ next ∷ rest) text e =
      let (inner, e0, r0) =
        bind-eq-ok (enter_directory files trusted_uid name directory component) _ e in
      let (metadata, opened, known, guarded) =
        enter_directory-IsGuarded name directory component inner e0 in
      let (file, reaches, contains) = descend-Reaches name inner (next ∷ rest) text r0 in
      (file, (inner, metadata, opened, known, guarded, reaches), contains)

  -- The text that was read for a name is the whole content of a regular file, of at most 256 KiB and
  -- in UTF-8, at the path of the name below the store's directory; the file and each directory on the
  -- way belong to the trusted user or root, and neither group nor others can write them.
  pub read_snapshot-Reaches :
      (root : Directory) (name text : Bytes)
      → read_snapshot files trusted_uid (ok root) name ≡ ok text
      → (file : File) × Reaches root (split b'/' name) file × Contains file text
  unfolding read_snapshot
  read_snapshot-Reaches root name text e = descend-Reaches name root (split b'/' name) text e
