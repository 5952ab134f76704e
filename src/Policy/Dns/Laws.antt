-- ===== src/Policy/Dns/Laws.antt =====
-- Normalized host names.
use baffle.Prelude.{
  ◌≡◌, refl, ap, inl, inr, true, false, ◌||◌, List, [], ◌∷◌, ◌==◌, ok, arith, Bool-cases, ◌⊎◌,
  ||-eq-false, ◌++◌, Option-cases, sym, ◌∙◌, some,
}
use baffle.Prelude.Text.{
  Bytes, bytes, any, contains, split, to_ascii_lowercase, strip_suffix, is_empty, any-append,
  strip_suffix-split, lower-lower, strip_suffix-append, lower-append,
}
use baffle.Policy.Dns.{
  ParsedHost, domain, is_bad_host, is_bad_label, without_final_dot, normalize_dns_name,
}

contains-lower : (text : Bytes) → contains (to_ascii_lowercase text) b'*' ≡ contains text b'*'
unfolding any
contains-lower [] = refl
contains-lower (c ∷ text) = ground (arith, contains-lower text)

-- Without its final dot, a text is the text itself or what stands before the dot.
without_final_dot_cases :
    (text : Bytes) → (without_final_dot text ≡ text) ⊎ (text ≡ without_final_dot text ++ bytes ".")
unfolding without_final_dot
without_final_dot_cases text = elim (Option-cases (strip_suffix text (bytes "."))) [
  | inl e ↦ inl (rw (e, without_final_dot) refl)
  | inr (host, e) ↦ inr (rw (e, without_final_dot) (strip_suffix-split text (bytes ".") e))
]

contains-without_final_dot :
    (text : Bytes) → contains text b'*' ≡ false → contains (without_final_dot text) b'*' ≡ false
contains-without_final_dot text h = elim (without_final_dot_cases text) [
  | inl same ↦ rw same h
  | inr split_off ↦
      let host = without_final_dot text in
      ground
        (arith, any-append (λ b. b == b'*') host (bytes "."), ap (λ t. contains t b'*') split_off)
]

same_some : (a b : Bytes) → some a ≡ some b → a ≡ b
same_some a b e = ground arith

lower-without_final_dot :
    (text : Bytes)
    → to_ascii_lowercase text ≡ text
    → to_ascii_lowercase (without_final_dot text) ≡ without_final_dot text
lower-without_final_dot text h = elim (without_final_dot_cases text) [
  | inl same ↦ rw same h
  | inr split_off ↦
      let host = without_final_dot text in
      same_some _ _ (
        sym (strip_suffix-append (to_ascii_lowercase host) (bytes "."))
        ∙ ap (λ t. strip_suffix t (bytes "."))
            (sym (lower-append host (bytes "."))
              ∙ ap to_ascii_lowercase (sym split_off)
              ∙ h
              ∙ split_off)
        ∙ strip_suffix-append host (bytes "."))
]

-- The last label of a name that ends in a dot is empty.
empty_last_label :
    (p : Bytes)
    → (w : Bytes) × (ws : List Bytes) × (split b'.' (p ++ bytes ".") ≡ w ∷ ws)
      × (any is_bad_label ws ≡ true)
unfolding split any is_bad_label
empty_last_label [] = ([], ([] ∷ []), refl, refl)
empty_last_label (c ∷ p) =
    let (w, ws, e, bad) = empty_last_label p in
    elim (Bool-cases (c == b'.')) [
      | inl dot ↦ ([], w ∷ ws, ground arith, ground arith)
      | inr other ↦ (c ∷ w, ws, ground arith, bad)
    ]

-- So a name with good labels does not end in a dot.
no_final_dot :
    (host : Bytes) → any is_bad_label (split b'.' host) ≡ false → without_final_dot host ≡ host
no_final_dot host good = elim (without_final_dot_cases host) [
  | inl same ↦ same
  | inr split_off ↦
      let (w, ws, e, bad) = empty_last_label (without_final_dot host) in
      absurd (unfold any in ground (arith, ap (λ t. any is_bad_label (split b'.' t)) split_off))
]

bad_host-empty : (host : Bytes) → is_bad_host host ≡ false → is_empty host ≡ false
unfolding is_bad_host
bad_host-empty host h = ground arith

module _ (parse_host : Bytes → ParsedHost) where
  -- What an accepted name has passed.
  pub record Normalized (input name : Bytes) : Type 0 where
    pub exact : (is_empty input || contains input b'*') ≡ false
    pub good_host : is_bad_host (without_final_dot (to_ascii_lowercase input)) ≡ false
    pub good_labels :
        any is_bad_label (split b'.' (without_final_dot (to_ascii_lowercase input))) ≡ false
    pub parsed : parse_host (without_final_dot (to_ascii_lowercase input)) ≡ domain name

  pub normalize_dns_name-Normalized :
      (input name : Bytes) → normalize_dns_name parse_host input ≡ ok name → Normalized input name
  normalize_dns_name-Normalized input name e = record {
    exact = unfold normalize_dns_name in ground arith;
    good_host = unfold normalize_dns_name in ground arith;
    good_labels = unfold normalize_dns_name in ground arith;
    parsed = unfold normalize_dns_name in ground arith;
  }

  Normalized-normalize_dns_name :
      (input name : Bytes) → Normalized input name → normalize_dns_name parse_host input ≡ ok name
  unfolding normalize_dns_name
  Normalized-normalize_dns_name input name v = rw (v.exact, v.good_host, v.good_labels, v.parsed)

  -- What the URL standard says of a text that is a domain, if it is in lower case and its labels are
  -- letters, digits and inner hyphens: nothing in it is decoded or mapped, and it is its own ASCII
  -- form. Of percent signs, of letters beyond ASCII and of capitals nothing is said.
  module _
      (keeps : (host name : Bytes)
        → to_ascii_lowercase host ≡ host
        → is_bad_host host ≡ false
        → any is_bad_label (split b'.' host) ≡ false
        → parse_host host ≡ domain name
        → name ≡ host) where
    -- If `Host::parse` gives a domain back as it is, whenever it is in lower case with labels of
    -- letters, digits and inner hyphens, then a normalized name is its own normal form.
    pub normalize_dns_name_idempotent :
        (input name : Bytes)
        → normalize_dns_name parse_host input ≡ ok name
        → normalize_dns_name parse_host name ≡ ok name
    normalize_dns_name_idempotent input name e =
        let v = normalize_dns_name-Normalized input name e in
        let lowered = to_ascii_lowercase input in
        let host = without_final_dot lowered in
        let fixed = lower-without_final_dot lowered (lower-lower input) in
        let same : name ≡ host = keeps host name fixed v.good_host v.good_labels v.parsed in
        let again : without_final_dot (to_ascii_lowercase host) ≡ host =
          ap without_final_dot fixed ∙ no_final_dot host v.good_labels in
        let starless : contains host b'*' ≡ false =
          contains-without_final_dot lowered (
            contains-lower input
            ∙ (||-eq-false (is_empty input) (contains input b'*') v.exact).1) in
        rw same (
          Normalized-normalize_dns_name host host (record {
            exact = ground (arith, bad_host-empty host v.good_host, starless);
            good_host = rw again v.good_host;
            good_labels = rw again v.good_labels;
            parsed = rw again (v.parsed ∙ ap domain same);
          }))
