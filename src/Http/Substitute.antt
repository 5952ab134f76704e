-- ===== src/Http/Substitute.antt =====
-- When a fake value is replaced, and by what.
use baffle.Prelude.{
  ◌≡◌, refl, ap, ◌∙◌, inl, inr, ◌&&◌, Option, some, ◌∷◌, ◌++◌, arith, Option-cases, Bool-cases,
  &&-eq-true, sym,
}
use baffle.Prelude.Text.{
  Bytes, bytes, eq, eq→≡, split_once, split_once-split, to_ascii_lowercase, eq_ignore_ascii_case,
}
use baffle.Policy.Types.{InjectionFormat}
use baffle.Http.{
  HttpLibrary, substitute_bearer, replace_password, substitute_basic, substitute_value,
  substitute_header_secret, HeaderInjection, single,
}

module _ (lib : HttpLibrary) where
  open lib use {Headers, header_name, get_all, encode, decode}

  -- `Replaces format username fake real value new`: the value carries the fake secret where the
  -- format puts the secret, and the new value is the same with the real secret in its place.
  pub data Replaces (format : InjectionFormat) (username : Option Bytes)
      (fake real value new : Bytes) : Type 0 where
    whole :
        format ≡ InjectionFormat.raw
        → value ≡ fake
        → new ≡ real
        → Replaces format username fake real value new
    token :
        (scheme : Bytes)
        → format ≡ InjectionFormat.bearer
        → to_ascii_lowercase scheme ≡ bytes "bearer"
        → value ≡ scheme ++ (32 ∷ fake)
        → new ≡ scheme ++ (32 ∷ real)
        → Replaces format username fake real value new
    password :
        (scheme user encoded : Bytes)
        → format ≡ InjectionFormat.basic_password
        → to_ascii_lowercase scheme ≡ bytes "basic"
        → username ≡ some user
        → value ≡ scheme ++ (32 ∷ encoded)
        → decode encoded ≡ some (user ++ (b':' ∷ fake))
        → new ≡ scheme ++ (32 ∷ encode (user ++ (b':' ∷ real)))
        → Replaces format username fake real value new

  replace_password-eq-some :
      (decoded user fake real new : Bytes)
      → replace_password lib decoded user fake real ≡ some new
      → (decoded ≡ user ++ (b':' ∷ fake)) × (new ≡ user ++ (b':' ∷ real))
  unfolding replace_password
  replace_password-eq-some decoded user fake real new e =
      elim (Option-cases (split_once b':' decoded)) [
        | inl missing ↦ absurd (ground arith)
        | inr ((u, p), found) ↦
            ground (arith, split_once-split b':' decoded u p found, eq→≡ u user, eq→≡ p fake)
      ]

  substitute_bearer-Replaces :
      (username : Option Bytes) (value fake real new : Bytes)
      → substitute_bearer lib value fake real ≡ some new
      → Replaces InjectionFormat.bearer username fake real value new
  unfolding substitute_bearer
  substitute_bearer-Replaces username value fake real new e =
      elim (Option-cases (split_once 32 value)) [
        | inl missing ↦ absurd (ground arith)
        | inr ((scheme, secret), found) ↦
            elim (Bool-cases (eq_ignore_ascii_case scheme (bytes "Bearer") && eq secret fake)) [
              | inr miss ↦ absurd (ground arith)
              | inl hit ↦
                  let (named, same) =
                    &&-eq-true (eq_ignore_ascii_case scheme (bytes "Bearer")) (eq secret fake)
                      hit in
                  token scheme refl (eq→≡ _ _ named)
                    (split_once-split 32 value scheme secret found
                      ∙ ap (λ s. scheme ++ (32 ∷ s)) (eq→≡ secret fake same))
                    (ground arith)
            ]
      ]

  basic_value :
      (scheme new replacement : Bytes)
      → scheme ++ (32 ∷ encode replacement) ≡ new
      → new ≡ scheme ++ (32 ∷ encode replacement)
  basic_value scheme new replacement e = sym e

  substitute_basic-Replaces :
      (username : Option Bytes) (value fake real new : Bytes)
      → substitute_basic lib value username fake real ≡ some new
      → Replaces InjectionFormat.basic_password username fake real value new
  unfolding substitute_basic
  substitute_basic-Replaces username value fake real new e =
      elim (Option-cases (split_once 32 value)) [
        | inl missing ↦ absurd (ground arith)
        | inr ((scheme, encoded), found) ↦
            elim (Bool-cases (eq_ignore_ascii_case scheme (bytes "Basic"))) [
              | inr miss ↦ absurd (ground arith)
              | inl hit ↦ elim (Option-cases username) [
                | inl nobody ↦ absurd (ground arith)
                | inr (user, eu) ↦ elim (Option-cases (decode encoded)) [
                  | inl bad ↦ absurd (ground arith)
                  | inr (decoded, ed) ↦
                      elim (Option-cases (replace_password lib decoded user fake real)) [
                        | inl kept ↦ absurd (ground arith)
                        | inr (replacement, er) ↦
                            let (old, changed) =
                              replace_password-eq-some decoded user fake real replacement er in
                            password scheme user encoded refl (eq→≡ _ _ hit) eu
                              (split_once-split 32 value scheme encoded found) (ed ∙ ap some old)
                              (basic_value scheme new replacement (ground arith)
                                ∙ ap (λ r. scheme ++ (32 ∷ encode r)) changed)
                      ]
                ]
              ]
            ]
      ]

  by_format :
      (format : InjectionFormat) (injection : HeaderInjection) (value fake real new : Bytes)
      → injection.format ≡ format
      → substitute_value lib injection value fake real ≡ some new
      → Replaces format injection.username fake real value new
  unfolding substitute_value
  by_format InjectionFormat.raw injection value fake real new f e =
      whole refl (eq→≡ value fake (ground arith)) (ground arith)
  by_format InjectionFormat.bearer injection value fake real new f e =
      substitute_bearer-Replaces injection.username value fake real new (ground arith)
  by_format InjectionFormat.basic_password injection value fake real new f e =
      substitute_basic-Replaces injection.username value fake real new (ground arith)

  -- A header is substituted only if it has exactly one value, which is a text that carries the
  -- session's fake secret in the place that the format has for the secret (after the scheme, or as
  -- the password of the configured user); the new value differs only in having the real secret there.
  pub substitute_header_secret-Replaces :
      (headers : Headers) (injection : HeaderInjection) (fake real new : Bytes)
      → substitute_header_secret lib headers injection fake real ≡ some new
      → (name value : Bytes) × (header_name injection.header ≡ some name)
        × (single lib (get_all headers name) ≡ some value)
        × Replaces injection.format injection.username fake real value new
  unfolding substitute_header_secret
  substitute_header_secret-Replaces headers injection fake real new e =
      elim (Option-cases (header_name injection.header)) [
        | inl bad ↦ absurd (ground arith)
        | inr (name, en) ↦ elim (Option-cases (single lib (get_all headers name))) [
          | inl missing ↦ absurd (ground arith)
          | inr (value, ev) ↦ (
            name,
            value,
            en,
            ev,
            by_format injection.format injection value fake real new refl (ground arith),
          )
        ]
      ]
