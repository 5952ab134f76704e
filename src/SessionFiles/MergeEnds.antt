-- ===== src/SessionFiles/MergeEnds.antt =====
-- That no step of merging a session file (src/control/file_config.rs) uses up the rounds of the model.
use baffle.Prelude.{
  ◌≡◌, refl, true, false, Option, none, some, List, [], ◌∷◌, Result, ok, err, ◌>>=◌, ◌>>◌, fail_if,
  ok_or, map_err, arith, Bool,
}
use baffle.Prelude.Text.{Bytes}
use baffle.Prelude.Assoc.{Assoc}
use baffle.Policy.Types.{CredentialMode, UnmatchedHostPolicy, HostRule, SessionConfig}
use baffle.SessionFiles.Errors.{SessionConfigFileError}
use baffle.SessionFiles.Merge.{
  Stop, failed, exhausted, Composition, set_unmatched, set_credential_default, merge_modes,
  merge_rules, finish_root, merge_policy,
}

-- The rounds did not run out.
abbrev pub Ends : {A : Type 0} → Result Stop A → Type 0
Ends r = r ≡ err exhausted → ⊥

pub ok-Ends : {A : Type 0} (a : A) → Ends (ok a)
ok-Ends a e = ground arith

pub Ends-bind :
    {A B : Type 0} (m : Result Stop A) (f : A → Result Stop B)
    → Ends m
    → ((a : A) → m ≡ ok a → Ends (f a))
    → Ends (m >>= f)
Ends-bind (ok a) f h k e = k a refl e
Ends-bind (err (failed x)) f h k e = ground arith
Ends-bind (err exhausted) f h k e = h refl

pub fail_if-Ends :
    {A : Type 0} (b : Bool) (x : SessionConfigFileError) (k : Result Stop A)
    → Ends k
    → Ends (fail_if b (failed x) >> k)
fail_if-Ends true x k h e = ground arith
fail_if-Ends false x k h e = h e

pub fail_if-Ends_else :
    {A : Type 0} (b : Bool) (x : SessionConfigFileError) (k : Result Stop A)
    → (b ≡ false → Ends k)
    → Ends (fail_if b (failed x) >> k)
fail_if-Ends_else true x k h e = ground arith
fail_if-Ends_else false x k h e = h refl e

pub ok_or-Ends :
    {A : Type 0} (o : Option A) (x : SessionConfigFileError) → Ends (ok_or o (failed x))
ok_or-Ends none x e = ground arith
ok_or-Ends (some a) x e = ground arith

pub map_err-Ends :
    {E A : Type 0} (r : Result E A) (f : E → SessionConfigFileError)
    → Ends (map_err (λ e. failed (f e)) r)
map_err-Ends (ok a) f e = ground arith
map_err-Ends (err x) f e = ground arith

set_unmatched-Ends :
    (name : Bytes) (is_root explicit : Bool) (unmatched : UnmatchedHostPolicy) (c : Composition)
    → Ends (set_unmatched name is_root explicit unmatched c)
unfolding set_unmatched
set_unmatched-Ends name is_root false unmatched c = ok-Ends c
set_unmatched-Ends name true true unmatched c = search (fail_if-Ends, ok-Ends)
set_unmatched-Ends name false true unmatched c = search (fail_if-Ends, ok-Ends)

set_credential_default-Ends :
    (name : Bytes) (is_root : Bool) (mode : Option CredentialMode) (c : Composition)
    → Ends (set_credential_default name is_root mode c)
unfolding set_credential_default
set_credential_default-Ends name is_root none c = ok-Ends c
set_credential_default-Ends name true (some mode) c = search (fail_if-Ends, ok-Ends)
set_credential_default-Ends name false (some mode) c = search (fail_if-Ends, ok-Ends)

merge_modes-Ends : (modes : Assoc CredentialMode) (c : Composition) → Ends (merge_modes modes c)
unfolding merge_modes
merge_modes-Ends [] c = ok-Ends c
merge_modes-Ends ((secret, mode) ∷ rest) c = fail_if-Ends _ _ _ (merge_modes-Ends rest _)

merge_rules-Ends : (rules : List HostRule) (c : Composition) → Ends (merge_rules rules c)
unfolding merge_rules
merge_rules-Ends [] c = ok-Ends c
merge_rules-Ends (rule ∷ rest) c = fail_if-Ends _ _ _ (merge_rules-Ends rest _)

finish_root-Ends :
    (is_root : Bool) (policy : SessionConfig) (c : Composition)
    → Ends (finish_root is_root policy c)
unfolding finish_root
finish_root-Ends false policy c = ok-Ends c
finish_root-Ends true policy c = search (fail_if-Ends, ok-Ends)

pub merge_policy-Ends :
    (name : Bytes) (is_root explicit : Bool) (policy : SessionConfig) (c : Composition)
    → Ends (merge_policy name is_root explicit policy c)
unfolding merge_policy
merge_policy-Ends name is_root explicit policy c =
    Ends-bind (set_unmatched name is_root explicit policy.unmatched c) _
      (set_unmatched-Ends name is_root explicit policy.unmatched c)
      λ c1 e1.
        Ends-bind (set_credential_default name is_root policy.default_credential_mode c1) _
          (set_credential_default-Ends name is_root policy.default_credential_mode c1)
          λ c2 e2.
            Ends-bind (merge_modes policy.credential_modes c2) _
              (merge_modes-Ends policy.credential_modes c2)
              λ c3 e3.
                Ends-bind (merge_rules policy.rules c3) _ (merge_rules-Ends policy.rules c3)
                  λ c4 e4. finish_root-Ends is_root policy c4
