-- ===== src/Registry/Entry.antt =====
-- The checks of one directory in `validateTokens`, up to the tables.
use vinuchain_lists.Prelude.{
  ℕ, ◌+◌, ◌≡◌, ◌≢◌, refl, sym, ap, ◌∙◌, subst, inl, inr, true, Option, none, some, some-injective,
  List, [], ◌∷◌, ◌++◌, map, codes, contains, Text, All, append-eq-nil, Outcome-cases, Outcome, ok,
  threw, ◌>>=◌, >>=-eq-ok,
}
use vinuchain_lists.Json.{Json, null, lookup}
use vinuchain_lists.FilePath.{join}
use vinuchain_lists.SafeJson.{safe_read_json}
use vinuchain_lists.SafeJson.Laws.{IsClean, safe_read_json-eq-ok}
use vinuchain_lists.Files.{safe_path_join}
use vinuchain_lists.Address.{validate_token_address, zero_address_text}
use vinuchain_lists.Address.Laws.{IsAddress, validate_token_address-eq-ok}
use vinuchain_lists.Url.{ParsedUrl, validate_url, url_errors, validate_urls}
use vinuchain_lists.Email.{EmailWarning, validate_email}
use vinuchain_lists.Logo.{LogoWarning, validate_logo}
use vinuchain_lists.Registry.{
  TokenData, Setting, Rejection, one_error, schema_errors, no_errors, check_support, url_fields,
  decimals_warnings, check_entry,
}

first-injective :
    {a b : TokenData} {m n : ℕ}
    → ◌≡◌ {A = Outcome Rejection (TokenData × ℕ)} (ok (a, m)) (ok (b, n))
    → a ≡ b
first-injective {a} {b} {m} {n} h =
    let e : ◌≡◌ {A = TokenData × ℕ} (a, m) (b, n) = cc h in ap (λ p. p.0) e

one_error-eq-ok :
    {E A B : Type 0} (w : ℕ) (o : Outcome E A) (f : A → Outcome Rejection B) {b : B}
    → (one_error w o >>= f) ≡ ok b
    → (a : A) × (o ≡ ok a) × (f a ≡ ok b)
unfolding one_error
one_error-eq-ok w (ok a) f h = (a, refl, h)
one_error-eq-ok w (threw e) f h = cc h

schema_errors-eq-ok :
    {B : Type 0} (o : Outcome ℕ TokenData) (f : TokenData → Outcome Rejection B) {b : B}
    → (schema_errors o >>= f) ≡ ok b
    → (token : TokenData) × (o ≡ ok token) × (f token ≡ ok b)
unfolding schema_errors
schema_errors-eq-ok (ok a) f h = (a, refl, h)
schema_errors-eq-ok (threw n) f h = cc h

no_errors-eq-ok :
    {E B : Type 0} (es : List E) (f : Unit {0} → Outcome Rejection B) {b : B}
    → (no_errors es >>= f) ≡ ok b
    → (es ≡ []) × (f tt ≡ ok b)
unfolding no_errors
no_errors-eq-ok [] f h = (refl, h)
no_errors-eq-ok (e ∷ es) f h = cc h

module _ (parse_url : Text → Option ParsedUrl) where
  -- A member that is there and not `null` passed the check of URLs.
  abbrev pub IsFineUrl : Option Json → Type 0
  IsFineUrl o = (v : Json) → o ≡ some v → v ≢ null → validate_url parse_url v ≡ ok tt

  url_errors-IsFineUrl : (o : Option Json) → url_errors parse_url o ≡ [] → IsFineUrl o
  unfolding url_errors
  url_errors-IsFineUrl none h v e differs = cc e
  url_errors-IsFineUrl (some null) h v e differs = absurd (differs (sym (some-injective e)))
  url_errors-IsFineUrl (some w) h v e differs = elim (Outcome-cases (validate_url parse_url w)) [
    | inl (u, fine) ↦ subst (λ x. validate_url parse_url x ≡ ok tt) (some-injective e) fine
    | inr (f, bad) ↦ cc (rw (bad, url_errors) at h)
  ]

  validate_urls-IsFineUrl :
      (os : List (Option Json)) → validate_urls parse_url os ≡ [] → All IsFineUrl os
  unfolding validate_urls
  validate_urls-IsFineUrl [] h = tt
  validate_urls-IsFineUrl (o ∷ os) h =
      let (first, rest) = append-eq-nil _ _ h in
      (url_errors-IsFineUrl o first, validate_urls-IsFineUrl os rest)

-- A support text with an `@` in it is an accepted email.
abbrev pub IsFineSupport : Option Text → Type 0
IsFineSupport o =
    (t : Text)
    → o ≡ some t
    → contains (codes "@") t ≡ true
    → (ws : List EmailWarning) × (validate_email t ≡ ok ws)

check_support-IsFineSupport : (o : Option Text) (n : ℕ) → check_support o ≡ ok n → IsFineSupport o
unfolding check_support
check_support-IsFineSupport none n h t e mail = cc e
check_support-IsFineSupport (some s) n h t e mail =
    let same = some-injective e in
    let (ws, fine, _) =
      one_error-eq-ok 0 (validate_email s) _ (rw (ap (contains (codes "@")) same ∙ mail) at h) in
    (ws, ap validate_email (sym same) ∙ fine)

module _ (r : Setting) where
  -- A directory that passes holds a file with JSON without dangerous members that conforms to the
  -- schema; the token's address is the name of the directory, a checksummed address other than zero;
  -- each URL that is there is accepted, and so are the support address, if it is an email, and the logo.
  pub check_entry-eq-ok :
      (dir : Text) (token : TokenData) (w : ℕ)
      → check_entry r dir ≡ ok (token, w)
      → (path : Text) × (value : Json) × (ws : List LogoWarning) × (safe_path_join r.cwd
            r.tokens_dir
            (dir ∷ (dir ++ codes ".json") ∷ [])
          ≡ ok path)
        × (safe_read_json r.parse r.fs path ≡ ok value)
        × IsClean value
        × (r.check_schema value ≡ ok token)
        × (token.address ≡ dir)
        × IsAddress dir
        × (dir ≢ zero_address_text)
        × (r.get_address dir ≡ some dir)
        × All (IsFineUrl r.parse_url) (map (λ k. lookup k token.members) url_fields)
        × IsFineSupport token.support
        × (validate_logo r.fs (join r.tokens_dir (dir ∷ [])) dir ≡ ok ws)
  unfolding check_entry
  check_entry-eq-ok dir token w h =
      let (path, joined, h₁) =
        one_error-eq-ok 0 (safe_path_join r.cwd r.tokens_dir (dir ∷ (dir ++ codes ".json") ∷ [])) _
          h in
      let (value, parsed, h₂) = one_error-eq-ok 0 (safe_read_json r.parse r.fs path) _ h₁ in
      let (read, conforms, h₃) = schema_errors-eq-ok (r.check_schema value) _ h₂ in
      let (c, addressed, h₄) =
        one_error-eq-ok 0
          (validate_token_address r.get_address r.cwd r.scripts_dir read.address dir) _ h₃ in
      let (urls, h₅) =
        no_errors-eq-ok (validate_urls r.parse_url (map (λ k. lookup k read.members) url_fields)) _
          h₄ in
      let (mail, supported, h₆) = >>=-eq-ok (check_support read.support) _ h₅ in
      let (ws, drawn, h₇) =
        one_error-eq-ok (mail + decimals_warnings read)
          (validate_logo r.fs (join r.tokens_dir (dir ∷ [])) read.address) _ h₆ in
      let same : read ≡ token = first-injective h₇ in
      let (named, _, shaped, other, checksummed, _, _) =
        validate_token_address-eq-ok r.get_address r.cwd r.scripts_dir read.address dir c
          addressed in
      let (_, _, _, _, _, _, _, _, _, _, clean) =
        safe_read_json-eq-ok r.parse r.fs path value parsed in
      (
        path,
        value,
        ws,
        joined,
        parsed,
        clean,
        conforms ∙ ap ok same,
        ap (λ x. x.address) (sym same) ∙ named,
        shaped,
        other,
        checksummed,
        subst (λ x. All (IsFineUrl r.parse_url) (map (λ k. lookup k x.members) url_fields)) same
            (validate_urls-IsFineUrl r.parse_url _ urls),
        subst (λ x. IsFineSupport x.support) same
            (check_support-IsFineSupport read.support mail supported),
        ap (λ a. validate_logo r.fs (join r.tokens_dir (dir ∷ [])) a) (sym named) ∙ drawn,
      )
