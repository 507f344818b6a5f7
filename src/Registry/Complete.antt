-- ===== src/Registry/Complete.antt =====
-- What the loop of `validateTokens` counts, and which directories it visits.
use vinuchain_lists.Prelude.{
  ℕ, ◌+◌, ◌≤◌, ◌≡◌, refl, ap, ◌∙◌, subst, inl, inr, true, Option, none, some, List, [], ◌∷◌, ◌++◌,
  map, codes, Text, All, contains, length, ltb, filter_by, arith, Bool-cases, Option-cases,
  Outcome-cases, Outcome, ok, threw, ◌>>=◌,
}
use vinuchain_lists.Json.{lookup}
use vinuchain_lists.FilePath.{join}
use vinuchain_lists.SafeJson.{safe_read_json}
use vinuchain_lists.Files.{safe_path_join}
use vinuchain_lists.Address.{validate_token_address, validate_address_directory}
use vinuchain_lists.Url.{validate_urls}
use vinuchain_lists.Email.{validate_email}
use vinuchain_lists.Logo.{validate_logo}
use vinuchain_lists.Registry.{
  has, put, TokenData, Setting, State, key_of, register, Rejection, one_error, schema_errors,
  no_errors, check_support, url_fields, decimals_warnings, or_collision, after_checks, check_entry,
  visit_all, filter_dirs, after_listing, validate_tokens, max_tokens,
}
use vinuchain_lists.Registry.Invariant.{register_inv}
use vinuchain_lists.Registry.Tables.{has-put, has-put_same}

-- A rejection counts at least one error.
abbrev pub Counted : {A : Type 0} → Outcome Rejection A → Type 0
Counted o = (e : Rejection) → o ≡ threw e → 1 ≤ e.error_count

pub threw-injective :
    {A : Type 0} {d e : Rejection} → ◌≡◌ {A = Outcome Rejection A} (threw d) (threw e) → d ≡ e
threw-injective h = cc h

pub count_seq :
    {A B : Type 0} (o : Outcome Rejection A) (f : A → Outcome Rejection B) {e : Rejection}
    → (o >>= f) ≡ threw e
    → Counted o
    → ((a : A) → f a ≡ threw e → 1 ≤ e.error_count)
    → 1 ≤ e.error_count
count_seq (ok a) f h first rest = rest a h
count_seq (threw d) f {e} h first rest = first e (cc h)

pub one_error-Counted : {E A : Type 0} (w : ℕ) (o : Outcome E A) → Counted (one_error w o)
unfolding one_error
one_error-Counted w (ok a) e h = cc h
one_error-Counted w (threw d) e h =
    let same : ◌≡◌ {A = Rejection} (record { error_count = 1; warning_count = w }) e =
      threw-injective h in
    subst (λ n. 1 ≤ n) (ap (λ x. x.error_count) same) (omega arith)

schema_errors-Counted : (o : Outcome ℕ TokenData) → Counted (schema_errors o)
unfolding schema_errors
schema_errors-Counted (ok a) e h = cc h
schema_errors-Counted (threw n) e h =
    let same : ◌≡◌ {A = Rejection} (record { error_count = 1 + n; warning_count = 0 }) e =
      threw-injective h in
    subst (λ n. 1 ≤ n) (ap (λ x. x.error_count) same) (omega arith)

pub no_errors-Counted : {E : Type 0} (es : List E) → Counted (no_errors es)
unfolding no_errors
no_errors-Counted [] e h = cc h
no_errors-Counted (x ∷ xs) e h =
    let same : ◌≡◌ {A = Rejection} (record { error_count = length (x ∷ xs); warning_count = 0 }) e =
      threw-injective h in
    subst (λ n. 1 ≤ n) (ap (λ x. x.error_count) same) (omega arith)

pub ok-Counted : {A : Type 0} (a : A) → Counted (ok a)
ok-Counted a e h = cc h

check_support-Counted : (o : Option Text) → Counted (check_support o)
unfolding check_support
check_support-Counted none e h = cc h
check_support-Counted (some t) e h = elim (Bool-cases (contains (codes "@") t)) [
  | inl mail ↦
      count_seq (one_error 0 (validate_email t)) _ (rw mail at h)
        (one_error-Counted 0 (validate_email t)) (λ ws never. cc never)
  | inr other ↦ cc (rw other at h)
]

module _ (r : Setting) where
  check_entry-Counted : (dir : Text) → Counted (check_entry r dir)
  unfolding check_entry
  check_entry-Counted dir e h =
      count_seq
        (one_error 0 (safe_path_join r.cwd r.tokens_dir (dir ∷ (dir ++ codes ".json") ∷ []))) _ h
        (one_error-Counted 0 _)
        (λ path h₁.
          count_seq (one_error 0 (safe_read_json r.parse r.fs path)) _ h₁ (one_error-Counted 0 _)
            (λ value h₂.
              count_seq (schema_errors (r.check_schema value)) _ h₂ (schema_errors-Counted _)
                (λ token h₃.
                  count_seq
                    (one_error 0
                      (validate_token_address r.get_address r.cwd r.scripts_dir token.address dir))
                    _ h₃ (one_error-Counted 0 _)
                    (λ c h₄.
                      count_seq
                        (no_errors (
                          validate_urls r.parse_url (map (λ k. lookup k token.members) url_fields)))
                        _ h₄ (no_errors-Counted _)
                        (λ u h₅.
                          count_seq (check_support token.support) _ h₅
                            (check_support-Counted token.support)
                            (λ mail h₆.
                              count_seq
                                (one_error (mail + decimals_warnings token)
                                  (validate_logo r.fs (join r.tokens_dir (dir ∷ [])) token.address))
                                _ h₆ (one_error-Counted _ _) (λ logo never. cc never)))))))

  -- The directory passed its checks with a token that the tables hold.
  abbrev pub Listed : State → Text → Type 0
  Listed s dir =
      (token : TokenData) × (w : ℕ) × (check_entry r dir ≡ ok (token, w))
      × (has s.token_addresses (key_of token) ≡ true)

  register_table :
      (s next : State) (token : TokenData)
      → register r s token ≡ some next
      → (next.errors ≡ s.errors)
        × (next.token_addresses ≡ put s.token_addresses (key_of token) token)
  register_table s next token h =
      let (_, _, _, made) = register_inv r s token next h in
      (ap (λ x. x.errors) made, ap (λ x. x.token_addresses) made)

  step_keeps :
      (s : State) (count : ℕ) (o : Outcome Rejection (TokenData × ℕ))
      → (s.errors ≤ ((after_checks r s count o).0).errors)
        × ((k : Text)
            → has s.token_addresses k ≡ true
            → has (((after_checks r s count o).0).token_addresses) k ≡ true)
  unfolding after_checks or_collision
  step_keeps s count (threw e) = (omega arith, λ k h. h)
  step_keeps s count (ok (token, w)) =
      let warned = record s { warnings = s.warnings + w } in
      elim (Option-cases (register r warned token)) [
        | inl refused ↦ rw refused (omega arith, λ k h. h)
        | inr (next, made) ↦
            let (same, table) = register_table warned next token made in
            rw made (
              omega (arith, same),
              λ k h. ap (λ t. has t k) table ∙ has-put s.token_addresses (key_of token) k token h,
            )
      ]

  step_clean :
      (s : State) (count : ℕ) (dir : Text) (o : Outcome Rejection (TokenData × ℕ))
      → check_entry r dir ≡ o
      → ((after_checks r s count o).0).errors ≤ s.errors
      → ((after_checks r s count o).1 ≡ count + 1) × Listed ((after_checks r s count o).0) dir
  unfolding after_checks or_collision
  step_clean s count dir (threw e) checked h =
      let one = check_entry-Counted dir e checked in absurd (omega (arith, one, h))
  step_clean s count dir (ok (token, w)) checked h =
      let warned = record s { warnings = s.warnings + w } in
      elim (Option-cases (register r warned token)) [
        | inl refused ↦ absurd (omega (arith, rw refused at h))
        | inr (next, made) ↦
            let (same, table) = register_table warned next token made in
            rw made (
              refl,
              (
                token,
                w,
                checked,
                ap (λ t. has t (key_of token)) table
                    ∙ has-put_same s.token_addresses (key_of token) token,
              ),
            )
      ]

  visit_keeps :
      (s : State) (count : ℕ) (dirs : List Text)
      → (s.errors ≤ ((visit_all r s count dirs).0).errors)
        × ((k : Text)
            → has s.token_addresses k ≡ true
            → has (((visit_all r s count dirs).0).token_addresses) k ≡ true)
  unfolding visit_all
  visit_keeps s count [] = (omega arith, λ k h. h)
  visit_keeps s count (dir ∷ dirs) =
      let next = after_checks r s count (check_entry r dir) in
      let (less, keep) = step_keeps s count (check_entry r dir) in
      let (later, kept) = visit_keeps (next.0) (next.1) dirs in
      (omega (arith, less, later), λ k h. kept k (keep k h))

  visit_clean :
      (s : State) (count : ℕ) (dirs : List Text)
      → ((visit_all r s count dirs).0).errors ≤ s.errors
      → ((visit_all r s count dirs).1 ≡ count + length dirs)
        × All (Listed ((visit_all r s count dirs).0)) dirs
  unfolding visit_all
  visit_clean s count [] h = (omega arith, tt)
  visit_clean s count (dir ∷ dirs) h =
      let next = after_checks r s count (check_entry r dir) in
      let (less, _) = step_keeps s count (check_entry r dir) in
      let (later, kept) = visit_keeps (next.0) (next.1) dirs in
      let (one, (token, w, checked, there)) =
        step_clean s count dir (check_entry r dir) refl (omega (arith, later, h)) in
      let (rest, listed) = visit_clean (next.0) (next.1) dirs (omega (arith, less, h)) in
      (omega (arith, one, rest), ((token, w, checked, kept (key_of token) there), listed))

  -- The directories of a listing.
  abbrev pub dirs_of : List Text → List Text
  dirs_of entries = filter_by (λ f. r.fs.is_directory (join r.tokens_dir (f ∷ []))) entries

  filter_dirs-clean :
      (entries : List Text)
      → (filter_dirs r entries).1 ≡ 0
      → (filter_dirs r entries).0 ≡ dirs_of entries
  unfolding filter_dirs
  filter_dirs-clean [] h = refl
  filter_dirs-clean (f ∷ fs) h =
      elim (Bool-cases (r.fs.is_directory (join r.tokens_dir (f ∷ [])))) [
        | inr file ↦ rw file (filter_dirs-clean fs (rw file at h))
        | inl dir ↦ elim (Outcome-cases (validate_address_directory r.cwd f r.tokens_dir)) [
          | inl (u, named) ↦
              rw (dir, named) (ap (λ t. f ∷ t) (filter_dirs-clean fs (rw (dir, named) at h)))
          | inr (e, bad) ↦ absurd (omega (arith, rw (dir, bad) at h))
        ]
      ]

  listing_clean :
      (s next : State) (n : ℕ) (listing : List Text × ℕ)
      → after_listing r s listing ≡ some (next, n)
      → next.errors ≡ s.errors
      → (listing.1 ≡ 0)
        × (length (listing.0) ≤ max_tokens)
        × (n ≡ length (listing.0))
        × All (Listed next) (listing.0)
  unfolding after_listing
  listing_clean s next n (dirs, bad) h same = elim (Bool-cases (ltb max_tokens (length dirs))) [
    | inl over ↦ cc (rw over at h)
    | inr within ↦
        let s₁ = record s { errors = s.errors + bad } in
        let made : visit_all r s₁ 0 dirs ≡ (next, n) = cc (rw within at h) in
        let end_state : (visit_all r s₁ 0 dirs).0 ≡ next = ap (λ x. x.0) made in
        let end_errors = ap (λ x. x.errors) end_state in
        let (less, _) = visit_keeps s₁ 0 dirs in
        let (count, listed) = visit_clean s₁ 0 dirs (omega (arith, same, end_errors)) in
        (
          omega (arith, less, same, end_errors),
          ground (arith, within),
          omega (arith, count, ap (λ x. x.1) made),
          subst (λ t. All (Listed t) dirs) end_state listed,
        )
  ]

  -- If the tokens' directory is there and lists `entries`, and the run ends without having counted an
  -- error, then every directory among them has passed all its checks and stands in the table under its
  -- token's key, and the result is their number, which is within the ceiling.
  pub validate_tokens-clean :
      (s next : State) (n : ℕ) (entries : List Text)
      → r.fs.exists r.tokens_dir ≡ true
      → r.fs.read_dir r.tokens_dir ≡ ok entries
      → validate_tokens r s ≡ some (next, n)
      → next.errors ≡ s.errors
      → (n ≡ length (dirs_of entries)) × (n ≤ max_tokens) × All (Listed next) (dirs_of entries)
  unfolding validate_tokens
  validate_tokens-clean s next n entries there listed h same =
      let (good, within, count, all_listed) =
        listing_clean s next n (filter_dirs r entries) (rw (there, listed) at h) same in
      let shape = filter_dirs-clean entries good in
      (
        count ∙ ap length shape,
        omega (arith, within, count),
        subst (All (Listed next)) shape all_listed,
      )
