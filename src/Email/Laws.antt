-- ===== src/Email/Laws.antt =====
-- Which addresses of an email pass.
use vinuchain_lists.Prelude.{
  ℕ, ◌≡◌, ◌≢◌, refl, sym, ap, ◌∙◌, inl, inr, Bool, true, false, not, some, List, [], ◌∷◌, ◌++◌,
  Text, codes, In, includes, includes_iff, to_lower, All, ◌==◌, ok, require-eq-ok, arith,
  Bool-cases, ==_iff,
}
use vinuchain_lists.Regex.{Regex, seq, star, text}
use vinuchain_lists.Regex.Laws.{Matches, matches_iff, seq_inv}
use vinuchain_lists.Regex.Classes.{Accepted, seq-text_iff, seq-unit_iff, star_iff}
use vinuchain_lists.Email.{
  EmailWarning, bad_format, disposable, reserved, label, is_local, email_regex,
  is_valid_email_format, after_at, extract_domain, disposable_email_domains, reserved_email_domains,
  is_disposable_email, is_reserved_email, domain_warnings, validate_email,
}

-- One or more dot-separated labels.
abbrev pub domain_regex : Regex
domain_regex = seq label (star (seq (text (codes ".")) label))

-- The text is a local part, an `@` and a domain.
abbrev pub IsEmail : Text → Text → Text → Type 0
IsEmail user domain t =
    (t ≡ user ++ b'@' ∷ domain)
    × (user ≢ [])
    × All (Accepted is_local) user
    × Matches domain_regex domain

is_valid_email_format-IsEmail :
    (t : Text)
    → is_valid_email_format t ≡ true
    → (user : Text) × (domain : Text) × IsEmail user domain t
unfolding is_valid_email_format
is_valid_email_format-IsEmail t h =
    let (user, v, m, n, e) = seq_inv ((matches_iff email_regex t).0 h) in
    let (c, rest, e₁, hc, s) = (seq-unit_iff is_local _ user).0 m in
    let (domain, e₂, d) = (seq-text_iff (codes "@") _ v).0 n in
    (
      user,
      domain,
      (
        e ∙ ap (λ w. user ++ w) e₂,
        λ empty. cc (sym e₁ ∙ empty),
        rw e₁ (hc, (star_iff is_local rest).0 s),
        d,
      ),
    )

is_local-at : (c : ℕ) → Accepted is_local c → (c == b'@') ≡ false
is_local-at c h = elim (Bool-cases (c == b'@')) [
  | inl same ↦ absurd (ground (arith, (rw ((==_iff c b'@').0 same) at h)))
  | inr other ↦ other
]

after_at-append :
    (user domain : Text)
    → All (Accepted is_local) user
    → after_at (user ++ b'@' ∷ domain) ≡ some domain
unfolding after_at
after_at-append [] domain h = refl
after_at-append (c ∷ user) domain (h, hs) = rw (is_local-at c h) (after_at-append user domain hs)

extract_domain-email :
    (user domain t : Text)
    → is_valid_email_format t ≡ true
    → IsEmail user domain t
    → extract_domain t ≡ some (to_lower domain)
unfolding extract_domain
extract_domain-email user domain t valid (e, _, h, _) =
    rw (valid, ap after_at e ∙ after_at-append user domain h) refl

includes_absent : (ss : List Text) (t : Text) → includes ss t ≡ false → In t ss → ⊥
includes_absent ss t h m = absurd (ground (arith, h, (includes_iff ss t).1 m))

not-eq-true : (b : Bool) → not b ≡ true → b ≡ false
not-eq-true b h = ground arith

is_disposable_email-domain :
    (t domain : Text)
    → extract_domain t ≡ some domain
    → is_disposable_email t ≡ includes disposable_email_domains domain
unfolding is_disposable_email
is_disposable_email-domain t domain found = rw (found, is_disposable_email) refl

is_reserved_email-domain :
    (t domain : Text)
    → extract_domain t ≡ some domain
    → is_reserved_email t ≡ includes reserved_email_domains domain
unfolding is_reserved_email
is_reserved_email-domain t domain found = rw (found, is_reserved_email) refl

-- An accepted text is a local part, an `@` and a domain; the domain in lower case is none of the
-- disposable ones and none of the reserved ones, and the warnings are those of that domain.
pub validate_email-eq-ok :
    (t : Text) (ws : List EmailWarning)
    → validate_email t ≡ ok ws
    → (user : Text) × (domain : Text) × IsEmail user domain t
      × (In (to_lower domain) disposable_email_domains → ⊥)
      × (In (to_lower domain) reserved_email_domains → ⊥)
      × (ws ≡ domain_warnings (some (to_lower domain)))
unfolding validate_email
validate_email-eq-ok t ws h =
    let (valid, h₁) = require-eq-ok (is_valid_email_format t) bad_format _ h in
    let (kept, h₂) = require-eq-ok (not (is_disposable_email t)) disposable _ h₁ in
    let (free, h₃) = require-eq-ok (not (is_reserved_email t)) reserved _ h₂ in
    let (user, domain, shaped) = is_valid_email_format-IsEmail t valid in
    let found = extract_domain-email user domain t valid shaped in
    let warned : domain_warnings (extract_domain t) ≡ ws = cc h₃ in
    (
      user,
      domain,
      shaped,
      includes_absent disposable_email_domains (to_lower domain)
          (sym (is_disposable_email-domain t _ found) ∙ not-eq-true _ kept),
      includes_absent reserved_email_domains (to_lower domain)
          (sym (is_reserved_email-domain t _ found) ∙ not-eq-true _ free),
      sym warned ∙ ap domain_warnings found,
    )
