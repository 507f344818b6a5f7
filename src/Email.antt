-- ===== src/Email.antt =====
-- scripts/validators/email-validator.js.
pub mod Laws
use vinuchain_lists.Prelude.{
  ℕ, Bool, true, false, ◌&&◌, ◌||◌, not, Option, none, some, List, [], ◌∷◌, ◌++◌, Text, codes,
  text_eq, includes, to_lower, ◌==◌, if◌then◌else◌, Outcome, ok, threw, ◌>>=◌, ◌>>◌, require,
}
use vinuchain_lists.Regex.{
  Regex, unit, seq, star, text, plus, opt, up_to, matches, is_alnum, one_of,
}

pub data EmailError : Type 0 where
  bad_format disposable reserved : EmailError

-- The domain that was perhaps meant. The table is an object with a prototype, and so has a member
-- `constructor` too.
pub data EmailWarning : Type 0 where
  did_you_mean : Text → EmailWarning
  did_you_mean_inherited : EmailWarning

abbrev pub label : Regex
label =
    seq (unit is_alnum)
      (opt (seq (up_to 61 (unit (λ c. is_alnum c || (c == b'-')))) (unit is_alnum)))

abbrev pub is_local : ℕ → Bool
is_local c = is_alnum c || one_of (codes ".!#$%&'*+/=?^_`{|}~-") c

-- `emailRegex`
abbrev pub email_regex : Regex
email_regex =
    seq (plus (unit is_local))
      (seq (text (codes "@")) (seq label (star (seq (text (codes ".")) label))))

-- `isValidEmailFormat` of a string
unfoldable pub is_valid_email_format : Text → Bool
is_valid_email_format t = matches email_regex t

-- `email.split('@')`, as the text before the first `@` and, if there is one, what follows.
unfoldable pub after_at : Text → Option Text
after_at [] = none
after_at (c ∷ t) = if c == b'@' then some t else after_at t

-- `none` is `null`. A valid email has one `@`.
unfoldable pub extract_domain : Text → Option Text
unfolding to_lower
extract_domain t =
    if is_valid_email_format t
    then (elim (after_at t) [ none ↦ none | some domain ↦ some (to_lower domain) ])
    else none

abbrev pub disposable_email_domains : List Text
disposable_email_domains =
    codes "tempmail.com"
    ∷ codes "guerrillamail.com"
    ∷ codes "10minutemail.com"
    ∷ codes "mailinator.com"
    ∷ codes "throwaway.email"
    ∷ codes "temp-mail.org"
    ∷ codes "sharklasers.com"
    ∷ codes "guerrillamail.info"
    ∷ codes "grr.la"
    ∷ codes "maildrop.cc"
    ∷ []

abbrev pub reserved_email_domains : List Text
reserved_email_domains =
    codes "localhost"
    ∷ codes "example.com"
    ∷ codes "example.org"
    ∷ codes "example.net"
    ∷ codes "test.com"
    ∷ codes "invalid"
    ∷ []

unfoldable pub is_disposable_email : Text → Bool
is_disposable_email t = elim (extract_domain t) [
  | none ↦ false
  | some domain ↦ includes disposable_email_domains domain
]

unfoldable pub is_reserved_email : Text → Bool
is_reserved_email t = elim (extract_domain t) [
  | none ↦ false
  | some domain ↦ includes reserved_email_domains domain
]

-- `commonTypos[domain]`
unfoldable pub typo_warnings : Text → List EmailWarning
unfolding text_eq
typo_warnings domain =
    if text_eq domain (codes "gmail.co")
    then did_you_mean (codes "gmail.com") ∷ []
    else if text_eq domain (codes "gmial.com")
    then did_you_mean (codes "gmail.com") ∷ []
    else if text_eq domain (codes "gmai.com")
    then did_you_mean (codes "gmail.com") ∷ []
    else if text_eq domain (codes "outlook.co")
    then did_you_mean (codes "outlook.com") ∷ []
    else if text_eq domain (codes "hotmail.co")
    then did_you_mean (codes "hotmail.com") ∷ []
    else if text_eq domain (codes "yahoo.co")
    then did_you_mean (codes "yahoo.com") ∷ []
    else if text_eq domain (codes "constructor")
    then did_you_mean_inherited ∷ []
    else []

unfoldable pub domain_warnings : Option Text → List EmailWarning
domain_warnings none = []
domain_warnings (some domain) = typo_warnings domain

unfoldable pub validate_email : Text → Outcome EmailError (List EmailWarning)
validate_email t = do
  require (is_valid_email_format t) bad_format
  require (not (is_disposable_email t)) disposable
  require (not (is_reserved_email t)) reserved
  ok (domain_warnings (extract_domain t))
