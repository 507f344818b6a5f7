-- ===== src/Url/Laws.antt =====
-- Which values a URL field may have.
use vinuchain_lists.Prelude.{
  or-eq-true, ℕ, ◌≤◌, ◌≡◌, refl, sym, ap, ◌∙◌, ◌↔◌, ◌⊎◌, inl, inr, true, false, ◌||◌, not, Option,
  none, some, [], ◌∷◌, ◌++◌, Text, map, lower_unit, codes, text_eq, text_eq_iff, length, any, All,
  All-append, leb, leb→le, le→leb, is_space, ◌==◌, ok, >>=-eq-ok, require-eq-ok, require-eq-ok_last,
  require, arith,
}
use vinuchain_lists.Regex.{never, matches, regexes}
use vinuchain_lists.Regex.Laws.{matches_iff}
use vinuchain_lists.Regex.Classes.{Accepted, seq-text_iff, seq-unit_iff, star_iff}
use vinuchain_lists.Json.{Json, str}
use vinuchain_lists.Url.{
  ParsedUrl, not_https, blocked_host, odd_port, too_long, newline, whitespace, not_https_format,
  max_url_length, url_https_pattern, validate_url_text, validate_url_format, is_blocked_host,
  check_parsed, validate_url,
}

-- At most 500 code units: `https://` and at least one more, none of them white space.
abbrev pub IsHttpsText : Text → Type 0
IsHttpsText t =
    (length t ≤ max_url_length)
    × ((c : ℕ) × (u : Text) × (t ≡ codes "https://" ++ c ∷ u)
        × (is_space c ≡ false)
        × All (λ d. is_space d ≡ false) u)

abbrev pub IsSafeUrl : ParsedUrl → Type 0
IsSafeUrl url =
    (url.protocol ≡ codes "https:")
    × (is_blocked_host url.hostname ≡ false)
    × ((url.port ≡ []) ⊎ (url.port ≡ codes "443"))

not_spaces : (t : Text) → All (Accepted (λ c. not (is_space c))) t ↔ All (λ d. is_space d ≡ false) t
not_spaces [] = (λ h. h, λ h. h)
not_spaces (c ∷ t) = (
  λ (h, hs). (ground (arith, h), (not_spaces t).0 hs),
  λ (h, hs). (ground (arith, h), (not_spaces t).1 hs),
)

any_space : (t : Text) → All (λ d. is_space d ≡ false) t → any is_space t ≡ false
any_space [] h = refl
any_space (c ∷ t) (h, hs) = ground (arith, any_space t hs, h)

any_newline :
    (t : Text) → All (λ d. is_space d ≡ false) t → any (λ c. (c == 10) || (c == 13)) t ≡ false
any_newline [] h = refl
any_newline (c ∷ t) (h, hs) = ground (arith, any_newline t hs, h)

https_pattern_iff :
    (t : Text)
    → (matches url_https_pattern t ≡ true) ↔ (
        (c : ℕ) × (u : Text) × (t ≡ codes "https://" ++ c ∷ u)
        × (is_space c ≡ false)
        × All (λ d. is_space d ≡ false) u)
https_pattern_iff t = (
  λ h.
      let (w, e, m) =
        (seq-text_iff (codes "https://") _ t).0 ((matches_iff url_https_pattern t).0 h) in
      let (c, u, e₂, hc, n) = (seq-unit_iff _ _ w).0 m in
      (
        c,
        u,
        e ∙ ap (λ r. codes "https://" ++ r) e₂,
        ground (arith, hc),
        (not_spaces u).0 ((star_iff _ u).0 n),
      ),
  λ (c, u, e, hc, hu). (matches_iff url_https_pattern t).1 (
      (seq-text_iff (codes "https://") _ t).1 (
        c ∷ u,
        e,
        (seq-unit_iff _ _ (c ∷ u)).1
            (c, u, refl, ground (arith, hc), (star_iff _ u).1 ((not_spaces u).1 hu)),
      )),
)

validate_url_text-eq-ok : (t s : Text) → validate_url_text t ≡ ok s → (s ≡ t) × IsHttpsText t
unfolding validate_url_text
validate_url_text-eq-ok t s h =
    let (short, h₁) = require-eq-ok (leb (length t) max_url_length) too_long _ h in
    let (u, g, h₂) = >>=-eq-ok (require (not (any (λ c. (c == 10) || (c == 13)) t)) newline) _ h₁ in
    let (_, h₃) = require-eq-ok (not (any is_space t)) whitespace _ h₂ in
    let (shaped, h₄) = require-eq-ok (matches url_https_pattern t) not_https_format _ h₃ in
    (cc h₄, (leb→le (length t) max_url_length short, (https_pattern_iff t).0 shaped))

validate_url_text_complete : (t : Text) → IsHttpsText t → validate_url_text t ≡ ok t
unfolding validate_url_text
validate_url_text_complete t (short, (c, u, e, hc, hu)) =
    let whole : All (λ d. is_space d ≡ false) t = rw e (
      All-append _ (codes "https://") (c ∷ u)
        (refl, (refl, (refl, (refl, (refl, (refl, (refl, (refl, tt)))))))) (hc, hu)) in
    rw
      (
        le→leb (length t) max_url_length short,
        any_newline t whole,
        any_space t whole,
        (https_pattern_iff t).1 (c, u, e, hc, hu),
      )
      refl

port_iff :
    (port : Text)
    → ((text_eq port [] || text_eq port (codes "443")) ≡ true)
      ↔ ((port ≡ []) ⊎ (port ≡ codes "443"))
port_iff port = (
  λ h. elim ((or-eq-true _ _).0 h) [
    | inl e ↦ inl ((text_eq_iff port []).0 e)
    | inr e ↦ inr ((text_eq_iff port (codes "443")).0 e)
  ],
  λ h. (or-eq-true _ _).1 (elim h [
    | inl e ↦ inl ((text_eq_iff port []).1 e)
    | inr e ↦ inr ((text_eq_iff port (codes "443")).1 e)
  ]),
)

module _ (parse_url : Text → Option ParsedUrl) where
  check_parsed_sound :
      (o : Option ParsedUrl)
      → check_parsed parse_url o ≡ ok tt
      → (url : ParsedUrl) × (o ≡ some url) × IsSafeUrl url
  unfolding check_parsed
  check_parsed_sound none h = cc h
  check_parsed_sound (some url) h =
      let (secure, h₁) = require-eq-ok (text_eq url.protocol (codes "https:")) not_https _ h in
      let (reachable, h₂) = require-eq-ok (not (is_blocked_host url.hostname)) blocked_host _ h₁ in
      let standard =
        require-eq-ok_last (text_eq url.port [] || text_eq url.port (codes "443")) odd_port h₂ in
      (
        url,
        refl,
        (
          (text_eq_iff url.protocol (codes "https:")).0 secure,
          ground (arith, reachable),
          (port_iff url.port).0 standard,
        ),
      )

  check_parsed_complete :
      (url : ParsedUrl) → IsSafeUrl url → check_parsed parse_url (some url) ≡ ok tt
  unfolding check_parsed
  check_parsed_complete url (secure, reachable, standard) =
      rw
        (
          (text_eq_iff url.protocol (codes "https:")).1 secure,
          reachable,
          (port_iff url.port).1 standard,
        )
        refl

  sound :
      (v : Json)
      → validate_url parse_url v ≡ ok tt
      → (t : Text) × (url : ParsedUrl) × (v ≡ str t)
        × IsHttpsText t
        × (parse_url t ≡ some url)
        × IsSafeUrl url
  unfolding validate_url validate_url_format
  sound (str t) h =
      let (s, accepted, h₁) = >>=-eq-ok (validate_url_text t) _ h in
      let (same, shaped) = validate_url_text-eq-ok t s accepted in
      let (url, parsed, safe) = check_parsed_sound (parse_url s) h₁ in
      (t, url, refl, shaped, ap parse_url (sym same) ∙ parsed, safe)
  sound _ h = cc h

  complete :
      (v : Json)
      → ((t : Text) × (url : ParsedUrl) × (v ≡ str t)
          × IsHttpsText t
          × (parse_url t ≡ some url)
          × IsSafeUrl url)
      → validate_url parse_url v ≡ ok tt
  unfolding validate_url validate_url_format
  complete v (t, url, e, shaped, parsed, safe) =
      rw (e, validate_url_text_complete t shaped, parsed) (check_parsed_complete url safe)

  -- A value is accepted exactly when it is a string of at most 500 code units that is `https://`
  -- and then code units that are not white space, at least one, and it parses to a URL over https
  -- whose host is not blocked and whose port is the default one.
  pub validate_url_iff :
      (v : Json)
      → (validate_url parse_url v ≡ ok tt) ↔ (
          (t : Text) × (url : ParsedUrl) × (v ≡ str t)
          × IsHttpsText t
          × (parse_url t ≡ some url)
          × IsSafeUrl url)
  validate_url_iff v = (sound v, complete v)

never-matches : (t : Text) → matches never t ≡ false
unfolding regexes
never-matches [] = refl
never-matches (c ∷ t) = never-matches t

-- A host in brackets, which is how the URL of an IPv6 address names its host, is never blocked: not
-- the loopback address nor any other.
pub is_blocked_host-bracket : (t : Text) → is_blocked_host (b'[' ∷ t) ≡ false
unfolding is_blocked_host text_eq regexes
is_blocked_host-bracket t = rw (never-matches (map lower_unit t)) refl
