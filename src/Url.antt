-- ===== src/Url.antt =====
-- scripts/utils/url-validator.js. The WHATWG parser behind `new URL` is a parameter; `none` is its
-- exception.
pub mod Laws
use vinuchain_lists.Prelude.{
  ℕ, Bool, true, false, ◌&&◌, ◌||◌, not, Option, none, some, List, [], ◌∷◌, ◌++◌, Text, codes,
  text_eq, includes, to_lower, length, any, leb, is_space, ◌==◌, if◌then◌else◌, Outcome, ok, threw,
  ◌>>=◌, ◌>>◌, require,
}
use vinuchain_lists.Regex.{Regex, unit, seq, alt, text, plus, matches, matches_prefix, is_digit}
use vinuchain_lists.Json.{Json, str, null}

pub data UrlError : Type 0 where
  not_a_string too_long newline whitespace not_https_format not_https blocked_host odd_port
        not_a_url :
      UrlError

pub record ParsedUrl : Type 0 where
  pub protocol : Text
  pub hostname : Text
  pub port : Text

abbrev pub max_url_length : ℕ
max_url_length = 500

-- `URL_HTTPS_PATTERN`, `/^https:\/\/[^\s]+$/`
abbrev pub url_https_pattern : Regex
url_https_pattern = seq (text (codes "https://")) (plus (unit (λ c. not (is_space c))))

unfoldable pub validate_url_text : Text → Outcome UrlError Text
unfolding matches
validate_url_text t = do
  require (leb (length t) max_url_length) too_long
  require (not (any (λ c. (c == 10) || (c == 13)) t)) newline
  require (not (any is_space t)) whitespace
  require (matches url_https_pattern t) not_https_format
  ok t

unfoldable pub validate_url_format : Json → Outcome UrlError Text
unfolding validate_url_text
validate_url_format (str t) = validate_url_text t
validate_url_format _ = threw not_a_string

abbrev pub blocked_hosts : List Text
blocked_hosts =
    codes "localhost"
    ∷ codes "127.0.0.1"
    ∷ codes "0.0.0.0"
    ∷ codes "::1"
    ∷ codes "169.254.169.254"
    ∷ codes "metadata.google.internal"
    ∷ codes "metadata"
    ∷ codes "169.254.169.253"
    ∷ []

-- `172\.(1[6-9]|2[0-9]|3[0-1])\.`
abbrev pub private_172 : Regex
private_172 =
    let digits =
      λ (first low high : ℕ). seq (unit (λ c. c == first)) (unit (λ c. leb low c && leb c high)) in
    seq (text (codes "172.")) (
      seq (alt (digits b'1' b'6' b'9') (alt (digits b'2' b'0' b'9') (digits b'3' b'0' b'1')))
        (text (codes ".")))

-- One test of `BLOCKED_IP_PATTERNS` passes.
unfoldable pub matches_blocked_pattern : Text → Bool
unfolding matches text
matches_blocked_pattern host =
    matches_prefix (text (codes "10.")) host
    || (matches_prefix private_172 host
        || (matches_prefix (text (codes "192.168.")) host
            || (matches_prefix (text (codes "127.")) host
                || (matches_prefix (text (codes "0.")) host
                    || (matches_prefix (text (codes "169.254.")) host
                        || (matches (text (codes "::1")) host
                            || (matches_prefix (text (codes "fe80:")) host
                                || (matches_prefix (text (codes "fc00:")) host
                                    || matches_prefix (text (codes "fd00:")) host))))))))

unfoldable pub is_blocked_host : Text → Bool
unfolding matches_blocked_pattern includes to_lower
is_blocked_host hostname =
    includes blocked_hosts (to_lower hostname) || matches_blocked_pattern (to_lower hostname)

module _ (parse_url : Text → Option ParsedUrl) where
  unfoldable pub check_parsed : Option ParsedUrl → Outcome UrlError (Unit {0})
  unfolding text_eq
  check_parsed none = threw not_a_url
  check_parsed (some url) = do
    require (text_eq url.protocol (codes "https:")) not_https
    require (not (is_blocked_host url.hostname)) blocked_host
    require (text_eq url.port [] || text_eq url.port (codes "443")) odd_port

  unfoldable pub validate_url : Json → Outcome UrlError (Unit {0})
  validate_url v = do t ← validate_url_format v; check_parsed (parse_url t)

  -- `validateURLs` over the values of the named members, in their order: the errors of those that
  -- are there and not `null`.
  unfoldable pub url_errors : Option Json → List UrlError
  url_errors none = []
  url_errors (some null) = []
  url_errors (some v) = elim (validate_url v) [ ok u ↦ [] | threw e ↦ e ∷ [] ]

  unfoldable pub validate_urls : List (Option Json) → List UrlError
  validate_urls [] = []
  validate_urls (v ∷ vs) = url_errors v ++ validate_urls vs
