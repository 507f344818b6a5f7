-- ===== src/Regex.antt =====
-- The regular expressions that the scripts test their input with, as data, so that each literal of
-- the source is written down as it stands. `matches` runs one by derivatives.
pub mod Laws
pub mod Classes
use vinuchain_lists.Prelude.{
  ℕ, zero, suc, Bool, true, false, ◌&&◌, ◌||◌, List, [], ◌∷◌, Text, leb, ◌==◌, if◌then◌else◌,
  is_space, any,
}

pub data Regex : Type 0 where
  never eps : Regex
  unit : (ℕ → Bool) → Regex
  seq alt : Regex → Regex → Regex
  star : Regex → Regex

unfoldable pub nullable : Regex → Bool
nullable never = false
nullable eps = true
nullable (unit p) = false
nullable (seq r s) = nullable r && nullable s
nullable (alt r s) = nullable r || nullable s
nullable (star r) = true

-- `seq` and `alt`, but that a side that matches nothing is dropped.
unfoldable pub join : Regex → Regex → Regex
join never s = never
join eps s = s
join r s = seq r s

unfoldable pub either : Regex → Regex → Regex
either never s = s
either r never = r
either r s = alt r s

-- What is left of the expression behind the code unit `c`.
unfoldable pub deriv : ℕ → Regex → Regex
unfolding join either nullable
deriv c never = never
deriv c eps = never
deriv c (unit p) = if p c then eps else never
deriv c (seq r s) =
    let first = join (deriv c r) s in
    let both = either first (deriv c s) in if nullable r then both else first
deriv c (alt r s) = either (deriv c r) (deriv c s)
deriv c (star r) = join (deriv c r) (star r)

-- `/^r$/.test(t)`
unfoldable pub matches : Regex → Text → Bool
unfolding deriv nullable
matches r [] = nullable r
matches r (c ∷ t) = matches (deriv c r) t

abbrev pub any_text : Regex
any_text = star (unit (λ c. true))

-- `/^r/.test(t)`
abbrev pub matches_prefix : Regex → Text → Bool
matches_prefix r t = matches (seq r any_text) t

-- `/r/.test(t)`
abbrev pub matches_somewhere : Regex → Text → Bool
matches_somewhere r t = matches (seq any_text (seq r any_text)) t

-- The text itself.
unfoldable pub text : Text → Regex
text [] = eps
text (c ∷ t) = seq (unit (λ d. d == c)) (text t)

-- `r{n}`, `r{0,n}`, `r?` and `r+`
unfoldable pub times : ℕ → Regex → Regex
times zero r = eps
times (suc n) r = seq r (times n r)

unfoldable pub up_to : ℕ → Regex → Regex
up_to zero r = eps
up_to (suc n) r = alt eps (seq r (up_to n r))

abbrev pub opt : Regex → Regex
opt r = alt eps r

abbrev pub plus : Regex → Regex
plus r = seq r (star r)

abbrev pub is_digit : ℕ → Bool
is_digit c = leb b'0' c && leb c b'9'

abbrev pub is_alpha : ℕ → Bool
is_alpha c = (leb b'a' c && leb c b'z') || (leb b'A' c && leb c b'Z')

abbrev pub is_alnum : ℕ → Bool
is_alnum c = is_alpha c || is_digit c

abbrev pub one_of : Text → ℕ → Bool
one_of cs c = any (λ d. d == c) cs

-- `\s`
abbrev pub space : Regex
space = unit is_space

-- What a test of an expression computes through.
unfoldable pub regexes : Unit {0}
unfolding matches text times up_to
regexes = tt
