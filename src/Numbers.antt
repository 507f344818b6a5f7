-- ===== src/Numbers.antt =====
-- How the scripts read and print numbers: `parseInt(text, 16)`, and a number put into a template
-- literal. A JavaScript number is exact here: the rounding above 2 ^ 53 is not modelled.
pub mod Decimal
use vinuchain_lists.Prelude.{
  ℕ, zero, suc, ◌+◌, ◌-◌, ◌*◌, ◌/◌, ◌%◌, Bool, true, false, ◌&&◌, ◌||◌, not, Option, none, some, [],
  ◌∷◌, Text, leb, ltb, ◌==◌, if◌then◌else◌, trim_start,
}

-- The value of `parseInt`.
pub data JsNumber : Type 0 where
  nan : JsNumber
  int : (negative : Bool) → ℕ → JsNumber

-- `x === n`
unfoldable pub number_is : JsNumber → ℕ → Bool
number_is nan n = false
number_is (int negative m) n = (m == n) && (not negative || (m == 0))

unfoldable pub hex_digit : ℕ → Option ℕ
hex_digit c =
    if leb b'0' c && leb c b'9'
    then some (c - 48)
    else if leb b'a' c && leb c b'f'
    then some (c - 87)
    else if leb b'A' c && leb c b'F'
    then some (c - 55)
    else none

-- The longest run of hexadecimal digits, read from the left.
unfoldable pub hex_from : ℕ → Text → ℕ
unfolding hex_digit
hex_from n [] = n
hex_from n (c ∷ t) = elim (hex_digit c) [ none ↦ n | some d ↦ hex_from (n * 16 + d) t ]

unfoldable pub hex_run : Bool → Text → JsNumber
unfolding hex_digit hex_from
hex_run negative [] = nan
hex_run negative (c ∷ t) = elim (hex_digit c) [ none ↦ nan | some d ↦ int negative (hex_from d t) ]

unfoldable pub strip_0x : Text → Text
strip_0x (z ∷ x ∷ t) = if (z == b'0') && ((x == b'x') || (x == b'X')) then t else z ∷ x ∷ t
strip_0x t = t

unfoldable pub signed_run : Text → JsNumber
unfolding hex_run strip_0x
signed_run [] = nan
signed_run (c ∷ t) =
    if c == b'-'
    then hex_run true (strip_0x t)
    else hex_run false (strip_0x (if c == b'+' then t else c ∷ t))

-- `parseInt(t, 16)`
unfoldable pub parse_int_16 : Text → JsNumber
unfolding signed_run trim_start
parse_int_16 t = signed_run (trim_start t)

-- The decimal digits of a number in front of `rest`; the fuel bounds the digits.
unfoldable pub digits_onto : ℕ → ℕ → Text → Text
digits_onto zero n rest = rest
digits_onto (suc fuel) n rest =
    let more = digits_onto fuel (n / 10) ((48 + n % 10) ∷ rest) in
    if ltb n 10 then (48 + n) ∷ rest else more

-- A natural number in a template literal, `${n}`.
unfoldable pub decimal : ℕ → Text
unfolding digits_onto
decimal n = digits_onto (suc n) n []
