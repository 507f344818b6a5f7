-- ===== src/Oracle/Rpc/Quantity.antt =====
-- Quantities of JSON-RPC, printed and read, and the resolution of a provider.
use native.Mathlib.Nat.{div-add-mod'}
use vinuchain_lists.Prelude.{
  ℕ, zero, suc, ◌+◌, ◌*◌, ◌/◌, ◌%◌, ◌<◌, ◌≤◌, ◌≡◌, refl, ap, ◌∙◌, subst, inl, inr, true, false,
  some, [], ◌∷◌, ◌++◌, Text, codes, All, leb, ltb, arith, Bool-cases, if◌then◌else◌, ok, threw,
}
use vinuchain_lists.Numbers.{hex_digit, hex_from}
use vinuchain_lists.Regex.{unit, plus, matches}
use vinuchain_lists.Regex.Laws.{both, one, matches_iff}
use vinuchain_lists.Regex.Classes.{Accepted, seq-text_iff, star_iff}
use vinuchain_lists.Address.{is_hex}
use vinuchain_lists.Onchain.Rpc.{str}
use vinuchain_lists.Oracle.Rpc.{
  quantity_pattern, unsafe_quantity, max_safe_integer, safe_quantity, after_0x, parse_quantity,
}

-- The digit of a number under 16, in lower case.
abbrev pub hex_char : ℕ → ℕ
hex_char d = if ltb d 10 then 48 + d else 87 + d

hex_digit-char : (d : ℕ) → d < 16 → hex_digit (hex_char d) ≡ some d
unfolding hex_digit
hex_digit-char d h = elim (Bool-cases (ltb d 10)) [
  | inl small ↦ rw small (ground (arith, small))
  | inr large ↦ rw large (ground (arith, large, h))
]

is_hex-char : (d : ℕ) → d < 16 → is_hex (hex_char d) ≡ true
is_hex-char d h = elim (Bool-cases (ltb d 10)) [
  | inl small ↦ rw small (ground (arith, small))
  | inr large ↦ rw large (ground (arith, large, h))
]

-- The hexadecimal digits of a number in front of `rest`; the fuel bounds the digits.
unfoldable pub hex_onto : ℕ → ℕ → Text → Text
hex_onto zero n rest = rest
hex_onto (suc fuel) n rest =
    let more = hex_onto fuel (n / 16) (hex_char (n % 16) ∷ rest) in
    if ltb n 16 then hex_char n ∷ rest else more

hex_from-cons :
    (n d : ℕ) (t : Text) → d < 16 → hex_from n (hex_char d ∷ t) ≡ hex_from (n * 16 + d) t
unfolding hex_from
hex_from-cons n d t h = rw (hex_from, hex_digit-char d h) refl

hex_from-onto :
    (fuel n : ℕ) (rest : Text) → n < fuel → hex_from 0 (hex_onto fuel n rest) ≡ hex_from n rest
unfolding hex_onto
hex_from-onto zero n rest h = absurd (omega (arith, h))
hex_from-onto (suc fuel) n rest h = elim (Bool-cases (ltb n 16)) [
  | inl short ↦
      rw short
        (hex_from-cons 0 n rest (ground (arith, short)) ∙ ap (λ m. hex_from m rest) (omega arith))
  | inr long ↦
      let less : n / 16 < fuel = ground (arith, h, long) in
      rw long (
        hex_from-onto fuel (n / 16) (hex_char (n % 16) ∷ rest) less
        ∙ (hex_from-cons (n / 16) (n % 16) rest (omega arith)
            ∙ ap (λ m. hex_from m rest) (div-add-mod' n 16)))
]

-- A number in hexadecimal digits.
abbrev pub hexadecimal : ℕ → Text
hexadecimal n = hex_onto (suc n) n []

abbrev AllHex : Text → Type 0
AllHex t = All (Accepted is_hex) t

onto-AllHex : (fuel n : ℕ) (rest : Text) → AllHex rest → AllHex (hex_onto fuel n rest)
unfolding hex_onto
onto-AllHex zero n rest h = h
onto-AllHex (suc fuel) n rest h = elim (Bool-cases (ltb n 16)) [
  | inl short ↦ rw short (is_hex-char n (ground (arith, short)), h)
  | inr long ↦
      rw long (
        onto-AllHex fuel (n / 16) (hex_char (n % 16) ∷ rest)
          (is_hex-char (n % 16) (omega arith), h))
]

onto-cons :
    (fuel n c : ℕ) (rest : Text) → (d : ℕ) × (t : Text) × (hex_onto fuel n (c ∷ rest) ≡ d ∷ t)
unfolding hex_onto
onto-cons zero n c rest = (c, rest, refl)
onto-cons (suc fuel) n c rest = elim (Bool-cases (ltb n 16)) [
  | inl short ↦ (hex_char n, c ∷ rest, rw short refl)
  | inr long ↦
      let (d, t, e) = onto-cons fuel (n / 16) (hex_char (n % 16)) (c ∷ rest) in (d, t, rw long e)
]

hexadecimal-cons : (n : ℕ) → (d : ℕ) × (t : Text) × (hexadecimal n ≡ d ∷ t)
unfolding hex_onto
hexadecimal-cons n = elim (Bool-cases (ltb n 16)) [
  | inl short ↦ (hex_char n, [], rw short refl)
  | inr long ↦ let (d, t, e) = onto-cons n (n / 16) (hex_char (n % 16)) [] in (d, t, rw long e)
]

hexadecimal-matches : (n : ℕ) → matches quantity_pattern (codes "0x" ++ hexadecimal n) ≡ true
hexadecimal-matches n =
    let (d, t, e) = hexadecimal-cons n in
    let (h, hs) = subst AllHex e (onto-AllHex (suc n) n [] tt) in
    (matches_iff quantity_pattern (codes "0x" ++ hexadecimal n)).1 (
      (seq-text_iff (codes "0x") (plus (unit is_hex)) (codes "0x" ++ hexadecimal n)).1
        (hexadecimal n, refl, both (d ∷ []) t (one d h refl) ((star_iff is_hex t).1 hs) e))

-- A number printed in hexadecimal digits behind 0x is read back where it is a safe integer, and is
-- refused as unsafe where it is not.
pub parse_quantity-hexadecimal :
    (n : ℕ)
    → (n ≤ max_safe_integer → parse_quantity (str (codes "0x" ++ hexadecimal n)) ≡ ok n)
      × (max_safe_integer < n
          → parse_quantity (str (codes "0x" ++ hexadecimal n)) ≡ threw unsafe_quantity)
unfolding parse_quantity after_0x safe_quantity
parse_quantity-hexadecimal n =
    let value = hex_from-onto (suc n) n [] (omega arith) in
    let same : hex_from 0 (hexadecimal n) ≡ n = value in
    (
      λ h.
          let safe : leb n max_safe_integer ≡ true = ground (arith, h) in
          rw (hexadecimal-matches n, same, safe) refl,
      λ h.
          let unsafe : leb n max_safe_integer ≡ false = ground (arith, h) in
          rw (hexadecimal-matches n, same, unsafe) refl,
    )
