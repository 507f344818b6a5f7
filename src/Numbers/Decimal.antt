-- ===== src/Numbers/Decimal.antt =====
-- The digits of `${n}`, read back.
use vinuchain_lists.Prelude.{
  ℕ, zero, suc, ◌+◌, ◌-◌, ◌*◌, ◌/◌, ◌%◌, ◌<◌, ◌≡◌, ◌≢◌, sym, ap, ◌∙◌, inl, inr, [], ◌∷◌, Text, All,
  ltb, arith, Bool-cases,
}
use vinuchain_lists.Numbers.{digits_onto, decimal}

-- The number that the digits of a text add to `n`.
read_onto : ℕ → Text → ℕ
read_onto n [] = n
read_onto n (c ∷ t) = read_onto (n * 10 + (c - 48)) t

read-digits :
    (fuel n : ℕ) (rest : Text) → n < fuel → read_onto 0 (digits_onto fuel n rest) ≡ read_onto n rest
unfolding digits_onto read_onto
read-digits zero n rest h = absurd (omega (arith, h))
read-digits (suc fuel) n rest h = elim (Bool-cases (ltb n 10)) [
  | inl short ↦ rw short (ap (λ m. read_onto m rest) (omega arith))
  | inr long ↦
      let less : n / 10 < fuel = ground (arith, h, long) in
      rw long (
        read-digits fuel (n / 10) ((48 + n % 10) ∷ rest) less
        ∙ ap (λ m. read_onto m rest) (omega arith))
]

digits-All :
    (fuel n : ℕ) (rest : Text)
    → All (λ c. c ≢ b':') rest
    → All (λ c. c ≢ b':') (digits_onto fuel n rest)
unfolding digits_onto
digits-All zero n rest h = h
digits-All (suc fuel) n rest h = elim (Bool-cases (ltb n 10)) [
  | inl short ↦ rw short (ground (arith, short), h)
  | inr long ↦ rw long (digits-All fuel (n / 10) ((48 + n % 10) ∷ rest) (ground arith, h))
]

-- No digit is a colon.
pub decimal-colon : (n : ℕ) → All (λ c. c ≢ b':') (decimal n)
unfolding decimal
decimal-colon n = digits-All (suc n) n [] tt

pub decimal_injective : (m n : ℕ) → decimal m ≡ decimal n → m ≡ n
unfolding decimal read_onto
decimal_injective m n h =
    sym (read-digits (suc m) m [] (omega arith))
    ∙ (ap (read_onto 0) h ∙ read-digits (suc n) n [] (omega arith))
