-- ===== src/Oracle/Price/Floor.antt =====
-- The average tick is rounded down.
use native.Mathlib.Nat.{div-mul-le_self, lt-div-mul-add, mod-lt, div-add-mod', add-mul}
use vinuchain_lists.Prelude.{
  ℕ, zero, suc, ◌+◌, ◌*◌, ◌/◌, ◌%◌, ◌<◌, ◌≤◌, ◌≡◌, refl, sym, ap, ◌∙◌, inl, inr, ◌==◌, ==_iff,
  arith, Bool-cases,
}
use vinuchain_lists.Oracle.Update.{ℤ, pos, negsuc}
use vinuchain_lists.Oracle.Price.{cut_quotient, minus_one, div_floor}

-- The third is the greatest integer that is at most the quotient of the first two: q * d is at most n,
-- and (q + 1) * d is more. With n = -(m + 1) and q = -(p + 1), these are p * d ≤ m < p * d + d.
abbrev pub IsFloor : ℤ → ℕ → ℤ → Type 0
IsFloor (pos n) d (pos q) = (q * d ≤ n) × (n < q * d + d)
IsFloor (negsuc n) d (negsuc q) = (q * d ≤ n) × (n < q * d + d)
IsFloor _ d _ = ⊥

abbrev negated : ℕ → ℤ
negated zero = pos 0
negated (suc q) = negsuc q

negated-cut : (n d : ℕ) → cut_quotient (negsuc n) d ≡ negated (suc n / d)
unfolding cut_quotient
negated-cut n d = refl

exact-IsFloor : (n d q : ℕ) → 0 < d → suc n ≡ q * d → IsFloor (negsuc n) d (negated q)
exact-IsFloor n d zero h e = absurd (omega (arith, e))
exact-IsFloor n d (suc q) h e =
    let one_more : suc q ≡ q + 1 = omega arith in
    let same : suc n ≡ q * d + d = e ∙ (ap (λ z. z * d) one_more ∙ (add-mul q 1 d ∙ omega arith)) in
    (omega (arith, same, h), omega (arith, same, h))

cut-IsFloor :
    (n d q r : ℕ) → suc n ≡ q * d + r → 0 < r → r < d → IsFloor (negsuc n) d (minus_one (negated q))
unfolding minus_one
cut-IsFloor n d zero r e h h₁ = (omega (arith, e, h, h₁), omega (arith, e, h, h₁))
cut-IsFloor n d (suc q) r e h h₁ = (omega (arith, e, h, h₁), omega (arith, e, h, h₁))

-- The quotient by a positive divisor is rounded down, also below 0.
pub div_floor-IsFloor : (n : ℤ) (d : ℕ) → 0 < d → IsFloor n d (div_floor n d)
unfolding div_floor cut_quotient
div_floor-IsFloor (pos n) d h = (div-mul-le_self n d, lt-div-mul-add h)
div_floor-IsFloor (negsuc n) d h = elim (Bool-cases (suc n % d == 0)) [
  | inl exact ↦
      let parts : suc n ≡ suc n / d * d =
        sym (div-add-mod' (suc n) d)
        ∙ (ap (λ z. suc n / d * d + z) ((==_iff (suc n % d) 0).0 exact) ∙ omega arith) in
      rw (exact, negated-cut n d) (exact-IsFloor n d (suc n / d) h parts)
  | inr cut ↦
      let parts : suc n ≡ suc n / d * d + suc n % d = sym (div-add-mod' (suc n) d) in
      rw (cut, negated-cut n d)
        (cut-IsFloor n d (suc n / d) (suc n % d) parts (ground (arith, cut)) (mod-lt (suc n) h))
]
