-- ===== src/Oracle/Broadcast/Bounds.antt =====
-- The fees of the attempts beside those that the node suggests.
use native.Mathlib.Nat.{mul-le-mul_left}
use vinuchain_lists.Prelude.{ℕ, ◌*◌, ◌≤◌, Option, none, some, arith}
use vinuchain_lists.Oracle.Broadcast.{
  FeeData, Fees, no_fees, dynamic_fees, legacy_fee, bump_big, present, legacy_or_none, fees_from,
  fee_overrides,
}

-- Fees of the same kind, each at least the other's.
abbrev pub AtMost : Fees → Fees → Type 0
AtMost no_fees no_fees = Unit
AtMost (dynamic_fees f t) (dynamic_fees g u) = (f ≤ g) × (t ≤ u)
AtMost (legacy_fee g) (legacy_fee h) = g ≤ h
AtMost _ _ = ⊥

-- What the node suggests, at no factor.
abbrev pub suggested_legacy : Option ℕ → Fees
suggested_legacy (some g) = legacy_fee g
suggested_legacy none = no_fees

abbrev pub suggested : Option ℕ → Option ℕ → Option ℕ → Fees
suggested (some f) (some t) g = dynamic_fees f t
suggested (some f) none g = suggested_legacy g
suggested none t g = suggested_legacy g

bump-covers : (b v : ℕ) → 1000 ≤ b → v ≤ bump_big b v
bump-covers b v h = let more : v * 1000 ≤ v * b = mul-le-mul_left v h in omega (arith, more)

bump_mono : (b c v : ℕ) → b ≤ c → bump_big b v ≤ bump_big c v
bump_mono b c v h = let more : v * b ≤ v * c = mul-le-mul_left v h in omega (arith, more)

legacy-AtMost :
    (b c : ℕ) (g : Option ℕ)
    → 1000 ≤ b
    → b ≤ c
    → AtMost (suggested_legacy g) (legacy_or_none b g)
      × AtMost (legacy_or_none b g) (legacy_or_none c g)
unfolding legacy_or_none
legacy-AtMost b c none h h₁ = (tt, tt)
legacy-AtMost b c (some g) h h₁ = (bump-covers b g h, bump_mono b c g h₁)

fees-AtMost :
    (b c : ℕ) (f t g : Option ℕ)
    → 1000 ≤ b
    → b ≤ c
    → AtMost (suggested f t g) (fees_from b f t g) × AtMost (fees_from b f t g) (fees_from c f t g)
unfolding fees_from
fees-AtMost b c (some f) (some t) g h h₁ =
    ((bump-covers b f h, bump-covers b t h), (bump_mono b c f h₁, bump_mono b c t h₁))
fees-AtMost b c (some f) none g h h₁ = legacy-AtMost b c g h h₁
fees-AtMost b c none t g h h₁ = legacy-AtMost b c g h h₁

-- Where the factor is at least one, an attempt offers at least what the node suggests, and a greater
-- factor offers at least as much, of each kind of fee.
pub fee_overrides_mono :
    (b c : ℕ) (d : FeeData)
    → 1000 ≤ b
    → b ≤ c
    → AtMost
        (suggested
          (present d.max_fee_per_gas)
          (present d.max_priority_fee_per_gas)
          (present d.gas_price))
        (fee_overrides b d)
      × AtMost (fee_overrides b d) (fee_overrides c d)
unfolding fee_overrides
fee_overrides_mono b c d h h₁ =
    fees-AtMost b c (present d.max_fee_per_gas) (present d.max_priority_fee_per_gas)
      (present d.gas_price) h h₁
