-- ===== src/Oracle/Price/Examples.antt =====
-- The theorems at prices in whole numbers.
use vinuchain_lists.Prelude.{
  ℕ, ◌+◌, ◌-◌, ◌*◌, ◌/◌, ◌≡◌, refl, true, false, not, none, some, codes, arith, ltb, ◌==◌, ok,
}
use vinuchain_lists.Numbers.{int}
use vinuchain_lists.Oracle.Update.{negsuc}
use vinuchain_lists.Oracle.Price.{
  Floats, PoolPrice, CoingeckoPrice, Price, div_floor, reconcile_vns_price,
}
use vinuchain_lists.Oracle.Price.Floor.{IsFloor, div_floor-IsFloor}
use vinuchain_lists.Oracle.Price.Laws.{
  is_far, expected_usd, reconcile_vns_price-guarded, reconcile_vns_price-spot,
}

-- Natural numbers in the place of JavaScript's.
abbrev whole : Floats ℕ
whole = record {
  number = λ n. n;
  plus = λ a b. a + b;
  minus = λ a b. (a - b) + (b - a);
  times = λ a b. a * b;
  over = λ a b. a / b;
  absolute = λ a. a;
  tick_power = λ t. 1;
  ten_power = λ a b. 1;
  is_less = ltb;
  is_finite = λ a. true;
  is_truthy = λ a. not (a == 0);
  rounded = λ a. int false a;
}

abbrev coingecko : CoingeckoPrice ℕ
coingecko = record { usd = 1000; source = codes "coingecko" }

abbrev pool : PoolPrice ℕ
pool = record { usd = 1002; source = codes "v3-twap"; is_real_twap = true }

abbrev spot : PoolPrice ℕ
spot = record { usd = 5000; source = codes "v3-spot"; is_real_twap = false }

abbrev both : Price ℕ
both = record { usd = 1000; source = codes "coingecko+v3-twap" }

guarded : reconcile_vns_price whole true false 500 (some coingecko) (some pool) ≡ ok both
unfolding reconcile_vns_price
guarded = refl

reconcile_vns_price-guarded_example :
    (p : PoolPrice ℕ) × (some pool ≡ some p)
    × (p.is_real_twap ≡ true
        → (c : CoingeckoPrice ℕ) × (some coingecko ≡ some c)
          × (is_far whole 500 c p ≡ false)
          × (1000 ≡ c.usd))
reconcile_vns_price-guarded_example =
    reconcile_vns_price-guarded whole 500 (some coingecko) (some pool) both guarded

reconcile_vns_price-spot_example :
    (price : Price ℕ) × (reconcile_vns_price whole true false 500 none (some spot) ≡ ok price)
    × (price.usd ≡ expected_usd whole none spot)
reconcile_vns_price-spot_example = reconcile_vns_price-spot whole true false 500 none spot refl

div_floor-IsFloor_example : IsFloor (negsuc 6) 3 (div_floor (negsuc 6) 3)
div_floor-IsFloor_example = div_floor-IsFloor (negsuc 6) 3 (omega arith)
