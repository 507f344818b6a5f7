-- ===== src/Oracle/Price/Laws.antt =====
-- What the reconciliation of the two prices gives.
use vinuchain_lists.Prelude.{
  ℕ, ◌≡◌, refl, sym, ap, ◌∙◌, inl, inr, Bool, true, false, ◌&&◌, not, Option, none, some,
  Bool-cases, Outcome, ok,
}
use vinuchain_lists.Oracle.Update.{pool_advisory}
use vinuchain_lists.Oracle.Price.{
  Floats, PriceError, PoolPrice, CoingeckoPrice, Price, deviation_bps, is_strict, agreed, compared,
  reconcile_vns_price,
}

ok-injective : {A : Type 0} {a b : A} → ◌≡◌ {A = Outcome PriceError A} (ok a) (ok b) → a ≡ b
ok-injective h = cc h

module _ {F : Type 0} (x : Floats F) where
  -- The deviation is over the cap.
  abbrev pub is_far : ℕ → CoingeckoPrice F → PoolPrice F → Bool
  is_far max c p = x.is_less (x.number max) (deviation_bps x c.usd p.usd)

  compared-usd :
      (far strict : Bool) (p : PoolPrice F) (c : CoingeckoPrice F) (price : Price F)
      → compared x far strict p c ≡ ok price
      → price.usd ≡ c.usd
  unfolding compared agreed
  compared-usd true true p c price h = cc h
  compared-usd true false p c price h = sym (ap (λ z. z.usd) (ok-injective h))
  compared-usd false strict p c price h = sym (ap (λ z. z.usd) (ok-injective h))

  compared-strict :
      (far : Bool) (p : PoolPrice F) (c : CoingeckoPrice F) (price : Price F)
      → compared x far true p c ≡ ok price
      → far ≡ false
  unfolding compared
  compared-strict true p c price h = cc h
  compared-strict false p c price h = refl

  compared-advisory :
      (far : Bool) (p : PoolPrice F) (c : CoingeckoPrice F)
      → (price : Price F) × (compared x far false p c ≡ ok price) × (price.usd ≡ c.usd)
  unfolding compared agreed
  compared-advisory true p c = (record { usd = c.usd; source = pool_advisory }, refl, refl)
  compared-advisory false p c = (agreed x p c, refl, refl)

  -- Under the guard, with no single source allowed, a price comes back only where the pools were read;
  -- if they have a history, CoinGecko's price is there too, the two do not deviate by more than the
  -- cap, and it is CoinGecko's price.
  pub reconcile_vns_price-guarded :
      (max : ℕ) (c : Option (CoingeckoPrice F)) (p : Option (PoolPrice F)) (price : Price F)
      → reconcile_vns_price x true false max c p ≡ ok price
      → (pool : PoolPrice F) × (p ≡ some pool)
        × (pool.is_real_twap ≡ true
            → (coingecko : CoingeckoPrice F) × (c ≡ some coingecko)
              × (is_far max coingecko pool ≡ false)
              × (price.usd ≡ coingecko.usd))
  unfolding reconcile_vns_price
  reconcile_vns_price-guarded max (some c) (some p) price h = (
    p,
    refl,
    λ real.
        let strict = ap (λ b. compared x (is_far max c p) (b && true) p c) (sym real) ∙ h in
        (
          c,
          refl,
          compared-strict (is_far max c p) p c price strict,
          compared-usd (is_far max c p) (is_strict x (some p) true false) p c price h,
        ),
  )
  reconcile_vns_price-guarded max (some c) none price h = cc h
  reconcile_vns_price-guarded max none (some p) price h = (p, refl, λ real. cc (rw real at h))
  reconcile_vns_price-guarded max none none price h = cc h

  -- Where CoinGecko gives a price, no other price is ever the result.
  pub reconcile_vns_price-usd :
      (guard single : Bool) (max : ℕ) (c : CoingeckoPrice F) (p : Option (PoolPrice F))
      (price : Price F)
      → reconcile_vns_price x guard single max (some c) p ≡ ok price
      → price.usd ≡ c.usd
  unfolding reconcile_vns_price
  reconcile_vns_price-usd guard single max c (some p) price h =
      compared-usd (is_far max c p) (is_strict x (some p) guard single) p c price h
  reconcile_vns_price-usd guard single max c none price h =
      elim (Bool-cases (guard && not single)) [
        | inl strict ↦ cc (rw strict at h)
        | inr lax ↦ let h₁ = rw lax at h in sym (ap (λ z. z.usd) (ok-injective h₁))
      ]

  -- The price that the reads of the pools give, as the reconciliation takes it.
  abbrev pub expected_usd : Option (CoingeckoPrice F) → PoolPrice F → F
  expected_usd (some c) p = c.usd
  expected_usd none p = p.usd

  -- Where a price of the pools is there, and a pool has no history, the reconciliation never refuses,
  -- whatever the flags and however far the two prices are apart: the price is CoinGecko's, or, where
  -- CoinGecko gives none, the spot price of the pools.
  pub reconcile_vns_price-spot :
      (guard single : Bool) (max : ℕ) (c : Option (CoingeckoPrice F)) (p : PoolPrice F)
      → p.is_real_twap ≡ false
      → (price : Price F) × (reconcile_vns_price x guard single max c (some p) ≡ ok price)
        × (price.usd ≡ expected_usd c p)
  unfolding reconcile_vns_price
  reconcile_vns_price-spot guard single max (some c) p spot =
      let (price, made, same) = compared-advisory (is_far max c p) p c in
      (
        price,
        ap (λ b. compared x (is_far max c p) (b && (guard && not single)) p c) spot ∙ made,
        same,
      )
  reconcile_vns_price-spot guard single max none p spot =
      (record { usd = p.usd; source = p.source }, rw spot refl, refl)
